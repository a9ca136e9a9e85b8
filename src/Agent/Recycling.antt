-- ===== src/Agent/Recycling.antt =====
-- The way of a cleaning shard back to the pool: truncated by its agent, and recycled by the server.
use shardman.Prelude.{
  ℕ, ◌≡◌, ◌≢◌, inl, inr, refl, sym, ap, ◌∙◌, subst, Bool, true, false, Option, none, some, [], ◌∷◌,
  find, ◌==◌, ◌&&◌, count,
}
use shardman.Prelude.Int.{ℤ, pos}
use shardman.Prelude.Text.{Text, text_eq_iff}
use shardman.Prelude.Results.{ok, not_found}
use shardman.Bucket.Platform.{Platform}
use shardman.Fsm.{cleaning, standby, state_eq}
use shardman.Store.Shard.{Shard}
use shardman.Store.Db.{
  Db, commit, update, update_where, constraints_ok, known_state, bump_topology_version, bump_config,
}
use shardman.Store.Queries.{get_shard_by_uuid, or_not_found}
use shardman.Store.Register.{update_stats, require_rows, stats_row}
use shardman.Store.Rotate.{finish_cleaning, finish_cleaning_tx, bump_if_rows, recycled}
use shardman.Store.Promote.{Env}
use shardman.Store.Machine.{stats, apply}
use shardman.Store.Table.{find-true}
use shardman.Store.Moves.{IdsOk}
use shardman.Store.Conformance.{apply-Change}
use shardman.Store.Outcome.{update-ok, require_rows-ok, count-find, commit-ok, >>=-ok, find-update}
use shardman.Store.Quiet.{Quiet, Quiet-constraints}
use shardman.Store.Rotation.{IsValid}
use shardman.Config.{AgentConfig}
use shardman.Server.Access.{require_key, check_values, check_key}
use shardman.Server.Requests.{report_stats, report_cleaned, Reply, accepted, reported}
use shardman.Server.Announcements.{notify_with-store}
use shardman.Server.Replies.{
  Server, Call, guarded, with_db, stats_reply, done_reply, state_of, notify_all,
}
use shardman.Server.Handlers.{serve, with_uuid}
use shardman.Agent.{
  Postgres, Pair, measure_size, clean_database, finish, report_clean, act_on, answered, report_size,
  rpc_call, rpc_metadata, tick,
}

abbrev has_uuid : ℕ → Shard → Bool
has_uuid u s = s.shard_uuid == u

abbrev is_cleaning : ℕ → Shard → Bool
is_cleaning u s = s.shard_uuid == u && state_eq s.state cleaning

stats_row-Quiet : (bytes : ℤ) (now : ℕ) (s : Shard) → Quiet s (stats_row bytes now s)
unfolding stats_row
stats_row-Quiet bytes now s = record { same_role = refl; rest = inl (refl, refl) }

recycled-Quiet : (s : Shard) → Quiet s (recycled s)
unfolding recycled known_state state_eq
recycled-Quiet s = record { same_role = refl; rest = inr (refl, refl) }

module _ (u : ℕ) (d : Db) (v : IsValid d) {row : Shard}
    (e : find (has_uuid u) d.shards ≡ some row) where
  abbrev sized : ℤ → ℕ → Db
  sized bytes now = record d { shards = update_where (has_uuid u) (stats_row bytes now) d.shards }

  sized-constraints : (bytes : ℤ) (now : ℕ) → constraints_ok (sized bytes now).shards ≡ true
  sized-constraints bytes now =
      Quiet-constraints (has_uuid u) (stats_row bytes now) 0 d.shards (stats_row-Quiet bytes now)
        v.ids.rising v.constraints

  -- ReportStats finds the shard and writes its size.
  update_stats_found :
      (bytes : ℤ) (now : ℕ) → commit (update_stats u bytes now) d ≡ (ok tt, sized bytes now)
  unfolding update_stats
  update_stats_found bytes now =
      let counted =
        count-find (has_uuid u) (has_uuid u) d.shards e (find-true (has_uuid u) d.shards e) in
      commit-ok (update_stats u bytes now) d (
        >>=-ok (update (has_uuid u) (stats_row bytes now)) (λ n. require_rows n not_found) d
          (update-ok (has_uuid u) (stats_row bytes now) d (sized-constraints bytes now))
        ∙ require_rows-ok (count (has_uuid u) d.shards) not_found (sized bytes now) counted)

  sized-IsValid : (bytes : ℤ) (now : ℕ) → IsValid (sized bytes now)
  unfolding apply
  sized-IsValid bytes now = record {
    ids =
        subst IdsOk (ap (λ r. r.1) (update_stats_found bytes now))
          (apply-Change (stats u bytes now) d v.ids).ids;
    constraints = sized-constraints bytes now;
  }

  sized-find :
      (bytes : ℤ) (now : ℕ)
      → find (has_uuid u) (sized bytes now).shards ≡ some (stats_row bytes now row)
  unfolding stats_row
  sized-find bytes now =
      find-update (has_uuid u) (has_uuid u) (stats_row bytes now) d.shards (λ s. refl) e
        (find-true (has_uuid u) d.shards e)

  abbrev emptied : Db
  emptied = record d {
    config = bump_config d.config;
    shards = update_where (is_cleaning u) recycled d.shards;
  }

  -- ReportCleaned recycles it.
  finish_cleaning_found : row.state ≡ cleaning → finish_cleaning u d ≡ (ok tt, emptied)
  unfolding finish_cleaning finish_cleaning_tx bump_if_rows bump_topology_version state_eq
  finish_cleaning_found c =
      let chosen : is_cleaning u row ≡ true = rw (find-true (has_uuid u) d.shards e) (rw c refl) in
      let counted = count-find (has_uuid u) (is_cleaning u) d.shards e chosen in
      let fine =
        Quiet-constraints (is_cleaning u) recycled 0 d.shards recycled-Quiet v.ids.rising
          v.constraints in
      commit-ok (finish_cleaning_tx u) d (
        >>=-ok (update (is_cleaning u) recycled) bump_if_rows d
          (update-ok (is_cleaning u) recycled d fine)
        ∙ rw counted refl)

  emptied-find : row.state ≡ cleaning → find (has_uuid u) emptied.shards ≡ some (recycled row)
  unfolding recycled state_eq
  emptied-find c =
      find-update (has_uuid u) (is_cleaning u) recycled d.shards (λ s. refl) e
        (rw (find-true (has_uuid u) d.shards e) (rw c refl))

-- The agent brings the key of the server.
rpc_metadata-require_key : (key : Text) → key ≢ [] → require_key key (rpc_metadata key) ≡ none
unfolding require_key rpc_metadata check_values check_key
rpc_metadata-require_key [] ne = absurd (ne refl)
rpc_metadata-require_key (c ∷ key) ne = rw ((text_eq_iff (c ∷ key) (c ∷ key)).1 refl) refl

guarded-passes :
    (call : Call) (s : Server) (next : Reply × Server)
    → require_key s.cluster_key call.metadata ≡ none
    → guarded call s next ≡ next
guarded-passes call s next e = rw (guarded, e) refl

module _ (G : Postgres) (P : Platform) (parse_uuid : Text → Option ℕ) where
  -- A standby of the pool, with the identity of `row`.
  pub record IsBlank (row t : Shard) : Type 0 where
    pub same_id : t.id ≡ row.id
    pub same_uuid : t.shard_uuid ≡ row.shard_uuid
    pub same_role : t.role ≡ row.role
    pub same_dsn : t.dsn ≡ row.dsn
    pub is_standby : t.state ≡ standby
    pub no_bucket : t.bucket_id ≡ none
    pub empty : t.reported_bytes ≡ pos 0
    pub not_sealed : t.sealed_at ≡ none
    pub not_draining : t.drain_started_at ≡ none
    pub not_drained : t.drain_ready ≡ false

  sized-IsBlank :
      (bytes : ℤ) (now : ℕ) (row : Shard) → IsBlank row (recycled (stats_row bytes now row))
  unfolding recycled stats_row
  sized-IsBlank bytes now row = record {
    same_id = refl;
    same_uuid = refl;
    same_role = refl;
    same_dsn = refl;
    is_standby = refl;
    no_bucket = refl;
    empty = refl;
    not_sealed = refl;
    not_draining = refl;
    not_drained = refl;
  }

  -- The tick returned no error, the agent's database was truncated, and the shard is blank.
  pub record IsRecycled (u : ℕ) (row : Shard) (d : G.Database) (r : Bool × Pair G) : Type 0 where
    pub fine : r.0 ≡ true
    pub erased : G.truncate d ≡ some r.1.0
    pub pooled : Shard
    pub found : get_shard_by_uuid u r.1.1.store.db ≡ ok pooled
    pub blank : IsBlank row pooled

  report_stats_found :
      (call : Call) (uuid : Text) (u : ℕ) (bytes : ℤ) (s : Server) {row : Shard}
      → (v : IsValid s.store.db) → (e : find (has_uuid u) s.store.db.shards ≡ some row)
      → parse_uuid uuid ≡ some u
      → require_key s.cluster_key call.metadata ≡ none
      → serve P parse_uuid call (report_stats uuid bytes) s
        ≡ (reported (some row.state), with_db s (sized u s.store.db v e bytes call.env.now))
  unfolding serve with_uuid stats_reply state_of get_shard_by_uuid stats_row
  report_stats_found call uuid u bytes s {row} v e parsed key =
      guarded-passes call s _ key
      ∙ (rw parsed (
          rw (update_stats_found u s.store.db v e bytes call.env.now)
            (rw (sized-find u s.store.db v e bytes call.env.now) refl)))

  report_cleaned_found :
      (call : Call) (uuid : Text) (u : ℕ) (s : Server) {row : Shard}
      → (v : IsValid s.store.db) → (e : find (has_uuid u) s.store.db.shards ≡ some row)
      → row.state ≡ cleaning
      → parse_uuid uuid ≡ some u
      → require_key s.cluster_key call.metadata ≡ none
      → serve P parse_uuid call (report_cleaned uuid) s
        ≡ (accepted, notify_all (with_db s (emptied u s.store.db v e)))
  unfolding serve with_uuid done_reply
  report_cleaned_found call uuid u s {row} v e c parsed key =
      guarded-passes call s _ key ∙ (rw parsed (rw (finish_cleaning_found u s.store.db v e c) refl))

  answered_cleaning :
      (cfg : AgentConfig) (call : Call) (d d' : G.Database) (s : Server) (r : Reply × Server)
      → G.truncate d ≡ some d'
      → r ≡ (reported (some cleaning), s)
      → answered G P parse_uuid cfg call d r
        ≡ finish G d' (serve P parse_uuid call (report_cleaned cfg.shard_uuid) s)
  unfolding answered act_on report_clean clean_database
  answered_cleaning cfg call d d' s r truncated same = rw same (rw truncated refl)

  tick_measured :
      (cfg : AgentConfig) (env : Env) (clock : ℤ) (d : G.Database) (s : Server) {size : ℤ}
      → G.connects d ≡ true
      → measure_size G cfg.size_source d ≡ some size
      → tick G P parse_uuid cfg env clock (d, s)
        ≡ answered G P parse_uuid cfg
            (rpc_call cfg env clock)
            d
            (serve P parse_uuid (rpc_call cfg env clock) (report_stats cfg.shard_uuid size) s)
  unfolding tick report_size
  tick_measured cfg env clock d s connected measured = rw connected (rw measured refl)

  pooled_again :
      (u : ℕ) (s : Server) (d : Db) {row : Shard}
      → find (has_uuid u) d.shards ≡ some row
      → get_shard_by_uuid u (notify_all (with_db s d)).store.db ≡ ok row
  unfolding get_shard_by_uuid notify_all or_not_found
  pooled_again u s d e = rw (notify_with-store s.broadcast (with_db s d)) (rw e refl)

  -- The shard of an agent is cleaning in a database whose ids rise along the table and which meets
  -- the constraints; the agent has the server's key, which is not empty, and a uuid that the server
  -- reads as the shard's; its database can be reached, measured and truncated. Then one tick returns no
  -- error, leaves the agent's database truncated, and leaves the shard with its id, uuid, role and dsn a
  -- standby that has no bucket, no reported bytes, no time of sealing or of the start of a drain, and no
  -- drain that is ready.
  pub tick-IsRecycled :
      (cfg : AgentConfig) (env : Env) (clock : ℤ) (d d' : G.Database) (s : Server) (u : ℕ)
      (size : ℤ) {row : Shard}
      → IsValid s.store.db
      → find (has_uuid u) s.store.db.shards ≡ some row
      → row.state ≡ cleaning
      → parse_uuid cfg.shard_uuid ≡ some u
      → cfg.cluster_key ≡ s.cluster_key
      → cfg.cluster_key ≢ []
      → G.connects d ≡ true
      → measure_size G cfg.size_source d ≡ some size
      → G.truncate d ≡ some d'
      → IsRecycled u row d (tick G P parse_uuid cfg env clock (d, s))
  unfolding finish rpc_call stats_row
  tick-IsRecycled cfg env clock d d' s u size {row} v e c parsed same ne connected measured
        truncated =
      let call = rpc_call cfg env clock in
      let key : require_key s.cluster_key call.metadata ≡ none =
        subst (λ k. require_key k (rpc_metadata cfg.cluster_key) ≡ none) same
          (rpc_metadata-require_key cfg.cluster_key ne) in
      let s₁ = with_db s (sized u s.store.db v e size env.now) in
      let v₁ = sized-IsValid u s.store.db v e size env.now in
      let e₁ = sized-find u s.store.db v e size env.now in
      let stated =
        report_stats_found call cfg.shard_uuid u size s v e parsed key
        ∙ ap (λ st. (reported (some st), s₁)) c in
      let done =
        tick_measured cfg env clock d s connected measured
        ∙ answered_cleaning cfg call d d' s₁ _ truncated stated
        ∙ ap (finish G d') (report_cleaned_found call cfg.shard_uuid u s₁ v₁ e₁ c parsed key) in
      subst (IsRecycled u row d) (sym done) (record {
        fine = refl;
        erased = truncated;
        pooled = recycled (stats_row size env.now row);
        blank = sized-IsBlank size env.now row;
        found =
            pooled_again u s₁ (emptied u s₁.store.db v₁ e₁) (emptied-find u s₁.store.db v₁ e₁ c);
      })
