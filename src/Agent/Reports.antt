-- ===== src/Agent/Reports.antt =====
-- A tick of the agent leaves every shard's state, unless the agent's own database is empty.
use shardman.Prelude.{
  ℕ, ◌≡◌, ◌⊎◌, inl, inr, refl, ◌∙◌, Bool, not, Option, none, some, List, [], ◌∷◌, map, Bool-cases,
  Option-cases, ◌==◌, count,
}
use shardman.Prelude.Int.{ℤ}
use shardman.Prelude.Text.{Text}
use shardman.Prelude.Results.{Result, ok, err, Error}
use shardman.Bucket.Platform.{Platform}
use shardman.Fsm.{State, standby, active, draining, sealed, cleaning, other}
use shardman.Store.Shard.{Shard}
use shardman.Store.Db.{Db, ◌>>=◌, commit, update, update_where, constraints_ok}
use shardman.Store.Register.{update_stats, mark_drain_ready, require_rows, stats_row, ready_row}
use shardman.Store.Promote.{Env}
use shardman.Config.{AgentConfig}
use shardman.Server.Requests.{
  report_stats, report_drain_complete, Reply, failed, written, found, bucket_shards, topology,
  bootstrapped, shards, registered, rotated, accepted, reported,
}
use shardman.Server.Guard.{guarded-cases}
use shardman.Server.Replies.{Server, Call, guarded, stats_reply, drain_reply}
use shardman.Server.Handlers.{serve, with_uuid}
use shardman.Agent.{
  Postgres, Pair, measure_size, drain_shard, clean_database, finish, report_drained, report_clean,
  act_on, answered, report_size, rpc_call, tick,
}

abbrev pub states : Db → List State
states d = map (λ s. s.state) d.shards

states-update :
    (p : Shard → Bool) (f : Shard → Shard) (xs : List Shard)
    → ((s : Shard) → (f s).state ≡ s.state)
    → map (λ s. s.state) (update_where p f xs) ≡ map (λ s. s.state) xs
unfolding update_where
states-update p f [] h = refl
states-update p f (x ∷ xs) h = elim (Bool-cases (p x)) [
  | inl t ↦ rw (t, h x, states-update p f xs h) refl
  | inr n ↦ rw (n, states-update p f xs h) refl
]

-- An update that must find a row, as a transaction of its own.
states-commit :
    (p : Shard → Bool) (f : Shard → Shard) (e : Error) (d : Db)
    → ((s : Shard) → (f s).state ≡ s.state)
    → states (commit (update p f >>= λ n. require_rows n e) d).1 ≡ states d
unfolding update require_rows
states-commit p f e d h = elim (Bool-cases (constraints_ok (update_where p f d.shards))) [
  | inl t ↦ elim (Bool-cases (count p d.shards == 0)) [
    | inl z ↦ rw (commit, ◌>>=◌, t, z) refl
    | inr n ↦ rw (commit, ◌>>=◌, t, n) (states-update p f d.shards h)
  ]
  | inr n ↦ rw (commit, ◌>>=◌, n) refl
]

-- What leaves the states of the server's shards.
abbrev Still : Server → Reply × Server → Type 0
Still s r = states r.1.store.db ≡ states s.store.db

stats_reply-Still :
    (u : ℕ) (s : Server) (r : Result (Unit {0}) × Db)
    → states r.1 ≡ states s.store.db
    → Still s (stats_reply u s r)
unfolding stats_reply
stats_reply-Still u s (ok x, d) h = h
stats_reply-Still u s (err e, d) h = h

drain_reply-Still :
    (s : Server) (r : Result (Unit {0}) × Db)
    → states r.1 ≡ states s.store.db
    → Still s (drain_reply s r)
unfolding drain_reply
drain_reply-Still s (ok x, d) h = h
drain_reply-Still s (err e, d) h = h

module _ (P : Platform) (parse_uuid : Text → Option ℕ) where
  with_uuid-Still :
      (u : Option ℕ) (s : Server) (next : ℕ → Reply × Server)
      → ((uuid : ℕ) → Still s (next uuid))
      → Still s (with_uuid P parse_uuid u s next)
  unfolding with_uuid
  with_uuid-Still none s next h = refl
  with_uuid-Still (some u) s next h = h u

  identified-Still :
      (call : Call) (s : Server) (u : Option ℕ) (next : ℕ → Reply × Server)
      → ((uuid : ℕ) → Still s (next uuid))
      → Still s (guarded call s (with_uuid P parse_uuid u s next))
  identified-Still call s u next h =
      guarded-cases (Still s) call s (with_uuid P parse_uuid u s next) (λ code r. refl)
        (λ a. with_uuid-Still u s next h)

  report_stats-Still :
      (call : Call) (uuid : Text) (size : ℤ) (s : Server)
      → Still s (serve P parse_uuid call (report_stats uuid size) s)
  unfolding serve update_stats stats_row
  report_stats-Still call uuid size s =
      identified-Still call s (parse_uuid uuid)
        (λ u. stats_reply u s (commit (update_stats u size call.env.now) s.store.db))
        (λ u.
          stats_reply-Still u s (commit (update_stats u size call.env.now) s.store.db)
            (states-commit _ (stats_row size call.env.now) _ s.store.db (λ s. refl)))

  report_drain_complete-Still :
      (call : Call) (uuid : Text) (s : Server)
      → Still s (serve P parse_uuid call (report_drain_complete uuid) s)
  unfolding serve mark_drain_ready ready_row
  report_drain_complete-Still call uuid s =
      identified-Still call s (parse_uuid uuid)
        (λ u. drain_reply s (commit (mark_drain_ready u) s.store.db))
        (λ u.
          drain_reply-Still s (commit (mark_drain_ready u) s.store.db)
            (states-commit _ ready_row _ s.store.db (λ s. refl)))

  module _ (G : Postgres) where
    -- The states stay, or the database was truncated.
    abbrev pub Safe : G.Database → Server → Bool × Pair G → Type 0
    Safe d s r = (states r.1.1.store.db ≡ states s.store.db) ⊎ (clean_database G d ≡ some r.1.0)

    act_on-Safe :
        (cfg : AgentConfig) (call : Call) (st : Option State) (d : G.Database) (s : Server)
        → Safe d s (act_on G P parse_uuid cfg call st d s)
    unfolding act_on report_drained report_clean finish
    act_on-Safe cfg call (some draining) d s = elim (Option-cases (drain_shard G cfg d)) [
      | inl e ↦ rw e (inl refl)
      | inr (d', e) ↦ rw e (inl (report_drain_complete-Still call cfg.shard_uuid s))
    ]
    act_on-Safe cfg call (some cleaning) d s = elim (Option-cases (clean_database G d)) [
      | inl e ↦ rw e (inl refl)
      | inr (d', e) ↦ rw (Safe, e) (inr refl)
    ]
    act_on-Safe cfg call (some standby) d s = inl refl
    act_on-Safe cfg call (some active) d s = inl refl
    act_on-Safe cfg call (some sealed) d s = inl refl
    act_on-Safe cfg call (some (other t)) d s = inl refl
    act_on-Safe cfg call none d s = inl refl

    answered-Safe :
        (cfg : AgentConfig) (call : Call) (d : G.Database) (s : Server) (r : Reply × Server)
        → Still s r
        → Safe d s (answered G P parse_uuid cfg call d r)
    unfolding answered
    answered-Safe cfg call d s (reported st, s') h = elim (act_on-Safe cfg call st d s') [
      | inl same ↦ inl (same ∙ h)
      | inr erased ↦ inr erased
    ]
    answered-Safe cfg call d s (failed c, s') h = inl h
    answered-Safe cfg call d s (written r, s') h = inl h
    answered-Safe cfg call d s (found r, s') h = inl h
    answered-Safe cfg call d s (bucket_shards b r, s') h = inl h
    answered-Safe cfg call d s (topology t, s') h = inl h
    answered-Safe cfg call d s (bootstrapped n, s') h = inl h
    answered-Safe cfg call d s (shards r, s') h = inl h
    answered-Safe cfg call d s (registered r, s') h = inl h
    answered-Safe cfg call d s (rotated b, s') h = inl h
    answered-Safe cfg call d s (accepted, s') h = inl h

    report_size-Safe :
        (cfg : AgentConfig) (call : Call) (size : Option ℤ) (d : G.Database) (s : Server)
        → Safe d s (report_size G P parse_uuid cfg call size d s)
    unfolding report_size
    report_size-Safe cfg call none d s = inl refl
    report_size-Safe cfg call (some size) d s =
        answered-Safe cfg call d s (serve P parse_uuid call (report_stats cfg.shard_uuid size) s)
          (report_stats-Still call cfg.shard_uuid size s)

    -- Whatever the configuration of the agent, its database and the server: after a tick every shard
    -- is in the state that it was in, unless the agent's database has just been truncated, with
    -- success. So no tick sends its shard back to the pool with its data.
    pub tick-Safe :
        (cfg : AgentConfig) (env : Env) (clock : ℤ) (d : G.Database) (s : Server)
        → Safe d s (tick G P parse_uuid cfg env clock (d, s))
    unfolding tick
    tick-Safe cfg env clock d s = elim (Bool-cases (not (G.connects d))) [
      | inl t ↦ rw (Safe, t) (inl refl)
      | inr n ↦
          rw (Safe, n)
            (report_size-Safe cfg (rpc_call cfg env clock) (measure_size G cfg.size_source d) d s)
    ]
