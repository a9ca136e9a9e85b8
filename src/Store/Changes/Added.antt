-- ===== src/Store/Changes/Added.antt =====
-- RegisterShard adds a row, or gives a known one its new address.
use shardman.Prelude.{
  ℕ, ◌+◌, ◌<◌, ◌≡◌, ◌==◌, refl, false, not, ltb, ◌&&◌, [], ◌∷◌, ◌++◌, if◌then◌else◌, ◌⊎◌, inl, inr,
  arith, find, count, Bool-cases, Option-cases,
}
use shardman.Prelude.Text.{Text, text_eq}
use shardman.Prelude.Results.{Result, ok, err}
use shardman.Fsm.{
  State, Role, data_role, error_role, standby, active, state_eq, other, startup_state_allowed,
}
use shardman.Store.Shard.{Shard, is_data}
use shardman.Store.Db.{Db, commit, constraints_ok, update_where, bump_config, bump_topology_version}
use shardman.Store.Table.{All-intro, All-imp, All-append, Increasing-append, Evolves-append}
use shardman.Store.Register.{
  startup_state_for, new_shard, refreshed, insert_row, refresh_row, upsert, check_error_shard,
  register_tx, register_shard, read_back,
}
use shardman.Store.Moves.{IdsOk, Change, Change-refl, RowStep, NewRow, readdresses, RowStep-refl}
use shardman.Store.Ensures.{Ensures, done, failed, bind, bind_update, commit-Ensures}
use shardman.Store.Changes.Rows.{Change-map, Change-next_id}

-- A role and a state that a new row may start with.
abbrev Starts : Role → State → Type 0
Starts role st = ((role ≡ data_role) × (st ≡ standby)) ⊎ ((role ≡ error_role) × (st ≡ active))

-- After the bump, for both branches of the upsert.
abbrev Bumped : Db → ℕ → Db → Type 0
Bumped d id d' = Change false d (record d' { config = bump_config d'.config })

inserted-Change :
    (s : Shard) (d : Db)
    → IdsOk d
    → s.id ≡ d.next_id
    → NewRow s
    → Ensures (Bumped d) (insert_row s d)
unfolding insert_row
inserted-Change s d v e new = elim (Bool-cases (constraints_ok (d.shards ++ (s ∷ [])))) [
  | inl t ↦ rw t (
      done (record {
        rows = Evolves-append (RowStep false) NewRow d.shards s (RowStep-refl false) new;
        version = inr refl;
        ids = record {
          rising = Increasing-append 0 d.next_id d.shards s v.rising v.below (omega arith) e;
          below =
              All-append (λ s. s.id < d.next_id + 1) d.shards _
                (All-imp (λ s. s.id < d.next_id) _ d.shards (λ s k. omega arith) v.below)
                (omega arith, tt);
        };
      }))
  | inr f ↦ rw f failed
]

refreshed-RowStep :
    (uuid : ℕ) (dsn url : Text) (now : ℕ) (s : Shard)
    → RowStep false s (if s.shard_uuid == uuid then refreshed dsn url now s else s)
unfolding refreshed
refreshed-RowStep uuid dsn url now s = elim (Bool-cases (s.shard_uuid == uuid)) [
  | inl t ↦ rw t (readdresses (ground arith))
  | inr f ↦ rw f (RowStep-refl false s)
]

refreshed-Change :
    (uuid : ℕ) (dsn url : Text) (now : ℕ) (old : Shard) (d : Db)
    → IdsOk d
    → Ensures (Bumped d) (refresh_row uuid dsn url now old d)
unfolding refresh_row update_where
refreshed-Change uuid dsn url now old d v =
    bind_update (Bumped d) (λ s. s.shard_uuid == uuid) (refreshed dsn url now) _ d
      λ _. done (
        Change-next_id false d _ (d.next_id + 1)
          (Change-map false d v (λ s. if s.shard_uuid == uuid then refreshed dsn url now s else s)
            (unfold refreshed in λ s. ground arith) d.events
            (All-intro _ d.shards (refreshed-RowStep uuid dsn url now)))
          (omega arith))

upsert-Change :
    (uuid : ℕ) (role : Role) (st : State) (dsn url : Text) (now : ℕ) (d : Db)
    → IdsOk d
    → Starts role st
    → Ensures (Bumped d) (upsert uuid role st dsn url now d)
unfolding upsert
upsert-Change uuid role st dsn url now d v starts =
    elim (Option-cases (find (λ s. s.shard_uuid == uuid) d.shards)) [
      | inl e ↦
          rw (e, upsert)
            (unfold new_shard in
              inserted-Change (new_shard d.next_id uuid role st dsn url now) d v refl
                (record { unassigned = refl; starts = starts }))
      | inr (old, e) ↦ rw (e, upsert) (refreshed-Change uuid dsn url now old d v)
    ]

-- The check of the role reads only.
checked : (role : Role) (d : Db) → Ensures (λ u d'. d' ≡ d) (check_error_shard role d)
unfolding check_error_shard
checked data_role d = done refl
checked error_role d = elim (Bool-cases (ltb 0 (count (λ s. not (is_data s.role)) d.shards))) [
  | inl t ↦ rw t failed
  | inr f ↦ rw f (done refl)
]

register_tx-Change :
    (uuid : ℕ) (role : Role) (st : State) (dsn url : Text) (now : ℕ) (d : Db)
    → IdsOk d
    → Starts role st
    → Ensures (λ id d'. Change false d d') (register_tx uuid role st dsn url now d)
unfolding register_tx bump_topology_version
register_tx-Change uuid role st dsn url now d v starts =
    bind (λ u d'. d' ≡ d) (λ id d'. Change false d d') (check_error_shard role) _ d (checked role d)
      λ u d₁ same.
        bind (Bumped d) (λ id d'. Change false d d') (upsert uuid role st dsn url now) _ d₁
          (rw same (upsert-Change uuid role st dsn url now d v starts))
          (λ id d₂ change. done change)

-- Only the two ways to start pass the guard of RegisterShard.
startup_state_for-Starts :
    (role : Role) (st : State)
    → (not (startup_state_allowed (startup_state_for role st)) && is_data role) ≡ false
    → Starts role (startup_state_for role st)
unfolding startup_state_for startup_state_allowed state_eq text_eq
startup_state_for-Starts data_role standby h = inl (refl, refl)
startup_state_for-Starts data_role (other []) h = inl (refl, refl)
startup_state_for-Starts data_role (other (c ∷ s)) h = absurd (ground arith)
startup_state_for-Starts data_role _ h = absurd (ground arith)
startup_state_for-Starts error_role st h = inr (refl, refl)

pub read_back_same : (r : Result ℕ × Db) → (read_back r).1 ≡ r.1
unfolding read_back
read_back_same (ok id, d) = refl
read_back_same (err e, d) = refl

pub register_shard-Change :
    (uuid : ℕ) (role : Role) (dsn url : Text) (st : State) (now : ℕ) (d : Db)
    → IdsOk d
    → Change false d (register_shard uuid role dsn url st now d).1
unfolding register_shard
register_shard-Change uuid role dsn url st now d v =
    elim (Bool-cases (not (startup_state_allowed (startup_state_for role st)) && is_data role)) [
      | inl t ↦ rw t (Change-refl false d v)
      | inr f ↦
          rw
            (
              f,
              read_back_same
                  (commit (register_tx uuid role (startup_state_for role st) dsn url now) d),
            )
            (commit-Ensures (Change false d)
              (register_tx uuid role (startup_state_for role st) dsn url now) d
              (register_tx-Change uuid role (startup_state_for role st) dsn url now d v
                (startup_state_for-Starts role st f))
              (Change-refl false d v))
    ]
