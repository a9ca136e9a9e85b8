-- ===== src/Store/Readback.antt =====
-- Transactions that fail, and the row that RegisterShard reads after its commit.
use shardman.Prelude.{
  ℕ, ◌==◌, Bool, true, false, not, some, List, [], ◌∷◌, ◌++◌, find, ◌≡◌, refl, ap, ◌∙◌, ◌⊎◌, inl,
  inr, Bool-cases, Option-cases, subst, ◌&&◌, count, ltb, arith,
}
use shardman.Prelude.Text.{Text}
use shardman.Prelude.Results.{Result, ok, err, Error}
use shardman.Fsm.{Role, State, data_role, error_role, startup_state_allowed}
use shardman.Store.Shard.{Shard, is_data}
use shardman.Store.Db.{
  Db, Tx, commit, update, update_where, ◌>>=◌, return, constraints_ok, bump_topology_version,
}
use shardman.Store.Queries.{get_shard_by_id}
use shardman.Store.Register.{
  register_shard, insert_row, refresh_row, refreshed, upsert, check_error_shard, register_tx,
  read_back, startup_state_for,
}
use shardman.Store.Outcome.{commit-ok, commit-err}

abbrev pub is_error : {A : Type 0} → Result A → Bool
is_error (ok a) = false
is_error (err e) = true

-- A result with the database, which is the old one on an error.
abbrev pub RollsBack : {A : Type 0} → Db → Result A × Db → Type 0
RollsBack d r = is_error r.0 ≡ true → r.1 ≡ d

Result-cases :
    {A : Type 0} (r : Result (A × Db)) → ((x : A × Db) × (r ≡ ok x)) ⊎ ((e : Error) × (r ≡ err e))
Result-cases (ok x) = inl (x, refl)
Result-cases (err e) = inr (e, refl)

pub commit-RollsBack : {A : Type 0} (m : Tx A) (d : Db) → RollsBack d (commit m d)
commit-RollsBack m d h = elim (Result-cases (m d)) [
  | inl (x, e) ↦ let done = commit-ok m d e in cc
  | inr (x, e) ↦ ap (λ r. r.1) (commit-err m d e)
]

-- RegisterShard reads back the row that it wrote.
abbrev IsPresent : ℕ → Db → Type 0
IsPresent id d = (s : Shard) × (find (λ s. s.id == id) d.shards ≡ some s)

abbrev Finds : Result (ℕ × Db) → Type 0
Finds (err e) = Unit {0}
Finds (ok (id, d)) = IsPresent id d

find_last :
    (id : ℕ) (s : Shard) (xs : List Shard)
    → s.id ≡ id
    → (t : Shard) × (find (λ t. t.id == id) (xs ++ (s ∷ [])) ≡ some t)
unfolding find
find_last id s [] h = (s, ground arith)
find_last id s (x ∷ xs) h = elim (Bool-cases (x.id == id)) [
  | inl t ↦ (x, rw t refl)
  | inr f ↦ rw f (find_last id s xs h)
]

insert_row-Finds : (s : Shard) (d : Db) → Finds (insert_row s d)
unfolding insert_row
insert_row-Finds s d = elim (Bool-cases (constraints_ok (d.shards ++ (s ∷ [])))) [
  | inl t ↦ rw t (find_last s.id s d.shards refl)
  | inr f ↦ rw f tt
]

-- The row that is found by its uuid has its id after the update too.
find_updated :
    (p : Shard → Bool) (f : Shard → Shard) (old : Shard) (xs : List Shard)
    → ((s : Shard) → (f s).id ≡ s.id)
    → find p xs ≡ some old
    → (t : Shard) × (find (λ t. t.id == old.id) (update_where p f xs) ≡ some t)
unfolding find update_where
find_updated p f old [] h e = cc
find_updated p f old (x ∷ xs) h e = elim (Bool-cases (p x)) [
  | inl t ↦
      let same : x ≡ old = ground arith in
      let id : (f x).id ≡ old.id = h x ∙ ap (λ (s : Shard). s.id) same in
      (f x, rw t (ground (arith, id)))
  | inr n ↦
      let later = find_updated p f old xs h (rw n at e) in
      elim (Bool-cases (x.id == old.id)) [
        | inl t ↦ (x, rw n (rw t refl))
        | inr m ↦ (later.0, rw n (rw m later.1))
      ]
]

refresh_row-Finds :
    (uuid : ℕ) (dsn url : Text) (now : ℕ) (old : Shard) (d : Db)
    → find (λ s. s.shard_uuid == uuid) d.shards ≡ some old
    → Finds (refresh_row uuid dsn url now old d)
unfolding refresh_row update refreshed
refresh_row-Finds uuid dsn url now old d e =
    let rows = update_where (λ s. s.shard_uuid == uuid) (refreshed dsn url now) d.shards in
    elim (Bool-cases (constraints_ok rows)) [
      | inl t ↦
          rw (Finds, t)
            (find_updated (λ s. s.shard_uuid == uuid) (refreshed dsn url now) old d.shards
              (λ s. refl) e)
      | inr f ↦ rw (Finds, f) tt
    ]

upsert-Finds :
    (uuid : ℕ) (role : Role) (st : State) (dsn url : Text) (now : ℕ) (d : Db)
    → Finds (upsert uuid role st dsn url now d)
unfolding upsert
upsert-Finds uuid role st dsn url now d =
    elim (Option-cases (find (λ s. s.shard_uuid == uuid) d.shards)) [
      | inl e ↦ rw (Finds, e) (insert_row-Finds _ d)
      | inr (old, e) ↦ rw (Finds, e) (refresh_row-Finds uuid dsn url now old d e)
    ]

bumped-Finds :
    (m : Tx ℕ) (d : Db)
    → Finds (m d)
    → Finds ((m >>= λ id. bump_topology_version >>= λ _. return id) d)
unfolding bump_topology_version
bumped-Finds m d h = elim (Result-cases (m d)) [
  | inl ((id, d'), e) ↦ rw (◌>>=◌, e) (subst Finds e h)
  | inr (x, e) ↦ rw (◌>>=◌, e) tt
]

register_tx-Finds :
    (uuid : ℕ) (role : Role) (st : State) (dsn url : Text) (now : ℕ) (d : Db)
    → Finds (register_tx uuid role st dsn url now d)
unfolding register_tx check_error_shard
register_tx-Finds uuid data_role st dsn url now d =
    bumped-Finds (upsert uuid data_role st dsn url now) d
      (upsert-Finds uuid data_role st dsn url now d)
register_tx-Finds uuid error_role st dsn url now d =
    elim (Bool-cases (ltb 0 (count (λ s. not (is_data s.role)) d.shards))) [
      | inl t ↦ rw (Finds, t) tt
      | inr f ↦
          rw (Finds, f)
            (bumped-Finds (upsert uuid error_role st dsn url now) d
              (upsert-Finds uuid error_role st dsn url now d))
    ]

read_back-RollsBack : (m : Tx ℕ) (d : Db) → Finds (m d) → RollsBack d (read_back (commit m d))
unfolding read_back get_shard_by_id
read_back-RollsBack m d h f = elim (Result-cases (m d)) [
  | inl ((id, d'), e) ↦
      let found = subst Finds e h in
      let done : (read_back (commit m d)).0 ≡ ok found.0 =
        rw (commit-ok m d e) (rw (found.1) refl) in
      absurd (cc (subst (λ r. is_error r ≡ true) done f))
  | inr (x, e) ↦ rw (commit-err m d e) refl
]

pub register_shard-RollsBack :
    (uuid : ℕ) (role : Role) (dsn url : Text) (st : State) (now : ℕ) (d : Db)
    → RollsBack d (register_shard uuid role dsn url st now d)
unfolding register_shard
register_shard-RollsBack uuid role dsn url st now d h =
    let st' = startup_state_for role st in
    elim (Bool-cases (not (startup_state_allowed st') && is_data role)) [
      | inl t ↦ rw t refl
      | inr f ↦ rw f (
          read_back-RollsBack (register_tx uuid role st' dsn url now) d
            (register_tx-Finds uuid role st' dsn url now d) (rw f at h))
    ]
