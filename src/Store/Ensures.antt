-- ===== src/Store/Ensures.antt =====
-- What a transaction establishes if it commits, and a rule for each statement.
use shardman.Prelude.{
  ℕ, ◌≡◌, ◌==◌, Bool, true, Option, none, some, find, count, Bool-cases, Option-cases, inl, inr,
}
use shardman.Prelude.Results.{Result, ok, err, Error}
use shardman.Store.Shard.{Shard}
use shardman.Store.Db.{
  Db, Tx, ◌>>=◌, ◌>>◌, return, commit, update, update_where, select_row, select_row?,
  constraints_ok,
}
use shardman.Fsm.{State, can_transition}
use shardman.Store.Register.{require_rows}
use shardman.Store.Rotate.{validate_transition}

pub data Ensures {A : Type 0} (Q : A → Db → Type 0) : Result (A × Db) → Type 0 where
  done : {a : A} {d : Db} → Q a d → Ensures Q (ok (a, d))
  failed : {e : Error} → Ensures Q (err e)

-- A committed transaction leaves what it ensures, and a failed one the database as it was.
commit_result :
    {A : Type 0} (P : Db → Type 0) (r : Result (A × Db)) (d : Db)
    → Ensures (λ a d'. P d') r
    → P d
    → P
        ((λ (x : Result (A × Db)). elim x as (λ _. Result A × Db) [
          | ok (a, d') ↦ (ok a, d')
          | err e ↦ (err e, d)
        ])
          r).1
commit_result P (ok (a, d')) d (done q) p = q
commit_result P (err e) d failed p = p

pub commit-Ensures :
    {A : Type 0} (P : Db → Type 0) (m : Tx A) (d : Db)
    → Ensures (λ a d'. P d') (m d)
    → P d
    → P (commit m d).1
commit-Ensures P m d h p = commit_result P (m d) d h p

return_result :
    {A B : Type 0} (P : Db → Type 0) (r : Result (A × Db)) (b : B)
    → Ensures (λ a d'. P d') r
    → Ensures
        (λ b' d'. P d')
        ((λ (x : Result (A × Db)). elim x as (λ _. Result (B × Db)) [
          | ok (a, d') ↦ ok (b, d')
          | err e ↦ err e
        ])
          r)
return_result P (ok (a, d')) b (done q) = done q
return_result P (err e) b failed = failed

-- A result returned at the end changes nothing.
pub then_return :
    {A B : Type 0} (P : Db → Type 0) (m : Tx A) (b : B) (d : Db)
    → Ensures (λ a d'. P d') (m d)
    → Ensures (λ b' d'. P d') (◌>>◌ m (return b) d)
then_return P m b d h = return_result P (m d) b h

bind_result :
    {A B : Type 0} (P : A → Db → Type 0) (Q : B → Db → Type 0) (r : Result (A × Db)) (k : A → Tx B)
    → Ensures P r
    → ((a : A) (d : Db) → P a d → Ensures Q (k a d))
    → Ensures Q (
        (λ (x : Result (A × Db)). elim x as (λ _. Result (B × Db)) [
          | ok (a, d') ↦ k a d'
          | err e ↦ err e
        ])
          r)
bind_result P Q (ok (a, d)) k (done p) h = h a d p
bind_result P Q (err e) k failed h = failed

-- Two parts of a transaction, with what holds between them.
pub bind :
    {A B : Type 0} (P : A → Db → Type 0) (Q : B → Db → Type 0) (m : Tx A) (k : A → Tx B) (d : Db)
    → Ensures P (m d)
    → ((a : A) (d : Db) → P a d → Ensures Q (k a d))
    → Ensures Q (◌>>=◌ m k d)
bind P Q m k d h rest = bind_result P Q (m d) k h rest

-- The check of the affected rows, where it stands last.
pub last_require :
    (P : Db → Type 0) (n : ℕ) (e : Error) (d : Db)
    → P d
    → Ensures (λ u d'. P d') (require_rows n e d)
unfolding require_rows
last_require P n e d h = elim (Bool-cases (n == 0)) [
  | inl t ↦ rw (t, require_rows) failed
  | inr f ↦ rw (f, require_rows) (done h)
]

module _ {A : Type 0} (Q : A → Db → Type 0) where
  pub bind_select :
      (p : Shard → Bool) (k : Shard → Tx A) (d : Db)
      → ((s : Shard) → find p d.shards ≡ some s → Ensures Q (k s d))
      → Ensures Q (◌>>=◌ (select_row p) k d)
  unfolding select_row
  bind_select p k d h = elim (Option-cases (find p d.shards)) [
    | inl e ↦ rw (e, ◌>>=◌, select_row) failed
    | inr (s, e) ↦ rw (e, ◌>>=◌, select_row) (h s e)
  ]

  pub bind_select? :
      (p : Shard → Bool) (k : Option Shard → Tx A) (d : Db)
      → (find p d.shards ≡ none → Ensures Q (k none d))
      → ((s : Shard) → find p d.shards ≡ some s → Ensures Q (k (some s) d))
      → Ensures Q (◌>>=◌ (select_row? p) k d)
  unfolding select_row?
  bind_select? p k d missing hit = elim (Option-cases (find p d.shards)) [
    | inl e ↦ rw (e, ◌>>=◌, select_row?) (missing e)
    | inr (s, e) ↦ rw (e, ◌>>=◌, select_row?) (hit s e)
  ]

  pub bind_update :
      (p : Shard → Bool) (f : Shard → Shard) (k : ℕ → Tx A) (d : Db)
      → (constraints_ok (update_where p f d.shards) ≡ true
          → Ensures Q (k (count p d.shards) (record d { shards = update_where p f d.shards })))
      → Ensures Q (◌>>=◌ (update p f) k d)
  unfolding update
  bind_update p f k d h = elim (Bool-cases (constraints_ok (update_where p f d.shards))) [
    | inl t ↦ rw (t, ◌>>=◌, update) (h t)
    | inr f ↦ rw (f, ◌>>=◌, update) failed
  ]

  -- `if ct.RowsAffected() == 0 { return e }` after an update.
  pub bind_update_require :
      (p : Shard → Bool) (f : Shard → Shard) (e : Error) (k : Tx A) (d : Db)
      → (constraints_ok (update_where p f d.shards) ≡ true
          → Ensures Q (k (record d { shards = update_where p f d.shards })))
      → Ensures Q (◌>>=◌ (update p f) (λ n. require_rows n e >> k) d)
  unfolding require_rows
  bind_update_require p f e k d h =
      bind_update p f (λ n. require_rows n e >> k) d
        λ t. elim (Bool-cases (count p d.shards == 0)) [
          | inl none_hit ↦ rw (none_hit, ◌>>=◌, require_rows) failed
          | inr hit ↦ rw (hit, ◌>>=◌, require_rows) (h t)
        ]

  -- ValidateTransition.
  pub bind_validate :
      (s : Shard) (to : State) (k : Tx A) (d : Db)
      → (can_transition s.role s.state to ≡ true → Ensures Q (k d))
      → Ensures Q (◌>>◌ (validate_transition s to) k d)
  unfolding validate_transition
  bind_validate s to k d h = elim (Bool-cases (can_transition s.role s.state to)) [
    | inl t ↦ rw (t, ◌>>=◌, validate_transition) (h t)
    | inr f ↦ rw (f, ◌>>=◌, validate_transition) failed
  ]
