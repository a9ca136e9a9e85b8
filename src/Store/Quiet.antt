-- ===== src/Store/Quiet.antt =====
-- Updates that PostgreSQL never refuses: those that make no shard active and keep every role.
use shardman.Prelude.{
  ℕ, ◌≡◌, refl, ap, ◌∙◌, Bool, true, false, none, some, List, if◌then◌else◌, ◌&&◌, arith,
  Bool-cases, ◌⊎◌, inl, inr,
}
use shardman.Fsm.{active, state_eq}
use shardman.Store.Shard.{Shard, is_data, bucket_is, in_bucket}
use shardman.Store.Db.{clashes_active, known_state, constraints_ok, update_where}
use shardman.Store.Table.{Increasing, All-intro}
use shardman.Store.Constraints.{constraints-map}

-- The row keeps its role; and its state and bucket, or it is in a known state that is not active.
pub record Quiet (s t : Shard) : Type 0 where
  pub same_role : t.role ≡ s.role
  pub rest :
      ((t.state ≡ s.state) × (t.bucket_id ≡ s.bucket_id))
      ⊎ ((state_eq t.state active ≡ false) × (known_state t.state ≡ true))

clashes_first : (s t : Shard) → state_eq s.state active ≡ false → clashes_active s t ≡ false
unfolding clashes_active
clashes_first s t h =
    elim s.bucket_id
      as (λ o.
        elim o [
          | none ↦ false
          | some b ↦ is_data s.role && state_eq s.state active && in_bucket b active t
        ]
        ≡ false) [ none ↦ refl | some b ↦ ground arith ]

clashes_second : (s t : Shard) → state_eq t.state active ≡ false → clashes_active s t ≡ false
unfolding clashes_active in_bucket
clashes_second s t h =
    elim s.bucket_id
      as (λ o.
        elim o [
          | none ↦ false
          | some b ↦ is_data s.role && state_eq s.state active && in_bucket b active t
        ]
        ≡ false) [ none ↦ refl | some b ↦ ground arith ]

clashes_same :
    (s t s' t' : Shard)
    → s'.role ≡ s.role
    → s'.state ≡ s.state
    → s'.bucket_id ≡ s.bucket_id
    → t'.role ≡ t.role
    → t'.state ≡ t.state
    → t'.bucket_id ≡ t.bucket_id
    → clashes_active s' t' ≡ clashes_active s t
unfolding clashes_active in_bucket bucket_is
clashes_same s t s' t' r st b r' st' b' = ground arith

Quiet-apart :
    (s t s' t' : Shard)
    → Quiet s s'
    → Quiet t t'
    → clashes_active s t ≡ false
    → clashes_active s' t' ≡ false
Quiet-apart s t s' t' q q' h = elim q.rest [
  | inr (still, known) ↦ clashes_first s' t' still
  | inl (st, b) ↦ elim q'.rest [
    | inr (still, known) ↦ clashes_second s' t' still
    | inl (st', b') ↦ clashes_same s t s' t' q.same_role st b q'.same_role st' b' ∙ h
  ]
]

Quiet-known : (s t : Shard) → Quiet s t → known_state s.state ≡ true → known_state t.state ≡ true
Quiet-known s t q h = elim q.rest [
  | inl (st, b) ↦ ap known_state st ∙ h
  | inr (still, known) ↦ known
]

Quiet-refl : (s : Shard) → Quiet s s
Quiet-refl s = record { same_role = refl; rest = inl (refl, refl) }

Quiet-where :
    (p : Shard → Bool) (f : Shard → Shard)
    → ((s : Shard) → Quiet s (f s))
    → (s : Shard) → Quiet s (if p s then f s else s)
Quiet-where p f q s = elim (Bool-cases (p s)) [ inl t ↦ rw t (q s) | inr n ↦ rw n (Quiet-refl s) ]

pub Quiet-constraints :
    (p : Shard → Bool) (f : Shard → Shard) (lo : ℕ) (xs : List Shard)
    → ((s : Shard) → Quiet s (f s))
    → Increasing lo xs
    → constraints_ok xs ≡ true
    → constraints_ok (update_where p f xs) ≡ true
unfolding update_where
Quiet-constraints p f lo xs q inc h =
    let quiet = Quiet-where p f q in
    constraints-map (λ s. Unit {0}) (λ s. if p s then f s else s) lo xs
      (λ s t _ _ _ apart.
        Quiet-apart s t (if p s then f s else s) (if p t then f t else t) (quiet s) (quiet t) apart)
      (λ s. (quiet s).same_role) (λ s known. Quiet-known s (if p s then f s else s) (quiet s) known)
      inc (All-intro (λ s. Unit {0}) xs (λ s. tt)) h
