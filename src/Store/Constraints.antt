-- ===== src/Store/Constraints.antt =====
-- When an update stays within the constraints of the migrations.
use shardman.Prelude.{
  ℕ, suc, ◌≤◌, ◌<◌, ◌≡◌, ◌==◌, refl, ap, Bool, true, false, not, Option, none, some, List, [], ◌∷◌,
  map, if◌then◌else◌, any, all, find, All, arith, Bool-cases, ◌⊎◌, inl, inr,
}
use shardman.Prelude.Text.{Text, text_eq_iff}
use shardman.Fsm.{active, sealed, state_eq}
use shardman.Store.Shard.{Shard, is_data, bucket_is, in_bucket}
use shardman.Store.Db.{
  clashes_active, one_active_per_bucket, one_error, known_state, constraints_ok,
}
use shardman.Store.Register.{promoted}
use shardman.Store.Table.{Increasing, Increasing-All, All-intro, All-imp}

any-All : (p : Shard → Bool) (xs : List Shard) → any p xs ≡ false → All (λ s. p s ≡ false) xs
unfolding any
any-All p [] h = tt
any-All p (x ∷ xs) h = (ground arith, any-All p xs (ground arith))

All-any : (p : Shard → Bool) (xs : List Shard) → All (λ s. p s ≡ false) xs → any p xs ≡ false
unfolding any
All-any p [] h = refl
All-any p (x ∷ xs) h = rw (h.0) (All-any p xs h.1)

-- A rewrite of the rows that lets no two of them clash which did not before.
one_active-map :
    (Q : Shard → Type 0) (g : Shard → Shard) (lo : ℕ) (xs : List Shard)
    → ((s t : Shard)
        → Q s
        → Q t
        → s.id < t.id
        → clashes_active s t ≡ false
        → clashes_active (g s) (g t) ≡ false)
    → Increasing lo xs
    → All Q xs
    → one_active_per_bucket xs ≡ true
    → one_active_per_bucket (map g xs) ≡ true
unfolding one_active_per_bucket
one_active-map Q g lo [] keep inc q h = refl
one_active-map Q g lo (x ∷ xs) keep inc q h =
    let apart = any-All (clashes_active x) xs (ground arith) in
    let later = Increasing-All (suc x.id) xs inc.1 in
    let none_clash = All-any (clashes_active (g x)) (map g xs) (mapped x q.0 xs q.1 later apart) in
    rw (none_clash) (one_active-map Q g (suc x.id) xs keep inc.1 q.1 (ground arith))
  where
    mapped :
        (x : Shard)
        → Q x
        → (ys : List Shard) → All Q ys
        → All (λ t. suc x.id ≤ t.id) ys
        → All (λ t. clashes_active x t ≡ false) ys
        → All (λ t. clashes_active (g x) t ≡ false) (map g ys)
    mapped x qx [] qs ids apart = tt
    mapped x qx (y ∷ ys) qs ids apart =
        (keep x y qx qs.0 ids.0 apart.0, mapped x qx ys qs.1 ids.1 apart.1)

any-map :
    (p : Shard → Bool) (g : Shard → Shard) (xs : List Shard)
    → ((s : Shard) → p (g s) ≡ p s)
    → any p (map g xs) ≡ any p xs
unfolding any
any-map p g [] same = refl
any-map p g (x ∷ xs) same = rw (same x, any-map p g xs same) refl

one_error-map :
    (g : Shard → Shard) (xs : List Shard)
    → ((s : Shard) → (g s).role ≡ s.role)
    → one_error (map g xs) ≡ one_error xs
unfolding one_error
one_error-map g [] same = refl
one_error-map g (x ∷ xs) same =
    rw
      (
        same x,
        one_error-map g xs same,
        any-map (λ t. not (is_data t.role)) g xs (λ s. ap (λ r. not (is_data r)) (same s)),
      )
      refl

known-map :
    (g : Shard → Shard) (xs : List Shard)
    → ((s : Shard) → known_state s.state ≡ true → known_state (g s).state ≡ true)
    → all (λ s. known_state s.state) xs ≡ true
    → all (λ s. known_state s.state) (map g xs) ≡ true
unfolding all
known-map g [] keep h = refl
known-map g (x ∷ xs) keep h = rw (keep x (ground arith)) (known-map g xs keep (ground arith))

pub constraints-map :
    (Q : Shard → Type 0) (g : Shard → Shard) (lo : ℕ) (xs : List Shard)
    → ((s t : Shard)
        → Q s
        → Q t
        → s.id < t.id
        → clashes_active s t ≡ false
        → clashes_active (g s) (g t) ≡ false)
    → ((s : Shard) → (g s).role ≡ s.role)
    → ((s : Shard) → known_state s.state ≡ true → known_state (g s).state ≡ true)
    → Increasing lo xs
    → All Q xs
    → constraints_ok xs ≡ true
    → constraints_ok (map g xs) ≡ true
unfolding constraints_ok
constraints-map Q g lo xs keep roles states inc q h =
    rw
      (
        one_active-map Q g lo xs keep inc q (ground arith),
        one_error-map g xs roles,
        known-map g xs states (ground arith),
      )
      (ground arith)

-- No row is active in the bucket.
abbrev pub NotActiveIn : Text → Shard → Type 0
NotActiveIn b s = in_bucket b active s ≡ false

-- A row clashes with the promoted one only if it was active in the bucket.
clash_promoted :
    (b : Text) (now : ℕ) (s t : Shard) (bucket : Option Text)
    → s.bucket_id ≡ bucket
    → NotActiveIn b s
    → clashes_active s (promoted b now t) ≡ false
unfolding clashes_active promoted in_bucket bucket_is state_eq
clash_promoted b now s t none e ns = ground arith
clash_promoted b now s t (some c) e ns = ground (arith, text_eq_iff b c, text_eq_iff c b)

promoted_clash :
    (b : Text) (now : ℕ) (s t : Shard)
    → NotActiveIn b t
    → clashes_active (promoted b now s) t ≡ false
unfolding clashes_active promoted state_eq
promoted_clash b now s t nt = ground arith

promoted_apart :
    (b : Text) (now k : ℕ) (s t : Shard)
    → NotActiveIn b s
    → NotActiveIn b t
    → s.id < t.id
    → clashes_active s t ≡ false
    → clashes_active
        (if s.id == k then promoted b now s else s)
        (if t.id == k then promoted b now t else t)
      ≡ false
promoted_apart b now k s t ns nt lt apart = elim (Bool-cases (s.id == k)) [
  | inl hs ↦ elim (Bool-cases (t.id == k)) [
    | inl ht ↦ absurd (ground arith)
    | inr ht ↦ rw (hs, ht) (promoted_clash b now s t nt)
  ]
  | inr hs ↦ elim (Bool-cases (t.id == k)) [
    | inl ht ↦ rw (hs, ht) (clash_promoted b now s t s.bucket_id refl ns)
    | inr ht ↦ rw (hs, ht) apart
  ]
]

-- A bucket without an active shard may get one.
pub promote-constraints :
    (b : Text) (now k lo : ℕ) (xs : List Shard)
    → Increasing lo xs
    → All (NotActiveIn b) xs
    → constraints_ok xs ≡ true
    → constraints_ok (map (λ s. if s.id == k then promoted b now s else s) xs) ≡ true
unfolding promoted known_state
promote-constraints b now k lo xs inc free h =
    constraints-map (NotActiveIn b) (λ s. if s.id == k then promoted b now s else s) lo xs
      (promoted_apart b now k) (λ s. ground arith) (λ s h. ground arith) inc free h

clash_sealed :
    (s t : Shard) (bucket : Option Text)
    → s.bucket_id ≡ bucket
    → t.state ≡ sealed
    → clashes_active s t ≡ false
unfolding clashes_active in_bucket state_eq
clash_sealed s t none e h = ground arith
clash_sealed s t (some b) e h = ground arith

sealed_clash : (s t : Shard) → s.state ≡ sealed → clashes_active s t ≡ false
unfolding clashes_active state_eq
sealed_clash s t h = ground arith

sealed_apart :
    (seal : Shard → Shard) (p : Shard → Bool) (s t : Shard)
    → ((s : Shard) → (seal s).role ≡ s.role)
    → ((s : Shard) → (seal s).state ≡ sealed)
    → clashes_active s t ≡ false
    → clashes_active (if p s then seal s else s) (if p t then seal t else t) ≡ false
sealed_apart seal p s t roles states apart = elim (Bool-cases (p s)) [
  | inl hs ↦ rw hs (sealed_clash (seal s) (if p t then seal t else t) (states s))
  | inr hs ↦ elim (Bool-cases (p t)) [
    | inl ht ↦ rw (hs, ht) (clash_sealed s (seal t) s.bucket_id refl (states t))
    | inr ht ↦ rw (hs, ht) apart
  ]
]

-- A row may be sealed.
pub seal-constraints :
    (seal : Shard → Shard) (p : Shard → Bool) (lo : ℕ) (xs : List Shard)
    → ((s : Shard) → (seal s).role ≡ s.role)
    → ((s : Shard) → (seal s).state ≡ sealed)
    → Increasing lo xs
    → constraints_ok xs ≡ true
    → constraints_ok (map (λ s. if p s then seal s else s) xs) ≡ true
unfolding known_state
seal-constraints seal p lo xs roles states inc h =
    constraints-map (λ s. Unit {0}) (λ s. if p s then seal s else s) lo xs
      (λ s t _ _ _ apart. sealed_apart seal p s t roles states apart) (λ s. ground (arith, roles s))
      (λ s h. ground (arith, states s)) inc (All-intro (λ s. Unit {0}) xs (λ s. tt)) h

-- Two rows that do not clash are not both active in one bucket.
active_clash :
    (b : Text) (s t : Shard) (bucket : Option Text)
    → s.bucket_id ≡ bucket
    → in_bucket b active s ≡ true
    → clashes_active s t ≡ false
    → NotActiveIn b t
unfolding clashes_active in_bucket bucket_is
active_clash b s t none e h apart = absurd (ground arith)
active_clash b s t (some c) e h apart = ground (arith, text_eq_iff c b)

-- The row that is found active in a bucket is the only one.
pub find-only_active :
    (b : Text) (xs : List Shard) {a : Shard}
    → find (in_bucket b active) xs ≡ some a
    → one_active_per_bucket xs ≡ true
    → All (λ s. (s.id ≡ a.id) ⊎ NotActiveIn b s) xs
unfolding find one_active_per_bucket
find-only_active b [] e h = tt
find-only_active b (x ∷ xs) {a} e h = elim (Bool-cases (in_bucket b active x)) [
  | inl t ↦
      let same : x ≡ a = ground arith in
      (
        inl (ap (λ (r : Shard). r.id) same),
        All-imp (λ s. clashes_active x s ≡ false) (λ s. (s.id ≡ a.id) ⊎ NotActiveIn b s) xs
            (λ s apart. inr (active_clash b x s x.bucket_id refl t apart))
            (any-All (clashes_active x) xs (ground arith)),
      )
  | inr f ↦ (inr f, find-only_active b xs (rw f at e) (ground arith))
]
