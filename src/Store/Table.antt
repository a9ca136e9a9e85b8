-- ===== src/Store/Table.antt =====
-- Lemmas on the table of shards: rows are found by a test, rewritten in place, and told apart by
-- their ids.
use shardman.Prelude.{
  ℕ, suc, ◌≤◌, ◌<◌, ◌≡◌, Bool, true, false, none, some, List, [], ◌∷◌, ◌++◌, map, find, count, All,
  arith, Bool-cases, inl, inr, ap, subst,
}
use shardman.Store.Shard.{Shard}

module _ {ℓ κ} {A : Type ℓ} (P : A → Type κ) where
  pub All-intro : (xs : List A) → ((a : A) → P a) → All P xs
  All-intro [] h = tt
  All-intro (x ∷ xs) h = (h x, All-intro xs h)

  -- A property of the image of each element is one of the elements of the image.
  pub All-map : (g : A → A) (xs : List A) → All P (map g xs) → All (λ a. P (g a)) xs
  All-map g [] all = tt
  All-map g (x ∷ xs) all = (all.0, All-map g xs all.1)

  pub map-All : (g : A → A) (xs : List A) → All (λ a. P (g a)) xs → All P (map g xs)
  map-All g [] all = tt
  map-All g (x ∷ xs) all = (all.0, map-All g xs all.1)

  pub All-append : (xs ys : List A) → All P xs → All P ys → All P (xs ++ ys)
  All-append [] ys p q = q
  All-append (x ∷ xs) ys p q = (p.0, All-append xs ys p.1 q)

  pub find-All : (p : A → Bool) (xs : List A) {a : A} → All P xs → find p xs ≡ some a → P a
  unfolding find
  find-All p [] all e = cc
  find-All p (x ∷ xs) {a} all e = elim (Bool-cases (p x)) [
    | inl t ↦ let same : x ≡ a = ground arith in subst P same all.0
    | inr f ↦ find-All p xs all.1 (rw f at e)
  ]

module _ {ℓ κ κ'} {A : Type ℓ} (P : A → Type κ) (Q : A → Type κ') where
  pub All-imp : (xs : List A) → ((a : A) → P a → Q a) → All P xs → All Q xs
  All-imp [] h all = tt
  All-imp (x ∷ xs) h all = (h x all.0, All-imp xs h all.1)

  pub All-zip : (xs : List A) → All P xs → All Q xs → All (λ a. P a × Q a) xs
  All-zip [] p q = tt
  All-zip (x ∷ xs) p q = ((p.0, q.0), All-zip xs p.1 q.1)

module _ {ℓ} {A : Type ℓ} where
  pub find-true : (p : A → Bool) (xs : List A) {a : A} → find p xs ≡ some a → p a ≡ true
  unfolding find
  find-true p [] e = cc
  find-true p (x ∷ xs) {a} e = elim (Bool-cases (p x)) [
    | inl t ↦ let same : x ≡ a = ground arith in subst (λ y. p y ≡ true) same t
    | inr f ↦ find-true p xs (rw f at e)
  ]

  -- A scan that finds nothing has tested every element.
  pub find-none : (p : A → Bool) (xs : List A) → find p xs ≡ none → All (λ a. p a ≡ false) xs
  unfolding find
  find-none p [] e = tt
  find-none p (x ∷ xs) e = elim (Bool-cases (p x)) [
    | inl t ↦ absurd (ground arith)
    | inr f ↦ (f, find-none p xs (rw f at e))
  ]

  pub count-zero : (p : A → Bool) (xs : List A) → count p xs ≡ 0 → All (λ a. p a ≡ false) xs
  unfolding count
  count-zero p [] e = tt
  count-zero p (x ∷ xs) e = elim (Bool-cases (p x)) [
    | inl t ↦ absurd (ground arith)
    | inr f ↦ (f, count-zero p xs (rw f at e))
  ]

-- The ids rise along the table, and the first of them is no less than a bound.
abbrev pub Increasing : ℕ → List Shard → Type 0
Increasing lo [] = Unit {0}
Increasing lo (s ∷ rest) = (lo ≤ s.id) × Increasing (suc s.id) rest

pub Increasing-All : (lo : ℕ) (xs : List Shard) → Increasing lo xs → All (λ s. lo ≤ s.id) xs
Increasing-All lo [] h = tt
Increasing-All lo (s ∷ rest) h = (
  h.0,
  All-imp (λ t. suc s.id ≤ t.id) (λ t. lo ≤ t.id) rest (λ t k. omega arith)
      (Increasing-All (suc s.id) rest h.1),
)

-- The row that a scan finds is the only one with its id.
pub find_unique :
    (p : Shard → Bool) (lo : ℕ) (xs : List Shard) {a : Shard}
    → Increasing lo xs
    → find p xs ≡ some a
    → All (λ s. s.id ≡ a.id → s ≡ a) xs
unfolding find
find_unique p lo [] inc e = tt
find_unique p lo (x ∷ xs) {a} inc e = elim (Bool-cases (p x)) [
  | inl t ↦
      let same : x ≡ a = ground arith in
      (
        λ _. same,
        All-imp (λ s. suc x.id ≤ s.id) (λ s. s.id ≡ a.id → s ≡ a) xs
            (λ s above k. absurd (omega (arith, ap (λ (r : Shard). r.id) same)))
            (Increasing-All (suc x.id) xs inc.1),
      )
  | inr f ↦
      let later = rw f at e in
      (
        λ k. absurd (
            omega (
              arith,
              find-All (λ s. suc x.id ≤ s.id) p xs (Increasing-All (suc x.id) xs inc.1) later,
            )),
        find_unique p (suc x.id) xs inc.1 later,
      )
]

-- A rewrite that keeps the ids keeps their order.
pub Increasing-map :
    (g : Shard → Shard) (lo : ℕ) (xs : List Shard)
    → ((s : Shard) → (g s).id ≡ s.id)
    → Increasing lo xs
    → Increasing lo (map g xs)
Increasing-map g lo [] h inc = tt
Increasing-map g lo (s ∷ rest) h inc =
    (omega (arith, h s), rw (h s) (Increasing-map g (suc s.id) rest h inc.1))

-- A new row takes an id above all others.
pub Increasing-append :
    (lo n : ℕ) (xs : List Shard) (s : Shard)
    → Increasing lo xs
    → All (λ t. t.id < n) xs
    → lo ≤ n
    → s.id ≡ n
    → Increasing lo (xs ++ (s ∷ []))
Increasing-append lo n [] s inc below h e = (omega arith, tt)
Increasing-append lo n (x ∷ xs) s inc below h e =
    (inc.0, Increasing-append (suc x.id) n xs s inc.1 below.1 below.0 e)

-- How a table may change: each row in place, by `R`, and new rows, with `New`, at the end.
module _ (R : Shard → Shard → Type 0) (New : Shard → Type 0) where
  abbrev pub Evolves : List Shard → List Shard → Type 0
  Evolves [] ys = All New ys
  Evolves (x ∷ xs) [] = ⊥
  Evolves (x ∷ xs) (y ∷ ys) = R x y × Evolves xs ys

  pub Evolves-map :
      (g : Shard → Shard) (xs : List Shard) → All (λ s. R s (g s)) xs → Evolves xs (map g xs)
  Evolves-map g [] all = tt
  Evolves-map g (x ∷ xs) all = (all.0, Evolves-map g xs all.1)

  pub Evolves-map-map :
      (g h : Shard → Shard) (xs : List Shard)
      → All (λ s. R s (h (g s))) xs
      → Evolves xs (map h (map g xs))
  Evolves-map-map g h [] all = tt
  Evolves-map-map g h (x ∷ xs) all = (all.0, Evolves-map-map g h xs all.1)

  pub Evolves-append :
      (xs : List Shard) (s : Shard) → ((t : Shard) → R t t) → New s → Evolves xs (xs ++ (s ∷ []))
  Evolves-append [] s same new = (new, tt)
  Evolves-append (x ∷ xs) s same new = (same x, Evolves-append xs s same new)

  pub Evolves-refl : (xs : List Shard) → ((t : Shard) → R t t) → Evolves xs xs
  Evolves-refl [] same = tt
  Evolves-refl (x ∷ xs) same = (same x, Evolves-refl xs same)

-- A property of rows that every change keeps, and every new row has, is kept by the table.
pub Evolves-All :
    (R : Shard → Shard → Type 0) (New P : Shard → Type 0) (xs ys : List Shard)
    → ((s t : Shard) → R s t → P s → P t)
    → ((s : Shard) → New s → P s)
    → Evolves R New xs ys
    → All P xs
    → All P ys
Evolves-All R New P [] ys keep new ev all = All-imp New P ys new ev
Evolves-All R New P (x ∷ xs) [] keep new ev all = absurd ev
Evolves-All R New P (x ∷ xs) (y ∷ ys) keep new ev all =
    (keep x y ev.0 all.0, Evolves-All R New P xs ys keep new ev.1 all.1)

pub Evolves-imp :
    (R S : Shard → Shard → Type 0) (New P : Shard → Type 0) (xs ys : List Shard)
    → ((s t : Shard) → R s t → P s → S s t)
    → Evolves R New xs ys
    → All P xs
    → Evolves S New xs ys
Evolves-imp R S New P [] ys row ev all = ev
Evolves-imp R S New P (x ∷ xs) [] row ev all = ev
Evolves-imp R S New P (x ∷ xs) (y ∷ ys) row ev all =
    (row x y ev.0 all.0, Evolves-imp R S New P xs ys row ev.1 all.1)

pub Evolves-trans :
    (R : Shard → Shard → Type 0) (New : Shard → Type 0) (xs ys zs : List Shard)
    → ((r s t : Shard) → R r s → R s t → R r t)
    → ((s t : Shard) → R s t → New s → New t)
    → Evolves R New xs ys
    → Evolves R New ys zs
    → Evolves R New xs zs
Evolves-trans R New [] ys zs trans new h k = Evolves-All R New New ys zs new (λ s n. n) k h
Evolves-trans R New (x ∷ xs) [] zs trans new h k = absurd h
Evolves-trans R New (x ∷ xs) (y ∷ ys) [] trans new h k = absurd k
Evolves-trans R New (x ∷ xs) (y ∷ ys) (z ∷ zs) trans new h k =
    (trans x y z h.0 k.0, Evolves-trans R New xs ys zs trans new h.1 k.1)

pub Evolves-new :
    (R : Shard → Shard → Type 0) (New New' : Shard → Type 0) (xs ys : List Shard)
    → ((s : Shard) → New s → New' s)
    → Evolves R New xs ys
    → Evolves R New' xs ys
Evolves-new R New New' [] ys new ev = All-imp New New' ys new ev
Evolves-new R New New' (x ∷ xs) [] new ev = ev
Evolves-new R New New' (x ∷ xs) (y ∷ ys) new ev = (ev.0, Evolves-new R New New' xs ys new ev.1)
