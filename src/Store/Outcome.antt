-- ===== src/Store/Outcome.antt =====
-- The transactions step by step: what each returns, and the database that it leaves.
use shardman.Prelude.{
  ℕ, ◌≡◌, ◌==◌, refl, ap, ◌∙◌, Bool, true, false, Option, none, some, List, [], ◌∷◌, map, find,
  count, if◌then◌else◌, ==_iff, All, arith, Bool-cases, inl, inr,
}
use shardman.Prelude.Results.{ok, err, Error, not_found}
use shardman.Store.Shard.{Shard}
use shardman.Store.Db.{
  Db, Tx, ◌>>=◌, commit, update, update_where, select_row, select_row?, constraints_ok,
}
use shardman.Store.Register.{require_rows}

module _ {A B : Type 0} where
  pub >>=-ok :
      (m : Tx A) (k : A → Tx B) (d : Db) {a : A} {d' : Db} → m d ≡ ok (a, d') → ◌>>=◌ m k d ≡ k a d'
  >>=-ok m k d e = rw (e, ◌>>=◌) refl

  pub >>=-err : (m : Tx A) (k : A → Tx B) (d : Db) {e : Error} → m d ≡ err e → ◌>>=◌ m k d ≡ err e
  >>=-err m k d e = rw (e, ◌>>=◌) refl

module _ {A : Type 0} where
  pub commit-ok : (m : Tx A) (d : Db) {a : A} {d' : Db} → m d ≡ ok (a, d') → commit m d ≡ (ok a, d')
  commit-ok m d e = rw (e, commit) refl

  pub commit-err : (m : Tx A) (d : Db) {e : Error} → m d ≡ err e → commit m d ≡ (err e, d)
  commit-err m d e = rw (e, commit) refl

pub select_row-some :
    (p : Shard → Bool) (d : Db) {s : Shard} → find p d.shards ≡ some s → select_row p d ≡ ok (s, d)
unfolding select_row
select_row-some p d e = rw (select_row, e) refl

pub select_row-none :
    (p : Shard → Bool) (d : Db) → find p d.shards ≡ none → select_row p d ≡ err not_found
unfolding select_row
select_row-none p d e = rw (select_row, e) refl

pub select_row?_lem :
    (p : Shard → Bool) (d : Db) {o : Option Shard}
    → find p d.shards ≡ o
    → select_row? p d ≡ ok (o, d)
unfolding select_row?
select_row?_lem p d e = rw e refl

pub update-ok :
    (p : Shard → Bool) (f : Shard → Shard) (d : Db)
    → constraints_ok (update_where p f d.shards) ≡ true
    → update p f d ≡ ok (count p d.shards, record d { shards = update_where p f d.shards })
unfolding update
update-ok p f d e = rw e refl

pub require_rows-ok :
    (n : ℕ) (e : Error) (d : Db) → (n == 0) ≡ false → require_rows n e d ≡ ok (tt, d)
unfolding require_rows
require_rows-ok n e d h = rw h refl

-- A test that holds of a row that is there counts it.
pub count-find :
    (p q : Shard → Bool) (xs : List Shard) {a : Shard}
    → find p xs ≡ some a
    → q a ≡ true
    → (count q xs == 0) ≡ false
unfolding find count
count-find p q [] e h = cc
count-find p q (x ∷ xs) {a} e h = elim (Bool-cases (p x)) [
  | inl t ↦ let same : x ≡ a = ground arith in rw (ap q same ∙ h) (ground arith)
  | inr f ↦ ground (arith, count-find p q xs (rw f at e) h)
]

-- A scan of the rewritten table finds the same row, if the rewrite leaves alone what the test picks
-- and makes nothing that it picks.
pub find-map_same :
    (p : Shard → Bool) (g : Shard → Shard) (xs : List Shard)
    → All (λ s. (p (g s) ≡ p s) × (p s ≡ true → g s ≡ s)) xs
    → find p (map g xs) ≡ find p xs
unfolding find
find-map_same p g [] h = refl
find-map_same p g (x ∷ xs) h = elim (Bool-cases (p x)) [
  | inl t ↦ rw (h.0.0, t, h.0.1 t) refl
  | inr f ↦ rw (h.0.0, f) (find-map_same p g xs h.1)
]

-- A row that is found stays the one found, if the update leaves the test alone.
pub find-update :
    (p q : Shard → Bool) (f : Shard → Shard) (xs : List Shard) {a : Shard}
    → ((s : Shard) → p (f s) ≡ p s)
    → find p xs ≡ some a
    → q a ≡ true
    → find p (update_where q f xs) ≡ some (f a)
unfolding find update_where
find-update p q f [] h e qa = cc
find-update p q f (x ∷ xs) {a} h e qa = elim (Bool-cases (p x)) [
  | inl t ↦
      let same : x ≡ a = ground arith in
      let chosen : q x ≡ true = ap q same ∙ qa in
      rw chosen (rw (h x, t) (ap (λ s. some (f s)) same))
  | inr n ↦ elim (Bool-cases (q x)) [
    | inl t ↦ rw t (rw (h x, n) (find-update p q f xs h (rw n at e) qa))
    | inr m ↦ rw m (rw n (find-update p q f xs h (rw n at e) qa))
  ]
]

-- An update that makes a row pass a test leaves one that passes it.
pub find-made :
    (p q r : Shard → Bool) (f : Shard → Shard) (xs : List Shard) {a : Shard}
    → find p xs ≡ some a
    → q a ≡ true
    → r (f a) ≡ true
    → (s : Shard) × (find r (update_where q f xs) ≡ some s)
unfolding find update_where
find-made p q r f [] e qa ra = cc
find-made p q r f (x ∷ xs) {a} e qa ra = elim (Bool-cases (p x)) [
  | inl t ↦
      let same : x ≡ a = ground arith in
      let made : r (f x) ≡ true = ap (λ s. r (f s)) same ∙ ra in
      (f x, rw (ap q same ∙ qa) (rw made refl))
  | inr n ↦
      let (s, later) = find-made p q r f xs (rw n at e) qa ra in
      elim (Bool-cases (r (if q x then f x else x))) [
        | inl t ↦ ((if q x then f x else x), rw t refl)
        | inr m ↦ (s, rw m later)
      ]
]

-- A row found by some test is found by its id, where no other row has it.
pub find-id :
    (p : Shard → Bool) (xs : List Shard) {a : Shard}
    → find p xs ≡ some a
    → All (λ s. s.id ≡ a.id → s ≡ a) xs
    → find (λ s. s.id == a.id) xs ≡ some a
unfolding find
find-id p [] e only = cc
find-id p (x ∷ xs) {a} e only = elim (Bool-cases (x.id == a.id)) [
  | inl t ↦ rw t (ap (λ s. some s) (only.0 ((==_iff x.id a.id).0 t)))
  | inr n ↦ elim (Bool-cases (p x)) [
    | inl t ↦ absurd (ground arith)
    | inr m ↦ rw n (find-id p xs (rw m at e) only.1)
  ]
]
