-- ===== src/Bucket/Width.antt =====
-- The width of the ids of hash buckets (digitWidth of internal/bucket/bucket.go).
use shardman.Prelude.{
  ℕ, zero, suc, ◌+◌, ◌-◌, ◌*◌, ◌/◌, ◌%◌, ◌^◌, ◌≤◌, ◌<◌, ◌≡◌, refl, ◌∙◌, subst, ◌⊎◌, inl, inr, ltb,
  true, [], ◌∷◌, length, arith, Bool-cases,
}
use native.Mathlib.Numerals.{unary_clauses}
use shardman.Prelude.Text.{Text}
use shardman.Bucket.Decimal.{digits, padded, digits_before, zeros}
use shardman.Bucket.Id.{digit_width, digit_width_loop, hash_id}

pow_suc : (k : ℕ) → 10 ^ suc k ≡ 10 * 10 ^ k
pow_suc k = simp unary_clauses omega arith

-- `k` is the number of decimal digits of `n`, where zero has none.
record HasDigits (n k : ℕ) : Type 0 where
  fits : n < 10 ^ k
  least : ((k ≡ 0) × (n ≡ 0)) ⊎ ((j : ℕ) × (k ≡ suc j) × (10 ^ j ≤ n))

one_more : (n k : ℕ) → 0 < n → HasDigits (n / 10) k → HasDigits n (suc k)
one_more n k positive is =
    let small = is.fits in
    record {
      fits = rw (pow_suc k) (omega arith);
      least = elim is.least [
        | inl (none_left, z) ↦ inr (k, refl, rw none_left (omega arith))
        | inr (j, e, big) ↦ inr (k, refl, rw e (rw (pow_suc j) (omega arith)))
      ];
    }

digit_width_loop-HasDigits :
    (fuel n w : ℕ) → n ≤ fuel → (k : ℕ) × (digit_width_loop fuel n w ≡ w + k) × HasDigits n k
unfolding digit_width_loop
digit_width_loop-HasDigits zero n w h =
    (0, omega arith, record { fits = omega arith; least = inl (refl, omega arith) })
digit_width_loop-HasDigits (suc fuel) n w h = elim (Bool-cases (ltb 0 n)) [
  | inr z ↦
      (0, rw z (omega arith), record { fits = ground arith; least = inl (refl, ground arith) })
  | inl s ↦
      let positive : 0 < n = ground arith in
      let (k, e, is) = digit_width_loop-HasDigits fuel (n / 10) (w + 1) (omega arith) in
      (suc k, rw s (e ∙ omega arith), one_more n k positive is)
]

-- A number below a power of ten has no more digits than that.
digits_before-length :
    (fuel n k : ℕ) (rest : Text)
    → n < fuel
    → n < 10 ^ suc k
    → length (digits_before fuel n rest) ≤ suc k + length rest
unfolding digits_before
digits_before-length zero n k rest h small = omega arith
digits_before-length (suc fuel) n zero rest h small =
    let one_digit : ltb n 10 ≡ true = ground arith in rw one_digit (omega arith)
digits_before-length (suc fuel) n (suc k) rest h small = elim (Bool-cases (ltb n 10)) [
  | inl t ↦ rw t (omega arith)
  | inr f ↦
      let rest' = (48 + n % 10) ∷ rest in
      let smaller : n / 10 < 10 ^ suc k = (let big = pow_suc (suc k) in omega arith) in
      let many : 10 ≤ n = ground arith in
      let fewer : n / 10 < fuel = omega arith in
      let shorter = digits_before-length fuel (n / 10) k rest' fewer smaller in rw f (omega arith)
]

digits-length : (n k : ℕ) → n < 10 ^ suc k → length (digits n) ≤ suc k
unfolding digits
digits-length n k small =
    let short = digits_before-length (suc n) n k [] (omega arith) small in omega arith

zeros-length : (m : ℕ) (s : Text) → length (zeros m s) ≡ m + length s
unfolding zeros
zeros-length zero s = omega arith
zeros-length (suc m) s = omega (arith, zeros-length m s)

padded-length : (n k : ℕ) → n < 10 ^ suc k → length (padded (suc k) n) ≡ suc k
unfolding padded
padded-length n k small =
    let short = digits-length n k small in
    zeros-length (suc k - length (digits n)) (digits n) ∙ omega arith

-- `w` is how many decimal digits `n` takes to write, where zero takes one.
pub record IsWidth (n w : ℕ) : Type 0 where
  pub digits_but_one : ℕ
  pub positive : w ≡ suc digits_but_one
  pub fits : n < 10 ^ w
  pub least : (w ≡ 1) ⊎ (10 ^ digits_but_one ≤ n)

-- digitWidth comes to its end and returns how many decimal digits its argument takes to write: the
-- fuel of the loop is enough for every number.
pub digit_width-IsWidth : (n : ℕ) → IsWidth n (digit_width n)
unfolding digit_width
digit_width-IsWidth n = elim (Bool-cases (ltb n 10)) [
  | inl t ↦
      rw t (record { digits_but_one = 0; positive = refl; fits = ground arith; least = inl refl })
  | inr f ↦
      let many : 10 ≤ n = ground arith in
      let (k, e, is) = digit_width_loop-HasDigits n n 0 (omega arith) in
      let same : digit_width_loop n n 0 ≡ k = e ∙ omega arith in
      rw f (
        rw same (elim is.least [
          | inl (none_left, z) ↦ absurd (omega arith)
          | inr (j, width, big) ↦ record {
            digits_but_one = j;
            positive = width;
            fits = is.fits;
            least = inr big;
          }
        ]))
]

-- The ids of the hash buckets of one specification have one length: the letter, and as many
-- characters as the greatest index takes digits.
pub hash_id-length :
    (h count : ℕ) → 0 < count → length (hash_id h count) ≡ 1 + digit_width (count - 1)
unfolding hash_id
hash_id-length h count positive =
    let is = digit_width-IsWidth (count - 1) in
    let k = is.digits_but_one in
    let below : h % count < 10 ^ suc k =
      (let fits = subst (λ w. count - 1 < 10 ^ w) is.positive is.fits in
        let small : h % count < count = omega arith in omega arith) in
    rw (is.positive) (omega (arith, padded-length (h % count) k below))
