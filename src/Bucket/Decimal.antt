-- ===== src/Bucket/Decimal.antt =====
-- Numbers in decimal: what strconv and fmt do for the integers that internal/bucket/bucket.go
-- prints and reads.
use shardman.Prelude.{
  ℕ, zero, suc, ◌+◌, ◌-◌, ◌*◌, ◌/◌, ◌%◌, ◌≤◌, ◌<◌, ◌≡◌, ◌==◌, refl, ◌∙◌, ltb, leb, Bool, true,
  false, ◌&&◌, Option, none, some, [], ◌∷◌, if◌then◌else◌, length, arith, Bool-cases, inl, inr,
}
use shardman.Prelude.Int.{ℤ, pos, negsuc, neg, IsInt64}
use shardman.Prelude.Text.{Text}

-- The digits of a number in front of a text.
unfoldable pub digits_before : ℕ → ℕ → Text → Text
digits_before zero n rest = rest
digits_before (suc fuel) n rest =
    let longer = digits_before fuel (n / 10) ((48 + n % 10) ∷ rest) in
    if ltb n 10 then (48 + n) ∷ rest else longer

-- A number has no more digits than its value and one.
unfoldable pub digits : ℕ → Text
unfolding digits_before
digits n = digits_before (suc n) n []

-- strconv.FormatInt and strconv.Itoa, and %d.
pub format_int : ℤ → Text
format_int (pos n) = digits n
format_int (negsuc n) = b'-' ∷ digits (suc n)

unfoldable pub zeros : ℕ → Text → Text
zeros zero rest = rest
zeros (suc n) rest = b'0' ∷ zeros n rest

-- Zeros in front, up to a width.
unfoldable pub padded : ℕ → ℕ → Text
unfolding zeros
padded width n = let s = digits n in zeros (width - length s) s

-- fmt's %0*d, whose width counts the sign.
pub sprintf_padded : ℕ → ℤ → Text
sprintf_padded width (pos n) = padded width n
sprintf_padded width (negsuc n) = b'-' ∷ padded (width - 1) (suc n)

unfoldable pub is_digit : ℕ → Bool
is_digit c = leb b'0' c && leb c b'9'

pub parse_digits : ℕ → Text → Option ℕ
unfolding is_digit
parse_digits acc [] = some acc
parse_digits acc (c ∷ s) =
    let rest = parse_digits (acc * 10 + (c - 48)) s in if is_digit c then rest else none

parse_magnitude : Text → Option ℕ
unfolding parse_digits
parse_magnitude [] = none
parse_magnitude (c ∷ s) = parse_digits 0 (c ∷ s)

-- strconv.ParseInt(s, 10, 64): out of range the value is the nearest int64, beside the error.
pub data Parsed : Type 0 where
  exact clipped : ℤ → Parsed
  no_syntax : Parsed

signed_magnitude : Bool → Option ℕ → Parsed
signed_magnitude negative none = no_syntax
signed_magnitude false (some n) =
    if ltb n 9223372036854775808 then exact (pos n) else clipped (pos 9223372036854775807)
signed_magnitude true (some n) =
    if leb n 9223372036854775808 then exact (neg n) else clipped (negsuc 9223372036854775807)

pub parse_int : Text → Parsed
unfolding signed_magnitude parse_magnitude
parse_int [] = no_syntax
parse_int (c ∷ s) =
    if c == b'-'
    then signed_magnitude true (parse_magnitude s)
    else (if c == b'+'
        then signed_magnitude false (parse_magnitude s)
        else signed_magnitude false (parse_magnitude (c ∷ s)))

-- What `y, _ := strconv.Atoi(s)` binds.
pub atoi_value : Parsed → ℤ
atoi_value (exact n) = n
atoi_value (clipped n) = n
atoi_value no_syntax = pos 0

pub exact_value : Parsed → Option ℤ
exact_value (exact n) = some n
exact_value (clipped n) = none
exact_value no_syntax = none

parse_digits_step :
    (acc k : ℕ) (rest : Text)
    → k < 10
    → parse_digits acc ((48 + k) ∷ rest) ≡ parse_digits (acc * 10 + k) rest
unfolding parse_digits
parse_digits_step acc k rest h =
    let digit : is_digit (48 + k) ≡ true = ground arith in
    let value : 48 + k - 48 ≡ k = omega arith in rw (digit, value) refl

zero_times : (n : ℕ) → 0 * 10 + n ≡ n
zero_times n = omega arith

tens : (n : ℕ) → n / 10 * 10 + n % 10 ≡ n
tens n = omega arith

digits_before_lem :
    (fuel n : ℕ) (rest : Text)
    → n < fuel
    → parse_digits 0 (digits_before fuel n rest) ≡ parse_digits n rest
unfolding digits_before
digits_before_lem zero n rest h = absurd (omega arith)
digits_before_lem (suc fuel) n rest h = elim (Bool-cases (ltb n 10)) [
  | inl t ↦ rw t (parse_digits_step 0 n rest (ground arith) ∙ rw (zero_times n) refl)
  | inr f ↦ rw f (
      digits_before_lem fuel (n / 10) ((48 + n % 10) ∷ rest) (ground arith)
      ∙ parse_digits_step (n / 10) (n % 10) rest (omega arith)
      ∙ rw (tens n) refl)
]

-- What is printed is read back.
parse_digits-digits : (n : ℕ) → parse_digits 0 (digits n) ≡ some n
unfolding digits
parse_digits-digits n = digits_before_lem (suc n) n [] (omega arith) ∙ (unfold parse_digits in refl)

parse_digits-zeros : (k : ℕ) (s : Text) → parse_digits 0 (zeros k s) ≡ parse_digits 0 s
unfolding zeros
parse_digits-zeros zero s = refl
parse_digits-zeros (suc k) s =
    parse_digits_step 0 0 (zeros k s) (omega arith) ∙ parse_digits-zeros k s

-- The first character is a digit, so it is no sign.
digits_before_head :
    (fuel n : ℕ) (rest : Text)
    → n < fuel
    → (c : ℕ) × (s : Text) × (digits_before fuel n rest ≡ c ∷ s) × (48 ≤ c) × (c ≤ 57)
unfolding digits_before
digits_before_head zero n rest h = absurd (omega arith)
digits_before_head (suc fuel) n rest h = elim (Bool-cases (ltb n 10)) [
  | inl t ↦ rw t (48 + n, rest, refl, omega arith, ground arith)
  | inr f ↦ rw f (digits_before_head fuel (n / 10) ((48 + n % 10) ∷ rest) (ground arith))
]

digits_head : (n : ℕ) → (c : ℕ) × (s : Text) × (digits n ≡ c ∷ s) × (48 ≤ c) × (c ≤ 57)
unfolding digits
digits_head n = digits_before_head (suc n) n [] (omega arith)

parse_magnitude-digits : (n : ℕ) → parse_magnitude (digits n) ≡ some n
unfolding parse_magnitude
parse_magnitude-digits n =
    let (c, s, e, low, high) = digits_head n in rw e ((rw e at (parse_digits-digits n)))

-- strconv.ParseInt reads what strconv.FormatInt prints, for every int64.
pub parse_int-format_int : (z : ℤ) → IsInt64 z → parse_int (format_int z) ≡ exact z
unfolding parse_int format_int
parse_int-format_int (pos n) h =
    let (c, s, e, low, high) = digits_head n in
    let minus : (c == b'-') ≡ false = ground arith in
    let plus : (c == b'+') ≡ false = ground arith in
    let fits : ltb n 9223372036854775808 ≡ true = ground arith in
    let magnitude = rw e at (parse_magnitude-digits n) in rw (e, minus, plus, magnitude, fits) refl
parse_int-format_int (negsuc n) h =
    let fits : leb (suc n) 9223372036854775808 ≡ true = ground arith in
    rw (parse_magnitude-digits (suc n), fits) refl

-- Different integers are printed differently.
pub format_int_injective : (a b : ℤ) → IsInt64 a → IsInt64 b → format_int a ≡ format_int b → a ≡ b
format_int_injective a b ha hb e = cc (parse_int-format_int a ha, parse_int-format_int b hb)

pub parse_digits-padded : (width n : ℕ) → parse_digits 0 (padded width n) ≡ some n
unfolding padded
parse_digits-padded width n =
    parse_digits-zeros (width - length (digits n)) (digits n) ∙ parse_digits-digits n
