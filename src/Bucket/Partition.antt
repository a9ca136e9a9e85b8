-- ===== src/Bucket/Partition.antt =====
-- The numeric and the hash axis of internal/bucket/bucket.go cut the keys into disjoint buckets.
use shardman.Prelude.{
  ℕ, suc, ◌+◌, ◌-◌, ◌/◌, ◌%◌, ◌≤◌, ◌<◌, ◌≡◌, refl, sym, ◌∙◌, ap, subst, true, false, some, ◌∷◌, ◌↔◌,
  arith,
}
use shardman.Prelude.Int.{
  ℤ, pos, negsuc, pos_part, neg_part, ltb_ℤ, div_floor, ◌+ℤ◌, ◌-ℤ◌, wrap64, wrap64_fits, IsInt64,
}
use shardman.Prelude.Text.{Text, text_eq}
use shardman.Prelude.Results.{ok, ◌>>=◌}
use shardman.Bucket.Platform.{Platform}
use shardman.Bucket.Decimal.{format_int, format_int_injective, parse_digits, parse_digits-padded}
use shardman.Bucket.Spec.{numeric, hash, Spec, xxhash64}
use shardman.Bucket.Key.{ShardKey, parse_numeric_key, stringify_key, hash_key}
use shardman.Bucket.Id.{numeric_index, digit_width, hash_id, id_for, bucket_id}

-- (a + w) / w
div-add_self : (a w : ℕ) → (a + suc w) / suc w ≡ suc (a / suc w)
div-add_self a w = grind arith

-- The three steps at a negative key: n - width, plus one, and the quotient.
minus_width : (a w : ℕ) → negsuc a -ℤ pos (suc w) ≡ negsuc (a + suc w)
unfolding ◌-ℤ◌
minus_width a w = ground arith

plus_one : (b : ℕ) → negsuc (suc b) +ℤ pos 1 ≡ negsuc b
unfolding ◌+ℤ◌
plus_one b = ground arith

is_negative : (a : ℕ) → ltb_ℤ (negsuc a) (pos 0) ≡ true
is_negative a = ground arith

is_not_negative : (a : ℕ) → ltb_ℤ (pos a) (pos 0) ≡ false
is_not_negative a = ground arith

-- For a positive width the numeric index is the quotient rounded down, as long as key minus width
-- fits into an int64 or the key is not negative and the width is of an int64.
pub numeric_index-floor :
    (w : ℕ) (n : ℤ)
    → neg_part n + suc w ≤ 9223372036854775808
    → numeric_index (pos (suc w)) n ≡ div_floor n (suc w)
unfolding numeric_index
numeric_index-floor w (pos a) h = rw (is_not_negative a) refl
numeric_index-floor w (negsuc a) h =
    let shift : a + suc w ≡ suc (a + w) = omega arith in
    rw
      (
        is_negative a,
        minus_width a w,
        wrap64_fits (negsuc (a + suc w)) (omega arith),
        shift,
        plus_one (a + w),
        wrap64_fits (negsuc (a + w)) (omega arith),
        ← shift,
        div-add_self a w,
      )
      refl

wraps_over :
    (b : ℕ)
    → 9223372036854775808 ≤ b
    → b < 18446744073709551616
    → wrap64 (negsuc b) ≡ pos (18446744073709551615 - b)
unfolding wrap64
wraps_over b h k = ground arith

plus_one_pos : (b : ℕ) → pos b +ℤ pos 1 ≡ pos (b + 1)
unfolding ◌+ℤ◌
plus_one_pos b = ground arith

-- For a negative key of an int64 and a width of an int64 where key minus width does not fit into an
-- int64, the subtraction wraps around, and the index is not negative.
pub numeric_index-wraps :
    (w a : ℕ)
    → a < 9223372036854775808
    → suc w < 9223372036854775808
    → 9223372036854775808 < a + suc w
    → (i : ℕ) × (numeric_index (pos (suc w)) (negsuc a) ≡ pos i)
unfolding numeric_index
numeric_index-wraps w a ha hw h =
    let b : ℕ = 18446744073709551615 - (a + suc w) + 1 in
    (
      b / suc w,
      rw
          (
            is_negative a,
            minus_width a w,
            wraps_over (a + suc w) (omega arith) (omega arith),
            plus_one_pos (18446744073709551615 - (a + suc w)),
            wrap64_fits (pos b) (omega arith),
          )
          refl,
    )

div_floor-IsInt64 : (n : ℤ) (w : ℕ) → IsInt64 n → IsInt64 (div_floor n (suc w))
div_floor-IsInt64 (pos a) w h = (grind arith, omega arith)
div_floor-IsInt64 (negsuc a) w h = (omega arith, grind arith)

-- A key is read as the number `n`, far enough above the least int64.
abbrev pub ReadsAs : (P : Platform) → ℕ → ShardKey P → ℤ → Type 0
ReadsAs P w key n =
    (parse_numeric_key P key ≡ ok n) × IsInt64 n × (neg_part n + suc w ≤ 9223372036854775808)

pub numeric_id :
    (P : Platform) (s : Spec) (w : ℕ) (key : ShardKey P) (n : ℤ)
    → s.axis ≡ numeric
    → s.width ≡ pos (suc w)
    → ReadsAs P w key n
    → bucket_id P s key ≡ ok (b'n' ∷ format_int (div_floor n (suc w)))
unfolding bucket_id id_for
numeric_id P s w key n axis width reads =
    subst (λ a. id_for P a s key ≡ ok (b'n' ∷ format_int (div_floor n (suc w)))) (sym axis)
      (rw (reads.0, ◌>>=◌, width, numeric_index-floor w n reads.2) refl)

ok_injective : {A : Type 0} {a b : A} → ok a ≡ ok b → a ≡ b
ok_injective h = cc

tail_injective : (c : ℕ) (a b : Text) → c ∷ a ≡ c ∷ b → a ≡ b
tail_injective c a b h = cc

-- On the numeric axis with a positive width, two keys share a bucket exactly if their quotients by
-- the width, rounded down, agree, for keys that are read as numbers and are far enough above the
-- least int64 for key minus width to fit.
pub bucket_id_numeric :
    (P : Platform) (s : Spec) (w : ℕ) (k l : ShardKey P) (n m : ℤ)
    → s.axis ≡ numeric
    → s.width ≡ pos (suc w)
    → ReadsAs P w k n
    → ReadsAs P w l m
    → (bucket_id P s k ≡ bucket_id P s l) ↔ (div_floor n (suc w) ≡ div_floor m (suc w))
bucket_id_numeric P s w k l n m axis width rk rl =
    let ek = numeric_id P s w k n axis width rk in
    let el = numeric_id P s w l m axis width rl in
    (
      λ e.
          format_int_injective (div_floor n (suc w)) (div_floor m (suc w))
            (div_floor-IsInt64 n w rk.1) (div_floor-IsInt64 m w rl.1)
            (tail_injective b'n' _ _ (ok_injective (sym ek ∙ e ∙ el))),
      λ e. ek ∙ ap (λ (z : ℤ). ok (b'n' ∷ format_int z)) e ∙ sym el,
    )

some_injective : {A : Type 0} {a b : A} → some a ≡ some b → a ≡ b
some_injective h = cc

hash_id_iff : (g h count : ℕ) → (hash_id g count ≡ hash_id h count) ↔ (g % count ≡ h % count)
unfolding hash_id
hash_id_iff g h count =
    let width : ℕ = digit_width (count - 1) in
    (
      λ e. some_injective (
          sym (parse_digits-padded width (g % count))
          ∙ ap (parse_digits 0) (tail_injective b'h' _ _ e)
          ∙ parse_digits-padded width (h % count)),
      λ e. rw e refl,
    )

hashed_id :
    (P : Platform) (s : Spec) (key : ShardKey P) {t : Text}
    → s.axis ≡ hash
    → text_eq s.hash_algo xxhash64 ≡ true
    → stringify_key P key ≡ ok t
    → bucket_id P s key ≡ ok (hash_id (P.sum64 t) (pos_part s.bucket_count))
unfolding bucket_id id_for hash_key
hashed_id P s key {t} axis algo e =
    subst (λ a. id_for P a s key ≡ ok (hash_id (P.sum64 t) (pos_part s.bucket_count))) (sym axis)
      (rw (algo, e, ◌>>=◌) refl)

-- On the hash axis with xxhash64, two keys that have a text share a bucket exactly if the hashes of
-- their texts agree modulo the bucket count.
pub bucket_id_hash :
    (P : Platform) (s : Spec) (k l : ShardKey P) {t u : Text}
    → s.axis ≡ hash
    → text_eq s.hash_algo xxhash64 ≡ true
    → stringify_key P k ≡ ok t
    → stringify_key P l ≡ ok u
    → (bucket_id P s k ≡ bucket_id P s l)
      ↔ (P.sum64 t % pos_part s.bucket_count ≡ P.sum64 u % pos_part s.bucket_count)
bucket_id_hash P s k l {t} {u} axis algo et eu =
    let ek = hashed_id P s k axis algo et in
    let el = hashed_id P s l axis algo eu in
    let same = hash_id_iff (P.sum64 t) (P.sum64 u) (pos_part s.bucket_count) in
    (
      λ e. same.0 (ok_injective (sym ek ∙ e ∙ el)),
      λ e. ek ∙ ap (λ (b : Text). ok b) (same.1 e) ∙ sym el,
    )
