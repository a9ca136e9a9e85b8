-- ===== src/Bucket/Spec.antt =====
-- The bucket specification of internal/bucket/bucket.go: ParseSpec and its types.
use shardman.Prelude.{
  ◌≡◌, ◌≢◌, ◌∙◌, refl, ◌&&◌, arith, Option-cases, inl, inr, Bool, true, false, [], ◌∷◌,
  if◌then◌else◌, some,
}
use shardman.Prelude.Int.{ℤ, pos, ltb_ℤ}
use shardman.Prelude.Text.{Text, text_eq, codes}
use shardman.Prelude.Results.{
  Result, ok, err, ◌>>=◌, from_option, library_error, bucket_spec_required, unsupported_time_unit,
  width_must_be_positive, bucket_count_must_be_positive, unsupported_hash_algo, unsupported_axis,
}
use shardman.Bucket.Platform.{Platform}

-- `Axis` and `TimeUnit` are strings; the last constructor of each is any other string.
pub data Axis : Type 0 where
  time numeric hash : Axis
  other_axis : Text → Axis

pub data TimeUnit : Type 0 where
  hour day month : TimeUnit
  other_unit : Text → TimeUnit

abbrev pub xxhash64 : Text
xxhash64 = codes "xxhash64"

pub record Spec : Type 0 where
  pub axis : Axis
  pub time_unit : TimeUnit
  pub width : ℤ
  pub bucket_count : ℤ
  pub hash_algo : Text
  pub raw : Text

empty_spec : Axis → Text → Spec
empty_spec axis raw = record {
  axis = axis;
  time_unit = other_unit [];
  width = pos 0;
  bucket_count = pos 0;
  hash_algo = [];
  raw = raw;
}

-- The strings of the units.
unit_named : Text → TimeUnit
unit_named t =
    if text_eq t (codes "hour")
    then hour
    else (if text_eq t (codes "day")
        then day
        else (if text_eq t (codes "month") then month else other_unit t))

with_unit : Spec → TimeUnit → Result Spec
with_unit s (other_unit t) = err unsupported_time_unit
with_unit s unit = ok (record s { time_unit = unit })

with_width : Spec → ℤ → Result Spec
with_width s w = if ltb_ℤ (pos 0) w then ok (record s { width = w }) else err width_must_be_positive

-- An empty algorithm stands for xxhash64.
default_algo : Text → Text
default_algo [] = xxhash64
default_algo (c ∷ a) = c ∷ a

with_hash : Spec → ℤ → Text → Result Spec
unfolding default_algo
with_hash s n algo =
    if ltb_ℤ (pos 0) n
    then (if text_eq (default_algo algo) xxhash64
        then ok (record s { bucket_count = n; hash_algo = default_algo algo })
        else err unsupported_hash_algo)
    else err bucket_count_must_be_positive

module _ (P : Platform) where
  open P use {unmarshal_unit, unmarshal_width, unmarshal_hash}

  parse_body : Axis → Text → Result Spec
  unfolding with_unit with_width with_hash unit_named empty_spec
  parse_body time raw = do
    unit ← from_option library_error (unmarshal_unit raw)
    with_unit (empty_spec time raw) (unit_named unit)
  parse_body numeric raw = do
    width ← from_option library_error (unmarshal_width raw)
    with_width (empty_spec numeric raw) width
  parse_body hash raw = do
    (count, algo) ← from_option library_error (unmarshal_hash raw)
    with_hash (empty_spec hash raw) count algo
  parse_body (other_axis a) raw = err unsupported_axis

  unfoldable pub parse_spec : Axis → Text → Result Spec
  unfolding parse_body
  parse_spec axis [] = err bucket_spec_required
  parse_spec axis (c ∷ raw) = parse_body axis (c ∷ raw)

-- A specification that ParseSpec may return: a known axis, with its parameters.
known_unit : TimeUnit → Bool
known_unit (other_unit t) = false
known_unit _ = true

usable_for : Axis → Spec → Bool
unfolding known_unit
usable_for time s = known_unit s.time_unit
usable_for numeric s = ltb_ℤ (pos 0) s.width
usable_for hash s = ltb_ℤ (pos 0) s.bucket_count && text_eq s.hash_algo xxhash64
usable_for (other_axis a) s = false

pub is_usable : Spec → Bool
unfolding usable_for
is_usable s = usable_for s.axis s

-- The units by themselves.
with_unit-is_usable :
    (a : Axis) (raw : Text) (u : TimeUnit) {s : Spec}
    → a ≡ time
    → with_unit (empty_spec a raw) u ≡ ok s
    → (is_usable s ≡ true) × (s.axis ≡ a)
unfolding with_unit empty_spec is_usable
with_unit-is_usable a raw hour e h = ground arith
with_unit-is_usable a raw day e h = ground arith
with_unit-is_usable a raw month e h = ground arith
with_unit-is_usable a raw (other_unit t) e h = cc

with_width-is_usable :
    (raw : Text) (w : ℤ) {s : Spec}
    → with_width (empty_spec numeric raw) w ≡ ok s
    → (is_usable s ≡ true) × (s.axis ≡ numeric)
unfolding with_width empty_spec is_usable
with_width-is_usable raw w h = ground arith

with_hash-is_usable :
    (raw : Text) (n : ℤ) (algo : Text) {s : Spec}
    → with_hash (empty_spec hash raw) n algo ≡ ok s
    → (is_usable s ≡ true) × (s.axis ≡ hash)
unfolding with_hash empty_spec is_usable
with_hash-is_usable raw n algo h = ground arith

module _ (P : Platform) where
  parse_body-is_usable :
      (axis : Axis) (raw : Text) {s : Spec}
      → parse_body P axis raw ≡ ok s
      → (is_usable s ≡ true) × (s.axis ≡ axis)
  unfolding parse_body
  parse_body-is_usable time raw h = elim (Option-cases (P.unmarshal_unit raw)) [
    | inl e ↦ absurd (cc (rw e at h))
    | inr (u, e) ↦ with_unit-is_usable time raw (unit_named u) refl (rw e at h)
  ]
  parse_body-is_usable numeric raw h = elim (Option-cases (P.unmarshal_width raw)) [
    | inl e ↦ absurd (cc (rw e at h))
    | inr (w, e) ↦ with_width-is_usable raw w (rw e at h)
  ]
  parse_body-is_usable hash raw h = elim (Option-cases (P.unmarshal_hash raw)) [
    | inl e ↦ absurd (cc (rw e at h))
    | inr ((n, algo), e) ↦ with_hash-is_usable raw n algo (rw e at h)
  ]
  parse_body-is_usable (other_axis a) raw h = cc

  -- What ParseSpec accepts is on the axis that was asked for, and has what that axis needs: a known
  -- unit, a positive width, or a positive bucket count with the one hash that is implemented.
  pub parse_spec-is_usable :
      (axis : Axis) (raw : Text) {s : Spec}
      → parse_spec P axis raw ≡ ok s
      → (is_usable s ≡ true) × (s.axis ≡ axis)
  unfolding parse_spec
  parse_spec-is_usable axis [] h = cc
  parse_spec-is_usable axis (c ∷ raw) h = parse_body-is_usable axis (c ∷ raw) h

-- A text that the column takes, and gives back as a text of the same meaning to json.Unmarshal. Such
-- is an object whose keys differ in more than their case and whose numbers are written as integers.
pub record IsPlain (P : Platform) (raw : Text) : Type 0 where
  pub normal : Text
  pub converts : P.jsonb raw ≡ some normal
  pub nonempty : normal ≢ []
  pub same_unit : P.unmarshal_unit normal ≡ P.unmarshal_unit raw
  pub same_width : P.unmarshal_width normal ≡ P.unmarshal_width raw
  pub same_hash : P.unmarshal_hash normal ≡ P.unmarshal_hash raw

with_unit-raw :
    (raw normal : Text) (u : TimeUnit) {s : Spec}
    → with_unit (empty_spec time raw) u ≡ ok s
    → with_unit (empty_spec time normal) u ≡ ok (record s { raw = normal })
unfolding with_unit empty_spec
with_unit-raw raw normal hour h = ground arith
with_unit-raw raw normal day h = ground arith
with_unit-raw raw normal month h = ground arith
with_unit-raw raw normal (other_unit t) h = cc

with_width-raw :
    (raw normal : Text) (w : ℤ) {s : Spec}
    → with_width (empty_spec numeric raw) w ≡ ok s
    → with_width (empty_spec numeric normal) w ≡ ok (record s { raw = normal })
unfolding with_width empty_spec
with_width-raw raw normal w h = ground arith

with_hash-raw :
    (raw normal : Text) (n : ℤ) (algo : Text) {s : Spec}
    → with_hash (empty_spec hash raw) n algo ≡ ok s
    → with_hash (empty_spec hash normal) n algo ≡ ok (record s { raw = normal })
unfolding with_hash empty_spec
with_hash-raw raw normal n algo h = ground arith

module _ (P : Platform) where
  parse_body-raw :
      (axis : Axis) (raw : Text) {s : Spec} (plain : IsPlain P raw)
      → parse_body P axis raw ≡ ok s
      → parse_body P axis plain.normal ≡ ok (record s { raw = plain.normal })
  unfolding parse_body
  parse_body-raw time raw plain h = elim (Option-cases (P.unmarshal_unit raw)) [
    | inl e ↦ absurd (cc (rw e at h))
    | inr (u, e) ↦
        rw (plain.same_unit, e) (with_unit-raw raw plain.normal (unit_named u) (rw e at h))
  ]
  parse_body-raw numeric raw plain h = elim (Option-cases (P.unmarshal_width raw)) [
    | inl e ↦ absurd (cc (rw e at h))
    | inr (w, e) ↦ rw (plain.same_width, e) (with_width-raw raw plain.normal w (rw e at h))
  ]
  parse_body-raw hash raw plain h = elim (Option-cases (P.unmarshal_hash raw)) [
    | inl e ↦ absurd (cc (rw e at h))
    | inr ((n, algo), e) ↦
        rw (plain.same_hash, e) (with_hash-raw raw plain.normal n algo (rw e at h))
  ]
  parse_body-raw (other_axis a) raw plain h = absurd (cc h)

  parse_spec_nonempty :
      (axis : Axis) (t : Text) → t ≢ [] → parse_spec P axis t ≡ parse_body P axis t
  unfolding parse_spec
  parse_spec_nonempty axis [] ne = absurd (ne refl)
  parse_spec_nonempty axis (c ∷ t) ne = refl

  -- ParseSpec of a plain text and of what the column gives back of it.
  pub parse_spec-raw :
      (axis : Axis) (raw : Text) {s : Spec} (plain : IsPlain P raw)
      → parse_spec P axis raw ≡ ok s
      → parse_spec P axis plain.normal ≡ ok (record s { raw = plain.normal })
  unfolding parse_spec
  parse_spec-raw axis [] plain h = absurd (cc h)
  parse_spec-raw axis (c ∷ raw) plain h =
      parse_spec_nonempty axis plain.normal plain.nonempty ∙ parse_body-raw axis (c ∷ raw) plain h
