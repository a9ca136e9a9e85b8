-- ===== src/Bucket/Eviction.antt =====
-- Retention and routing look at the same window: BucketsOutsideRetention against ClassifyWrite.
use shardman.Prelude.{
  ◌≡◌, refl, sym, ◌∙◌, subst, true, ◌&&◌, List, [], ◌∷◌, any, inl, inr, ◌≢◌, ◌↔◌, arith, Bool-cases,
}
use shardman.Prelude.Int.{ℤ, ltb_ℤ}
use shardman.Prelude.Text.{Text, text_eq, text_eq_iff}
use shardman.Prelude.Results.{
  Result, ok, err, Error, ◌>>=◌, library_error, invalid_month_bucket_id, unsupported_unit,
}
use shardman.Bucket.Platform.{Platform}
use shardman.Bucket.Spec.{
  Axis, time, numeric, hash, other_axis, TimeUnit, hour, day, month, other_unit, Spec,
}
use shardman.Bucket.Key.{ShardKey}
use shardman.Bucket.Id.{bucket_id, current_id, index, index_for, index_on, error_bucket_id}
use shardman.Bucket.Decimal.{is_digit}
use shardman.Bucket.Calendar.{parse_as_hour, parse_as_day}
use shardman.Bucket.Routing.{
  evicted, error_route, oldest_index, classify_ahead, classify_index, classify_write, is_older,
  is_outside, outside, outside_for, buckets_outside_retention,
}
use shardman.Bucket.Window.{classify_write_time}

refuses : (r : Result ℤ) (x : Error) {i : ℤ} → r ≡ err x → r ≢ ok i
refuses r x h k = cc

-- Neither the empty text nor the id of the error bucket has an index.
index_for-real :
    (u : TimeUnit) {i : ℤ} → (index_for u [] ≢ ok i) × (index_for u error_bucket_id ≢ ok i)
unfolding index_for parse_as_hour parse_as_day is_digit
index_for-real hour = (refuses _ library_error refl, refuses _ library_error refl)
index_for-real day = (refuses _ library_error refl, refuses _ library_error refl)
index_for-real month =
    (refuses _ invalid_month_bucket_id refl, refuses _ invalid_month_bucket_id refl)
index_for-real (other_unit t) = (refuses _ unsupported_unit refl, refuses _ unsupported_unit refl)

index_on-real :
    (a : Axis) (s : Spec) {i : ℤ} → (index_on a s [] ≢ ok i) × (index_on a s error_bucket_id ≢ ok i)
unfolding index_on
index_on-real time s = index_for-real s.time_unit
index_on-real numeric s = (λ e. cc, λ e. cc)
index_on-real hash s = (λ e. cc, λ e. cc)
index_on-real (other_axis t) s = (λ e. cc, λ e. cc)

is_outside_lem :
    (s : Spec) (oldest : ℤ) (b : Text) {i : ℤ}
    → index s b ≡ ok i
    → is_outside s oldest b ≡ ltb_ℤ i oldest
unfolding is_outside index
is_outside_lem s oldest [] e = absurd ((index_on-real s.axis s).0 e)
is_outside_lem s oldest (c ∷ b) {i} e = elim (Bool-cases (text_eq (c ∷ b) error_bucket_id)) [
  | inl t ↦ absurd (
      (index_on-real s.axis s).1
        (subst (λ x. index_on s.axis s x ≡ ok i) ((text_eq_iff (c ∷ b) error_bucket_id).0 t) e))
  | inr f ↦ rw (f, e, is_older) refl
]

-- Listed are the known ids that are too old.
any-outside :
    (s : Spec) (oldest : ℤ) (b : Text) (known : List Text)
    → any (text_eq b) (outside s oldest known) ≡ (any (text_eq b) known && is_outside s oldest b)
unfolding any outside
any-outside s oldest b [] = refl
any-outside s oldest b (x ∷ known) = ground (arith, text_eq_iff b x, any-outside s oldest b known)

classify_index-evicted :
    (b : Text) (target current depth max_future : ℤ)
    → (ltb_ℤ target (oldest_index current depth) ≡ true)
      ↔ (classify_index b target current depth max_future ≡ error_route evicted)
unfolding classify_index classify_ahead
classify_index-evicted b target current depth max_future = (λ h. rw h refl, λ h. ground arith)

ok_injective : {A : Type 0} {a b : A} → ok a ≡ ok b → a ≡ b
ok_injective h = cc

-- On the time axis, where the bucket of the key and the current bucket have an id and an index: at
-- any moment BucketsOutsideRetention succeeds, and lists the bucket exactly if it is known and writes
-- of the key are refused as evicted.
pub outside-evicted :
    (P : Platform) (s : Spec) (now : ℤ) (key : ShardKey P) (depth max_future : ℤ) {b cb : Text}
    {target current : ℤ} (known : List Text)
    → s.axis ≡ time
    → bucket_id P s key ≡ ok b
    → index s b ≡ ok target
    → current_id s now ≡ ok cb
    → index s cb ≡ ok current
    → (bs : List Text) × (buckets_outside_retention s now depth known ≡ ok bs)
      × ((any (text_eq b) bs ≡ true) ↔ (
          (any (text_eq b) known ≡ true)
          × (classify_write P s now key depth max_future ≡ ok (error_route evicted))))
unfolding buckets_outside_retention outside_for
outside-evicted P s now key depth max_future {b} {cb} {target} {current} known axis tid ti cid ci =
    let routed = classify_write_time P s now key depth max_future axis tid ti cid ci in
    let window = is_outside_lem s (oldest_index current depth) b ti in
    (
      outside s (oldest_index current depth) known,
      subst
          (λ a. outside_for a s now depth known ≡ ok (outside s (oldest_index current depth) known))
          (sym axis) (rw (cid, ◌>>=◌, ci) refl),
      (
        λ h.
            let k = sym (any-outside s (oldest_index current depth) b known) ∙ h in
            let old : is_outside s (oldest_index current depth) b ≡ true = ground arith in
            let too_old = sym window ∙ old in
            let r = (classify_index-evicted b target current depth max_future).0 too_old in
            (ground arith, rw (routed, r) refl),
        λ h.
            let r : classify_index b target current depth max_future ≡ error_route evicted =
              ok_injective (sym routed ∙ h.1) in
            let old = window ∙ (classify_index-evicted b target current depth max_future).1 r in
            any-outside s (oldest_index current depth) b known ∙ rw (h.0, old) refl,
      ),
    )
