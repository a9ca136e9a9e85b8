-- ===== src/Bucket/Routing.antt =====
-- internal/bucket/routing.go: where a shard key goes, which buckets retention clears, and what a
-- bootstrap may ask for.
pub mod Accepted
use shardman.Prelude.{
  zero, suc, Bool, true, false, not, ◌||◌, Option, none, some, List, [], ◌∷◌, if◌then◌else◌,
}
use shardman.Prelude.Int.{ℤ, pos, negsuc, ltb_ℤ, ◌+ℤ◌, ◌-ℤ◌, wrap64}
use shardman.Prelude.Text.{Text, text_eq}
use shardman.Prelude.Results.{
  Result, ok, err, ◌>>=◌, unsupported_mode, hash_requires_mode, hash_requires_axis,
  retention_depth_required, max_future_required, unsupported_axis,
}
use shardman.Bucket.Platform.{Platform}
use shardman.Bucket.Spec.{Axis, time, numeric, hash, Spec}
use shardman.Bucket.Key.{ShardKey}
use shardman.Bucket.Id.{bucket_id, current_id, index, error_bucket_id}

pub data RouteKind : Type 0 where
  to_bucket to_error : RouteKind

-- `no_reason` is the empty string.
pub data RouteReason : Type 0 where
  no_reason future_disallowed future_too_far evicted invalid_key : RouteReason

pub record WriteRoute : Type 0 where
  pub kind : RouteKind
  pub bucket : Text
  pub reason : RouteReason

abbrev pub error_route : RouteReason → WriteRoute
error_route r = record { kind = to_error; bucket = error_bucket_id; reason = r }

abbrev pub bucket_route : Text → WriteRoute
bucket_route b = record { kind = to_bucket; bucket = b; reason = no_reason }

-- `targetIdx <= n`, and `oldestIdx`
abbrev pub leb_ℤ : ℤ → ℤ → Bool
leb_ℤ a b = not (ltb_ℤ b a)

unfoldable pub oldest_index : ℤ → ℤ → ℤ
oldest_index current depth = wrap64 (wrap64 (current -ℤ depth) +ℤ pos 1)

is_zero : ℤ → Bool
is_zero (pos zero) = true
is_zero (pos (suc n)) = false
is_zero (negsuc n) = false

-- The comparison of the two indices, first for a target in the future.
unfoldable pub classify_ahead : Text → (target current max_future : ℤ) → WriteRoute
unfolding is_zero
classify_ahead b target current max_future =
    if is_zero max_future
    then error_route future_disallowed
    else (if leb_ℤ target (wrap64 (current +ℤ max_future))
        then bucket_route b
        else error_route future_too_far)

unfoldable pub classify_index : Text → (target current depth max_future : ℤ) → WriteRoute
classify_index b target current depth max_future =
    if ltb_ℤ target (oldest_index current depth)
    then error_route evicted
    else (if leb_ℤ target current
        then bucket_route b
        else classify_ahead b target current max_future)

-- An id that fails to be made or read is an invalid key; a failure on the side of the clock is an
-- error of the call.
abbrev pub or_invalid : {A : Type 0} → Result A → (A → Result WriteRoute) → Result WriteRoute
or_invalid (ok a) f = f a
or_invalid (err e) f = ok (error_route invalid_key)

module _ (P : Platform) where
  unfoldable pub classify_for :
      Axis → Spec → ℤ → ShardKey P → (depth max_future : ℤ) → Result WriteRoute
  classify_for time s now key depth max_future = or_invalid (bucket_id P s key) λ target.
      current_id s now >>= λ current. or_invalid (index s target) λ target_index.
        index s current >>= λ current_index.
        ok (classify_index target target_index current_index depth max_future)
  classify_for _ s now key depth max_future =
      or_invalid (bucket_id P s key) λ target. ok (bucket_route target)

  unfoldable pub classify_write : Spec → ℤ → ShardKey P → (depth max_future : ℤ) → Result WriteRoute
  unfolding classify_for
  classify_write s now key depth max_future = classify_for s.axis s now key depth max_future

  unfoldable pub classify_read : Spec → ℤ → ShardKey P → (depth max_future : ℤ) → Result WriteRoute
  classify_read = classify_write

-- The loop of BucketsOutsideRetention: the empty id, the error bucket and ids that have no index
-- are passed over.
abbrev pub is_older : ℤ → Result ℤ → Bool
is_older oldest (ok i) = ltb_ℤ i oldest
is_older oldest (err e) = false

unfoldable pub is_outside : Spec → ℤ → Text → Bool
is_outside s oldest [] = false
is_outside s oldest (c ∷ b) =
    if text_eq (c ∷ b) error_bucket_id then false else is_older oldest (index s (c ∷ b))

unfoldable pub outside : Spec → ℤ → List Text → List Text
outside s oldest [] = []
outside s oldest (b ∷ bs) =
    if is_outside s oldest b then b ∷ outside s oldest bs else outside s oldest bs

unfoldable pub outside_for : Axis → Spec → ℤ → ℤ → List Text → Result (List Text)
outside_for time s now depth known = current_id s now >>= λ current.
    index s current >>= λ current_index. ok (outside s (oldest_index current_index depth) known)
outside_for _ s now depth known = ok []

unfoldable pub buckets_outside_retention : Spec → ℤ → ℤ → List Text → Result (List Text)
unfolding outside_for
buckets_outside_retention s now depth known = outside_for s.axis s now depth known

-- ValidateBootstrap. A mode is "range", "hash", empty or unknown.
pub data Mode : Type 0 where
  range_mode hash_mode no_mode : Mode
  other_mode : Text → Mode

is_hash_mode : Mode → Bool
is_hash_mode hash_mode = true
is_hash_mode _ = false

is_hash_axis : Axis → Bool
is_hash_axis hash = true
is_hash_axis _ = false

-- `p == nil || *p < n`
is_below : ℤ → Option ℤ → Bool
is_below n none = true
is_below n (some v) = ltb_ℤ v n

accepted : Result (Unit {0})
accepted = ok tt

-- mode == ModeHash || axis == AxisHash
validate_hash : Mode → Axis → Result (Unit {0})
unfolding accepted
validate_hash range_mode axis = err hash_requires_mode
validate_hash (other_mode m) axis = err hash_requires_mode
validate_hash _ hash = accepted
validate_hash _ axis = err hash_requires_axis

validate_range : Axis → (depth max_future : Option ℤ) → Result (Unit {0})
unfolding accepted is_below
validate_range time depth max_future =
    if is_below (pos 1) depth
    then err retention_depth_required
    else (if is_below (pos 0) max_future then err max_future_required else accepted)
validate_range numeric depth max_future = accepted
validate_range _ depth max_future = err unsupported_axis

unfoldable pub validate_bootstrap : Mode → Axis → (depth max_future : Option ℤ) → Result (Unit {0})
unfolding is_hash_mode is_hash_axis validate_hash validate_range
validate_bootstrap (other_mode m) axis depth max_future = err unsupported_mode
validate_bootstrap mode axis depth max_future =
    if is_hash_mode mode || is_hash_axis axis
    then validate_hash mode axis
    else validate_range axis depth max_future
