-- ===== src/Bucket/Routing/Accepted.antt =====
-- Which configurations ValidateBootstrap of internal/bucket/routing.go accepts.
use shardman.Prelude.{◌≡◌, refl, ◌↔◌, ◌⊎◌, inl, inr, Option, none, some, arith}
use shardman.Prelude.Int.{ℤ, pos, ◌≤ℤ◌}
use shardman.Prelude.Results.{ok}
use shardman.Bucket.Spec.{Axis, time, numeric, hash, other_axis}
use shardman.Bucket.Routing.{
  Mode, range_mode, hash_mode, no_mode, other_mode, is_below, validate_hash, validate_range,
  accepted, validate_bootstrap, is_hash_mode, is_hash_axis,
}

-- The combinations that make sense: hash buckets under the mode "hash", and numeric or time buckets
-- under the mode "range", the latter with a depth of one at least and a limit ahead; either mode may
-- be left out.
pub data IsAccepted (mode : Mode) (axis : Axis) (depth max_future : Option ℤ) : Type 0 where
  by_hash :
      (mode ≡ hash_mode) ⊎ (mode ≡ no_mode) → axis ≡ hash → IsAccepted mode axis depth max_future
  by_number :
      (mode ≡ range_mode) ⊎ (mode ≡ no_mode)
      → axis ≡ numeric
      → IsAccepted mode axis depth max_future
  by_time :
      (mode ≡ range_mode) ⊎ (mode ≡ no_mode)
      → axis ≡ time
      → (n m : ℤ) → depth ≡ some n
      → pos 1 ≤ℤ n
      → max_future ≡ some m
      → pos 0 ≤ℤ m
      → IsAccepted mode axis depth max_future

time-IsAccepted :
    (mode : Mode) (depth max_future : Option ℤ)
    → (mode ≡ range_mode) ⊎ (mode ≡ no_mode)
    → validate_range time depth max_future ≡ ok tt
    → IsAccepted mode time depth max_future
unfolding validate_range is_below accepted
time-IsAccepted mode none max_future m h = cc
time-IsAccepted mode (some n) none m h = absurd (ground arith)
time-IsAccepted mode (some n) (some k) m h =
    by_time m refl n k refl (ground arith) refl (ground arith)

range-IsAccepted :
    (mode : Mode) (axis : Axis) (depth max_future : Option ℤ)
    → (mode ≡ range_mode) ⊎ (mode ≡ no_mode)
    → validate_range axis depth max_future ≡ ok tt
    → IsAccepted mode axis depth max_future
unfolding validate_range accepted
range-IsAccepted mode time depth max_future m h = time-IsAccepted mode depth max_future m h
range-IsAccepted mode numeric depth max_future m h = by_number m refl
range-IsAccepted mode hash depth max_future m h = cc
range-IsAccepted mode (other_axis a) depth max_future m h = cc

validate_bootstrap-forth :
    (mode : Mode) (axis : Axis) (depth max_future : Option ℤ)
    → validate_bootstrap mode axis depth max_future ≡ ok tt
    → IsAccepted mode axis depth max_future
unfolding validate_bootstrap is_hash_mode is_hash_axis validate_hash
validate_bootstrap-forth (other_mode t) axis depth max_future h = cc
validate_bootstrap-forth hash_mode hash depth max_future h = by_hash (inl refl) refl
validate_bootstrap-forth hash_mode time depth max_future h = cc
validate_bootstrap-forth hash_mode numeric depth max_future h = cc
validate_bootstrap-forth hash_mode (other_axis a) depth max_future h = cc
validate_bootstrap-forth no_mode hash depth max_future h = by_hash (inr refl) refl
validate_bootstrap-forth no_mode time depth max_future h =
    range-IsAccepted no_mode time depth max_future (inr refl) h
validate_bootstrap-forth no_mode numeric depth max_future h = by_number (inr refl) refl
validate_bootstrap-forth no_mode (other_axis a) depth max_future h =
    range-IsAccepted no_mode (other_axis a) depth max_future (inr refl) h
validate_bootstrap-forth range_mode hash depth max_future h = cc
validate_bootstrap-forth range_mode time depth max_future h =
    range-IsAccepted range_mode time depth max_future (inl refl) h
validate_bootstrap-forth range_mode numeric depth max_future h = by_number (inl refl) refl
validate_bootstrap-forth range_mode (other_axis a) depth max_future h =
    range-IsAccepted range_mode (other_axis a) depth max_future (inl refl) h

validate_bootstrap-back :
    (mode : Mode) (axis : Axis) (depth max_future : Option ℤ)
    → IsAccepted mode axis depth max_future
    → validate_bootstrap mode axis depth max_future ≡ ok tt
unfolding validate_bootstrap is_hash_mode is_hash_axis validate_hash validate_range is_below
    accepted
validate_bootstrap-back mode axis depth max_future (by_hash (inl m) a) = rw (m, a) refl
validate_bootstrap-back mode axis depth max_future (by_hash (inr m) a) = rw (m, a) refl
validate_bootstrap-back mode axis depth max_future (by_number (inl m) a) = rw (m, a) refl
validate_bootstrap-back mode axis depth max_future (by_number (inr m) a) = rw (m, a) refl
validate_bootstrap-back mode axis depth max_future (by_time (inl m) a n k d dn f fk) =
    rw (m, a, d, f) (ground arith)
validate_bootstrap-back mode axis depth max_future (by_time (inr m) a n k d dn f fk) =
    rw (m, a, d, f) (ground arith)

-- ValidateBootstrap accepts exactly: the hash axis under the mode "hash" or none; and under the mode
-- "range" or none the numeric axis, or the time axis with a retention depth that is set and at least
-- one and a limit of future buckets that is set and at least zero.
pub validate_bootstrap-IsAccepted :
    (mode : Mode) (axis : Axis) (depth max_future : Option ℤ)
    → (validate_bootstrap mode axis depth max_future ≡ ok tt)
      ↔ IsAccepted mode axis depth max_future
validate_bootstrap-IsAccepted mode axis depth max_future = (
  validate_bootstrap-forth mode axis depth max_future,
  validate_bootstrap-back mode axis depth max_future,
)
