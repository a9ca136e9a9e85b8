-- ===== src/Prelude/Results.antt =====
-- Results with Go's error values. `errors.Is` tells the four sentinels of internal/store/store.go
-- apart; every other message of the program has a constructor too, less its formatted arguments.
use mathlib.Core.Option.{Option, none, some}
use mathlib.Core.Bool.{Bool, true, false}

pub data Error : Type 0 where
  -- the sentinels of the store
  already_bootstrapped not_bootstrapped conflict not_found : Error
  -- PostgreSQL refuses a statement that would break a constraint of the migrations
  constraint_violation : Error
  startup_state_must_be_standby invalid_transition : Error
  -- what a call of the Go library reports
  library_error : Error
  bucket_spec_required unsupported_time_unit width_must_be_positive : Error
  bucket_count_must_be_positive unsupported_hash_algo unsupported_axis : Error
  no_current_bucket index_only_for_time_axis invalid_month_bucket_id unsupported_unit : Error
  unsupported_shard_key invalid_time_shard_key : Error
  unsupported_mode hash_requires_mode hash_requires_axis : Error
  retention_depth_required max_future_required : Error
  metadata_dsn_required agent_settings_required unknown_size_source : Error

pub data Result {ℓ} (A : Type ℓ) : Type ℓ where
  ok : A → Result A
  err : Error → Result A

-- `errors.Is(err, ErrNotFound)` and `errors.Is(err, ErrConflict)`.
unfoldable pub is_not_found : Error → Bool
is_not_found not_found = true
is_not_found _ = false

unfoldable pub is_conflict : Error → Bool
is_conflict conflict = true
is_conflict _ = false

infixl 5 ◌>>=◌
abbrev pub ◌>>=◌ {ℓ κ} : {A : Type ℓ} {B : Type κ} → Result A → (A → Result B) → Result B
ok a >>= f = f a
err e >>= f = err e

abbrev pub from_option {ℓ} : {A : Type ℓ} → Error → Option A → Result A
from_option e none = err e
from_option e (some a) = ok a
