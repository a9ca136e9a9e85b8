-- ===== src/Tests/Cluster.antt =====
-- A platform to run on, and a cluster of four shards.
use shardman.Prelude.{
  ℕ, ◌+◌, refl, Bool, true, false, Option, none, some, [], ◌∷◌, length, any, all, arith,
}
use shardman.Prelude.Int.{ℤ, pos, ltb_ℤ}
use shardman.Prelude.Text.{Text, codes, text_eq}
use shardman.Bucket.Platform.{Platform}
use shardman.Bucket.Spec.{Spec, time, numeric, hash, day, xxhash64}
use shardman.Bucket.Routing.{range_mode}
use shardman.Fsm.{data_role, error_role, standby, active, sealed, State, Role, state_eq}
use shardman.Store.Shard.{Shard, in_bucket, bucket_is}
use shardman.Store.Db.{
  Db, ConfigRow, constraints_ok, one_active_per_bucket, clashes_active, one_error, known_state,
}
use shardman.Store.Moves.{IdsOk}
use shardman.Store.Lifecycle.{IsSound}
use shardman.Store.Rotation.{IsValid}
use shardman.Store.Promote.{Env}

-- Integers for floats, no case, no dates, a text's length for its hash, and bodies of one meaning.
abbrev pub platform : Platform
platform = record {
  Float = ℤ;
  float_to_int64 = λ x. x;
  float_is_int64 = λ x. true;
  float_exceeds = λ x n. ltb_ℤ n x;
  format_float = λ x. [];
  to_lower = λ t. t;
  parse_rfc3339 = λ t. none;
  sum64 = length;
  unmarshal_unit = λ t. some (codes "day");
  unmarshal_width = λ t. some (pos 100);
  unmarshal_hash = λ t. some (pos 8, []);
  jsonb = λ t. some (codes "{}");
}

abbrev pub spec_of_days : Spec
spec_of_days = record {
  axis = time;
  time_unit = day;
  width = pos 0;
  bucket_count = pos 0;
  hash_algo = [];
  raw = codes "{}";
}

abbrev pub spec_of_hundreds : Spec
spec_of_hundreds = record spec_of_days { axis = numeric; width = pos 100 }

abbrev pub spec_of_hashes : Spec
spec_of_hashes = record spec_of_days { axis = hash; bucket_count = pos 8; hash_algo = xxhash64 }

abbrev pub shard_at : ℕ → Role → State → Option Text → Shard
shard_at id role st b = record {
  id = id;
  shard_uuid = 100 + id;
  role = role;
  bucket_id = b;
  state = st;
  dsn = codes "postgres://";
  advertise_url = none;
  reported_bytes = pos 7;
  max_bytes = none;
  last_seen_at = some 10;
  sealed_at = none;
  drain_started_at = none;
  drain_ready = false;
  version = 1;
}

abbrev pub today : Text
today = codes "2024-01-05"

abbrev pub config_row : ConfigRow
config_row = record {
  mode = range_mode;
  bucket_axis = time;
  bucket_spec = codes "{}";
  shard_max_bytes = pos 5;
  retention_depth = some (pos 3);
  max_future_buckets = some (pos 1);
  topology_version = 4;
}

-- An error shard, an active and a sealed shard, and two standbys.
abbrev pub cluster : Db
cluster = record {
  config = some config_row;
  shards =
      shard_at 1 error_role active none
      ∷ shard_at 2 data_role active (some today)
      ∷ shard_at 3 data_role sealed (some today)
      ∷ shard_at 4 data_role standby none
      ∷ shard_at 5 data_role standby none
      ∷ [];
  next_id = 6;
  events = [];
}

-- The same cluster with a standby that kept its bucket.
abbrev pub stranded : Db
stranded = record cluster { shards = shard_at 4 data_role standby (some today) ∷ [] }

abbrev pub nothing_locked : ℕ → Bool
nothing_locked id = false

abbrev pub env : Env
env = record { now = 100; timeout = 30; locked = nothing_locked }

pub cluster-IdsOk : IdsOk cluster
cluster-IdsOk = record {
  rising = (omega arith, (omega arith, (omega arith, (omega arith, (omega arith, tt)))));
  below = (omega arith, (omega arith, (omega arith, (omega arith, (omega arith, tt)))));
}

pub stranded-IdsOk : IdsOk stranded
stranded-IdsOk = record { rising = (omega arith, tt); below = (omega arith, tt) }

pub cluster-IsSound : IsSound cluster
cluster-IsSound = record {
  ids = cluster-IdsOk;
  errors = (λ e. (refl, refl), (λ e. cc, (λ e. cc, (λ e. cc, (λ e. cc, tt)))));
}

pub cluster-IsValid : IsValid cluster
unfolding constraints_ok one_active_per_bucket clashes_active one_error known_state any all
    in_bucket bucket_is state_eq text_eq
cluster-IsValid = record { ids = cluster-IdsOk; constraints = refl }
