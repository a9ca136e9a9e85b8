-- ===== src/Tests/Clients.antt =====
-- The local resolution at the cluster of five shards.
use shardman.Prelude.{
  ℕ, true, Option, [], ◌∷◌, ◌≡◌, refl, none, some, find, filter, any, all, count, arith,
}
use shardman.Prelude.Int.{ℤ, pos, wrap64, ◌+ℤ◌, ◌-ℤ◌}
use shardman.Prelude.Text.{Text, codes, text_eq}
use shardman.Prelude.Results.{ok}
use shardman.Fsm.{active, sealed, state_eq, can_transition}
use shardman.Bucket.Decimal.{padded, digits, is_digit}
use shardman.Bucket.Calendar.{
  format_as_day, format_date, format_month, format_year, civil_from_days, day_number, parse_as_day,
  days_in, days_from_civil,
}
use shardman.Bucket.Spec.{parse_spec}
use shardman.Bucket.Key.{ShardKey, int64, parse_time_key, seconds_or_millis}
use shardman.Bucket.Id.{time_id, time_id_for, bucket_id, index, current_id}
use shardman.Bucket.Routing.{
  to_bucket, no_reason, WriteRoute, classify_write, classify_read, classify_index, oldest_index,
}
use shardman.Store.Queries.{list_stale_actives, has_bucket, list_shards}
use shardman.Store.Shard.{is_fresh, in_bucket, bucket_is}
use shardman.Client.Messages.{HasBucketIn, serves_writes, serves_reads}
use shardman.Store.Config.{ClusterConfig, Store, get_config, load_config_from_db}
use shardman.Store.Promote.{Env}
use shardman.Resolve.Service.{
  WriteResult, ReadResult, ReadShard, or_zero, resolve_write, resolve_read,
}
use shardman.Server.Topology.{
  shard_to_proto, text_or_empty, wrap32, proto_config, config_to_proto, build_topology,
}
use shardman.Client.Local.{
  shard_endpoint, is_active_in, find_active_for_bucket, local_write_result, write_locally,
  cluster_config_from_proto, route_locally, try_resolve_write_local, is_readable_in,
  shards_for_read, local_read_shard, read_locally, try_resolve_read_local,
}
use shardman.Resolve.Answers.{AnswersWrite, resolve_write-Answers}
use shardman.Store.Register.{is_available}
use shardman.Store.Shard.{in_standby_pool}
use shardman.Client.Agreement.{Answers, IsServing, try_resolve_write_local-resolve_write}
use shardman.Client.Reads.{AnswersRead, IsServingReads, try_resolve_read_local-resolve_read}
use shardman.Client.Remote.{Client, client_write, client_read, admin, admin_call, admin_metadata}
use shardman.Client.Fallback.{
  Returns, write_outcome, read_outcome, client_write-resolve_write, client_read-resolve_read,
}
use shardman.Client.Refresh.{IsFresh, admin-IsFresh}
use shardman.Server.Requests.{Request, patch_one}
use shardman.Server.Replies.{Server, Call, done_reply, notify_all, notify_with}
use shardman.Server.Handlers.{serve}
use shardman.Store.Rotate.{patch_state, patch_state_tx, validate_transition, patch_row}
use shardman.Store.Register.{require_rows}
use shardman.Store.Db.{
  select_row, update, update_where, constraints_ok, one_active_per_bucket, clashes_active,
  one_error, known_state, bump_topology_version, bump_config,
}
use shardman.Server.Access.{require_key, check_key, check_values}
use shardman.Tests.Cluster.{
  platform, spec_of_days, today, cluster, env, config_row, cluster-IsValid,
}

abbrev patient : Env
patient = record env { timeout = 1000 }

abbrev noon : ℤ
noon = pos 1704456000

abbrev key : ShardKey platform
key = int64 noon

abbrev store : Store
store = record { db = cluster; config_cache = none; heartbeat_timeout = pos 30 }

abbrev answer : WriteResult
answer = record {
  routing = to_bucket;
  bucket_id = today;
  reason = no_reason;
  shard_id = 2;
  uuid = 102;
  endpoint_of = codes "postgres://";
  state = active;
}

abbrev loaded : ClusterConfig
loaded = record {
  mode = config_row.mode;
  bucket_axis = config_row.bucket_axis;
  bucket_spec = spec_of_days;
  bucket_spec_raw = config_row.bucket_spec;
  shard_max_bytes = config_row.shard_max_bytes;
  retention_depth = config_row.retention_depth;
  max_future_buckets = config_row.max_future_buckets;
}

loads : (get_config platform store).0 ≡ ok loaded
unfolding get_config load_config_from_db parse_spec text_eq
loads = refl

serves : IsServing patient cluster
unfolding list_stale_actives has_bucket is_fresh filter state_eq HasBucketIn serves_writes
serves = ((refl, (refl, (refl, (refl, (refl, tt))))), refl)

serves_readers : IsServingReads patient cluster
unfolding list_stale_actives has_bucket is_fresh filter state_eq HasBucketIn serves_reads
serves_readers = ((refl, (refl, (refl, (refl, (refl, tt))))), refl)

resolves : try_resolve_write_local platform noon key (build_topology platform store).0 ≡ some answer
unfolding try_resolve_write_local build_topology get_config load_config_from_db parse_spec
    proto_config config_to_proto wrap32 cluster_config_from_proto route_locally classify_write
    bucket_id parse_time_key seconds_or_millis time_id time_id_for format_as_day format_date
    format_month format_year civil_from_days day_number padded digits current_id index parse_as_day
    is_digit days_in days_from_civil classify_index oldest_index wrap64 ◌+ℤ◌ ◌-ℤ◌ write_locally
    find_active_for_bucket is_active_in find state_eq text_eq shard_to_proto text_or_empty
    list_shards local_write_result shard_endpoint
resolves = refl

try_resolve_write_local-resolve_write_example :
    Answers answer cluster (resolve_write platform patient noon key store)
try_resolve_write_local-resolve_write_example =
    try_resolve_write_local-resolve_write platform patient noon key store tt loads
      (omega arith, omega arith) (omega arith, omega arith) serves resolves

abbrev two : ReadShard
two = record { shard_id = 2; uuid = 102; endpoint_of = codes "postgres://"; state = active }

abbrev three : ReadShard
three = record { shard_id = 3; uuid = 103; endpoint_of = codes "postgres://"; state = sealed }

abbrev read_answer : ReadResult
read_answer = record {
  routing = to_bucket;
  bucket_id = today;
  reason = no_reason;
  shards = two ∷ three ∷ [];
}

resolves_read :
    try_resolve_read_local platform noon key (build_topology platform store).0 ≡ some read_answer
unfolding try_resolve_read_local build_topology get_config load_config_from_db parse_spec
    proto_config config_to_proto wrap32 cluster_config_from_proto route_locally classify_read
    classify_write bucket_id parse_time_key seconds_or_millis time_id time_id_for format_as_day
    format_date format_month format_year civil_from_days day_number padded digits current_id index
    parse_as_day is_digit days_in days_from_civil classify_index oldest_index wrap64 ◌+ℤ◌ ◌-ℤ◌
    read_locally shards_for_read is_readable_in filter state_eq text_eq shard_to_proto text_or_empty
    list_shards local_read_shard shard_endpoint
resolves_read = refl

try_resolve_read_local-resolve_read_example :
    AnswersRead read_answer cluster (resolve_read platform patient noon key store)
try_resolve_read_local-resolve_read_example =
    try_resolve_read_local-resolve_read platform patient noon key store tt loads
      (omega arith, omega arith) (omega arith, omega arith) serves_readers resolves_read

abbrev server : Server
server = record { cluster_key = codes "key"; has_retention = true; store = store; broadcast = none }

abbrev client : Client
client = record {
  cluster_key = codes "key";
  topo = some (build_topology platform store).0;
  topo_version = 4;
}

abbrev call : Call
call = record { metadata = some []; env = patient; clock = noon }

abbrev no_uuid : Text → Option ℕ
no_uuid t = none

abbrev as_it_is : ShardKey platform → Option (ShardKey platform)
as_it_is k = some k

client_write-resolve_write_example :
    Returns platform no_uuid as_it_is
      (client_write platform no_uuid as_it_is call noon key client server)
      (write_outcome (resolve_write platform patient noon key store).0)
      (resolve_write platform patient noon key store).1.db
client_write-resolve_write_example =
    client_write-resolve_write platform no_uuid as_it_is call key client server tt loads
      (omega arith, omega arith) (omega arith, omega arith) serves refl refl

client_read-resolve_read_example :
    Returns platform no_uuid as_it_is
      (client_read platform no_uuid as_it_is call noon key client server)
      (read_outcome (resolve_read platform patient noon key store).0)
      (resolve_read platform patient noon key store).1.db
client_read-resolve_read_example =
    client_read-resolve_read platform no_uuid as_it_is call key client server tt loads
      (omega arith, omega arith) (omega arith, omega arith) serves_readers refl refl

-- The active shard is sealed by hand.
abbrev patching : Request platform
patching = patch_one 2 sealed

admin-IsFresh_example :
    IsFresh
      (admin platform no_uuid as_it_is patient noon patching client server).1.0
      (admin platform no_uuid as_it_is patient noon patching client server).1.1
unfolding serve require_key admin_call admin_metadata check_key check_values text_eq patch_state
    patch_state_tx select_row find validate_transition can_transition update update_where patch_row
    constraints_ok one_active_per_bucket clashes_active one_error known_state any all count
    require_rows bump_topology_version bump_config in_bucket bucket_is state_eq done_reply
    notify_all notify_with
admin-IsFresh_example =
    admin-IsFresh platform no_uuid as_it_is patient noon patching client server refl refl

abbrev todays : WriteRoute
todays = record { kind = to_bucket; bucket = today; reason = no_reason }

routes :
    classify_write platform loaded.bucket_spec noon key
      (or_zero loaded.retention_depth)
      (or_zero loaded.max_future_buckets)
    ≡ ok todays
unfolding classify_write bucket_id parse_time_key seconds_or_millis time_id time_id_for
    format_as_day format_date format_month format_year civil_from_days day_number padded digits
    current_id index parse_as_day is_digit days_in days_from_civil classify_index oldest_index
    wrap64 ◌+ℤ◌ ◌-ℤ◌ text_eq
routes = refl

-- The heartbeat of today's active shard is silent, and it is replaced.
resolve_write-Answers_example : AnswersWrite env today (resolve_write platform env noon key store)
unfolding find is_available in_standby_pool state_eq in_bucket bucket_is text_eq
resolve_write-Answers_example =
    resolve_write-Answers platform env noon key store loads routes refl cluster-IsValid refl
      (refl, (refl, (refl, (refl, (refl, tt)))))
