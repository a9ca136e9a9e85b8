-- ===== src/Client/Local.antt =====
-- pkg/client/local.go: tryResolveWriteLocal and tryResolveReadLocal. The local resolution gives up,
-- and the client asks the server, wherever it returns none.
use shardman.Prelude.{Bool, not, ◌&&◌, ◌||◌, Option, none, some, List, [], ◌∷◌, map, filter, find}
use shardman.Prelude.Int.{ℤ}
use shardman.Prelude.Text.{Text, text_eq}
use shardman.Prelude.Results.{Result, ok, err}
use shardman.Bucket.Platform.{Platform}
use shardman.Bucket.Spec.{Spec, parse_spec}
use shardman.Bucket.Key.{ShardKey}
use shardman.Bucket.Id.{error_bucket_id}
use shardman.Bucket.Routing.{
  RouteKind, to_bucket, to_error, RouteReason, no_reason, evicted, WriteRoute, classify_write,
  classify_read,
}
use shardman.Fsm.{active, sealed, state_eq}
use shardman.Store.Shard.{is_data}
use shardman.Resolve.Service.{WriteResult, ReadShard, ReadResult, or_zero}
use shardman.Server.Topology.{ProtoShard, ProtoConfig, Topology}

pub record LocalClusterConfig : Type 0 where
  pub bucket_spec : Spec
  pub retention_depth : Option ℤ
  pub max_future_buckets : Option ℤ

abbrev text_or_other : Text → Text → Text
text_or_other [] t = t
text_or_other (c ∷ s) t = c ∷ s

unfoldable pub shard_endpoint : ProtoShard → Text
shard_endpoint sh = text_or_other sh.advertise_url sh.dsn

unfoldable pub find_error_shard : List ProtoShard → Option ProtoShard
find_error_shard = find (λ sh. not (is_data sh.role))

unfoldable pub is_active_in : Text → ProtoShard → Bool
is_active_in b sh = is_data sh.role && state_eq sh.state active && text_eq sh.bucket_id b

unfoldable pub find_active_for_bucket : List ProtoShard → Text → Option ProtoShard
find_active_for_bucket shards b = find (is_active_in b) shards

unfoldable pub is_readable_in : Text → ProtoShard → Bool
is_readable_in b sh =
    is_data sh.role
    && text_eq sh.bucket_id b
    && (state_eq sh.state active || state_eq sh.state sealed)

unfoldable pub shards_for_read : List ProtoShard → Text → List ProtoShard
shards_for_read shards b = filter (is_readable_in b) shards

unfoldable pub local_write_result : RouteKind → Text → RouteReason → ProtoShard → WriteResult
local_write_result kind b reason sh = record {
  routing = kind;
  bucket_id = b;
  reason = reason;
  shard_id = sh.id;
  uuid = sh.shard_uuid;
  endpoint_of = shard_endpoint sh;
  state = sh.state;
}

unfoldable pub local_read_shard : ProtoShard → ReadShard
local_read_shard sh = record {
  shard_id = sh.id;
  uuid = sh.shard_uuid;
  endpoint_of = shard_endpoint sh;
  state = sh.state;
}

-- What is made of a shard that was found.
abbrev pub with_shard : {B : Type 0} → (ProtoShard → B) → Option ProtoShard → Option B
with_shard f none = none
with_shard f (some sh) = some (f sh)

unfoldable pub write_locally : Topology → WriteRoute → Option WriteResult
write_locally topo route = elim route.kind [
  | to_error ↦
      with_shard (local_write_result to_error error_bucket_id route.reason)
        (find_error_shard topo.shards)
  | to_bucket ↦
      with_shard (local_write_result to_bucket route.bucket no_reason)
        (find_active_for_bucket topo.shards route.bucket)
]

unfoldable pub read_error_locally : Topology → RouteReason → Option ReadResult
read_error_locally topo evicted =
    some (record { routing = to_error; bucket_id = []; reason = evicted; shards = [] })
read_error_locally topo reason =
    with_shard
      (λ sh. record {
        routing = to_error;
        bucket_id = error_bucket_id;
        reason = reason;
        shards = local_read_shard sh ∷ [];
      })
      (find_error_shard topo.shards)

unfoldable pub read_matches : Text → List ProtoShard → Option ReadResult
read_matches b [] = none
read_matches b (sh ∷ rest) = some (record {
  routing = to_bucket;
  bucket_id = b;
  reason = no_reason;
  shards = map local_read_shard (sh ∷ rest);
})

unfoldable pub read_locally : Topology → WriteRoute → Option ReadResult
unfolding read_error_locally read_matches
read_locally topo route = elim route.kind [
  | to_error ↦ read_error_locally topo route.reason
  | to_bucket ↦ read_matches route.bucket (shards_for_read topo.shards route.bucket)
]

module _ (P : Platform) where
  unfoldable pub local_config : ProtoConfig → Result Spec → Option LocalClusterConfig
  local_config cfg (err e) = none
  local_config cfg (ok spec) = some (record {
    bucket_spec = spec;
    retention_depth = cfg.retention_depth;
    max_future_buckets = cfg.max_future_buckets;
  })

  -- clusterConfigFromProto, for a configuration that is there
  unfoldable pub cluster_config_from_proto : ProtoConfig → Option LocalClusterConfig
  unfolding local_config
  cluster_config_from_proto cfg =
      local_config cfg (parse_spec P cfg.bucket_axis cfg.bucket_spec_json)

  -- bucket.ClassifyWrite and bucket.ClassifyRead, as the two resolutions call them.
  abbrev pub Classify : Type 0
  Classify = Spec → ℤ → ShardKey P → (depth max_future : ℤ) → Result WriteRoute

  -- The clock is the client's own, in seconds since 1970.
  unfoldable pub classify_locally :
      Classify → ℤ → ShardKey P → Option LocalClusterConfig → Option WriteRoute
  classify_locally classify clock key none = none
  classify_locally classify clock key (some cfg) =
      elim (classify cfg.bucket_spec clock key (or_zero cfg.retention_depth)
        (or_zero cfg.max_future_buckets)) [ err e ↦ none | ok route ↦ some route ]

  unfoldable pub route_locally : Classify → ℤ → ShardKey P → Option ProtoConfig → Option WriteRoute
  unfolding classify_locally
  route_locally classify clock key none = none
  route_locally classify clock key (some cfg) =
      classify_locally classify clock key (cluster_config_from_proto cfg)

  unfoldable pub then_use : {B : Type 0} → (WriteRoute → Option B) → Option WriteRoute → Option B
  then_use f none = none
  then_use f (some route) = f route

  unfoldable pub try_resolve_write_local : ℤ → ShardKey P → Topology → Option WriteResult
  unfolding route_locally then_use
  try_resolve_write_local clock key topo =
      then_use (write_locally topo) (route_locally (classify_write P) clock key topo.config)

  unfoldable pub try_resolve_read_local : ℤ → ShardKey P → Topology → Option ReadResult
  unfolding route_locally then_use
  try_resolve_read_local clock key topo =
      then_use (read_locally topo) (route_locally (classify_read P) clock key topo.config)
