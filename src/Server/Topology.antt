-- ===== src/Server/Topology.antt =====
-- buildTopology and shardToProto of internal/grpcapi/server.go, and the messages that they fill. A
-- string field that is not set reads as the empty string.
use shardman.Prelude.{ℕ, Option, none, some, List, [], map, ◌-◌, ltb, if◌then◌else◌}
use shardman.Prelude.Int.{ℤ, pos, negsuc, mod_floor}
use shardman.Prelude.Text.{Text}
use shardman.Prelude.Results.{Result, ok, err}
use shardman.Bucket.Platform.{Platform}
use shardman.Bucket.Spec.{Axis}
use shardman.Bucket.Routing.{Mode}
use shardman.Fsm.{State, Role}
use shardman.Store.Shard.{Shard}
use shardman.Store.Queries.{list_shards, get_topology_version}
use shardman.Store.Config.{ClusterConfig, Store, get_config}

pub record ProtoShard : Type 0 where
  pub id : ℕ
  pub shard_uuid : ℕ
  pub role : Role
  pub bucket_id : Text
  pub state : State
  pub dsn : Text
  pub advertise_url : Text
  pub reported_bytes : ℤ
  pub max_bytes : ℤ
  pub version : ℕ

pub record ProtoConfig : Type 0 where
  pub mode : Mode
  pub bucket_axis : Axis
  pub bucket_spec_json : Text
  pub shard_max_bytes : ℤ
  pub retention_depth : Option ℤ
  pub max_future_buckets : Option ℤ

pub record Topology : Type 0 where
  pub topology_version : ℕ
  pub config : Option ProtoConfig
  pub shards : List ProtoShard

unfoldable pub text_or_empty : Option Text → Text
text_or_empty none = []
text_or_empty (some t) = t

number_or_zero : Option ℤ → ℤ
number_or_zero none = pos 0
number_or_zero (some n) = n

unfoldable pub shard_to_proto : Shard → ProtoShard
unfolding text_or_empty number_or_zero
shard_to_proto s = record {
  id = s.id;
  shard_uuid = s.shard_uuid;
  role = s.role;
  bucket_id = text_or_empty s.bucket_id;
  state = s.state;
  dsn = s.dsn;
  advertise_url = text_or_empty s.advertise_url;
  reported_bytes = s.reported_bytes;
  max_bytes = number_or_zero s.max_bytes;
  version = s.version;
}

-- The conversion of an int to an int32.
unfoldable pub wrap32 : ℤ → ℤ
wrap32 a =
    let r = mod_floor a 4294967296 in if ltb r 2147483648 then pos r else negsuc (4294967295 - r)

unfoldable pub wrap32? : Option ℤ → Option ℤ
wrap32? none = none
wrap32? (some n) = some (wrap32 n)

unfoldable pub config_to_proto : ClusterConfig → ProtoConfig
unfolding wrap32?
config_to_proto c = record {
  mode = c.mode;
  bucket_axis = c.bucket_axis;
  bucket_spec_json = c.bucket_spec_raw;
  shard_max_bytes = c.shard_max_bytes;
  retention_depth = wrap32? c.retention_depth;
  max_future_buckets = wrap32? c.max_future_buckets;
}

-- Without a configuration the topology has none.
unfoldable pub proto_config : Result ClusterConfig → Option ProtoConfig
proto_config (err e) = none
proto_config (ok c) = some (config_to_proto c)

-- Only ErrNotBootstrapped can come from the model's read of the version, which then is zero.
unfoldable pub version_or_zero : Result ℕ → ℕ
version_or_zero (err e) = 0
version_or_zero (ok v) = v

module _ (P : Platform) where
  unfoldable pub build_topology : Store → Topology × Store
  unfolding version_or_zero
  build_topology st =
      let (cfg, st') = get_config P st in
      (
        record {
          topology_version = version_or_zero (get_topology_version st.db);
          config = proto_config cfg;
          shards = map shard_to_proto (list_shards st'.db);
        },
        st',
      )
