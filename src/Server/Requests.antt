-- ===== src/Server/Requests.antt =====
-- The requests and replies of internal/grpcapi/server.go.
use shardman.Prelude.{ℕ, Bool, true, false, Option, List}
use shardman.Prelude.Int.{ℤ}
use shardman.Prelude.Text.{Text}
use shardman.Bucket.Platform.{Platform}
use shardman.Bucket.Key.{ShardKey}
use shardman.Bucket.Spec.{Axis}
use shardman.Bucket.Routing.{Mode}
use shardman.Fsm.{State}
use shardman.Resolve.Service.{WriteResult, ReadResult}
use shardman.Server.Access.{Code}
use shardman.Server.Topology.{ProtoShard, Topology}

pub record BootstrapRequest : Type 0 where
  pub mode : Mode
  pub bucket_axis : Axis
  pub bucket_spec_json : Text
  pub shard_max_bytes : ℤ
  pub retention_depth : Option ℤ
  pub max_future_buckets : Option ℤ

pub record RegisterRequest : Type 0 where
  pub shard_uuid : Text
  pub role : Text
  pub dsn : Text
  pub advertise_url : Text
  pub startup_state : State

-- One constructor for each method of the four services but Watch. A shard key that is not set is
-- `none`; one that is set has been through structpb's AsInterface.
pub data Request (P : Platform) : Type 0 where
  write : Option (ShardKey P) → Request P
  read : Option (ShardKey P) → Request P
  list_bucket_shards : Text → Request P
  get : Request P
  bootstrap_cluster : BootstrapRequest → Request P
  list_all : Request P
  register_one : RegisterRequest → Request P
  seal_one : Text → Request P
  patch_one : (id : ℕ) → State → Request P
  retention_round : Request P
  report_stats : (uuid : Text) (bytes : ℤ) → Request P
  report_cleaned : (uuid : Text) → Request P
  report_drain_complete : (uuid : Text) → Request P

pub data Reply : Type 0 where
  failed : Code → Reply
  written : WriteResult → Reply
  found : ReadResult → Reply
  bucket_shards : Text → List ProtoShard → Reply
  topology : Topology → Reply
  bootstrapped : (min_shards : ℤ) → Reply
  shards : List ProtoShard → Reply
  registered : ProtoShard → Reply
  rotated : Text → Reply
  accepted : Reply
  reported : Option State → Reply

abbrev pub is_failed : Reply → Bool
is_failed (failed c) = true
is_failed _ = false
