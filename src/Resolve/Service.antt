-- ===== src/Resolve/Service.antt =====
-- ResolveWrite and ResolveRead of internal/resolve/resolve.go.
use shardman.Prelude.{ℕ, Option, none, some, List, [], ◌∷◌, map}
use shardman.Prelude.Int.{ℤ, pos}
use shardman.Prelude.Text.{Text}
use shardman.Prelude.Results.{Result, ok, err}
use shardman.Fsm.{State}
use shardman.Bucket.Platform.{Platform}
use shardman.Bucket.Key.{ShardKey}
use shardman.Bucket.Id.{error_bucket_id}
use shardman.Bucket.Routing.{
  RouteKind, to_bucket, to_error, RouteReason, no_reason, evicted, WriteRoute, classify_write,
  classify_read,
}
use shardman.Store.Shard.{Shard}
use shardman.Store.Db.{Db}
use shardman.Store.Queries.{endpoint, get_error_shard, shards_for_bucket_read}
use shardman.Store.Config.{ClusterConfig, Store, get_config}
use shardman.Store.Promote.{Env}
use shardman.Resolve.Active.{ensure_active}

pub record WriteResult : Type 0 where
  pub routing : RouteKind
  pub bucket_id : Text
  pub reason : RouteReason
  pub shard_id : ℕ
  pub uuid : ℕ
  pub endpoint_of : Text
  pub state : State

pub record ReadShard : Type 0 where
  pub shard_id : ℕ
  pub uuid : ℕ
  pub endpoint_of : Text
  pub state : State

pub record ReadResult : Type 0 where
  pub routing : RouteKind
  pub bucket_id : Text
  pub reason : RouteReason
  pub shards : List ReadShard

-- A pointer to an int that is nil stands for 0 here.
abbrev pub or_zero : Option ℤ → ℤ
or_zero none = pos 0
or_zero (some n) = n

unfoldable pub write_result : RouteKind → Text → RouteReason → Shard → WriteResult
write_result kind b reason s = record {
  routing = kind;
  bucket_id = b;
  reason = reason;
  shard_id = s.id;
  uuid = s.shard_uuid;
  endpoint_of = endpoint s.advertise_url s.dsn;
  state = s.state;
}

unfoldable pub read_shard : Shard → ReadShard
read_shard s = record {
  shard_id = s.id;
  uuid = s.shard_uuid;
  endpoint_of = endpoint s.advertise_url s.dsn;
  state = s.state;
}

-- The rest of a resolution works on the database alone.
unfoldable pub with_result : {A B : Type 0} → (A → B) → Result A × Db → Store → Result B × Store
with_result f (ok a, d) st = (ok (f a), record st { db = d })
with_result f (err e, d) st = (err e, record st { db = d })

unfoldable pub write_to : Env → WriteRoute → Store → Result WriteResult × Store
unfolding with_result
write_to env route st = elim route.kind [
  | to_error ↦
      with_result (write_result to_error error_bucket_id route.reason)
        (get_error_shard st.db, st.db) st
  | to_bucket ↦
      with_result (write_result to_bucket route.bucket no_reason)
        (ensure_active env route.bucket st.db) st
]

unfoldable pub read_error : RouteReason → Store → Result ReadResult × Store
unfolding with_result
read_error evicted st =
    (ok (record { routing = to_error; bucket_id = []; reason = evicted; shards = [] }), st)
read_error reason st =
    with_result
      (λ s. record {
        routing = to_error;
        bucket_id = error_bucket_id;
        reason = reason;
        shards = read_shard s ∷ [];
      })
      (get_error_shard st.db, st.db) st

unfoldable pub read_result : Text → List Shard → ReadResult
read_result b shards = record {
  routing = to_bucket;
  bucket_id = b;
  reason = no_reason;
  shards = map read_shard shards;
}

-- A bucket with no readable shard gets an active one first.
unfoldable pub read_bucket : Env → Text → List Shard → Store → Result ReadResult × Store
unfolding with_result read_result
read_bucket env b [] st = with_result (λ s. read_result b (s ∷ [])) (ensure_active env b st.db) st
read_bucket env b (s ∷ shards) st = (ok (read_result b (s ∷ shards)), st)

unfoldable pub read_from : Env → WriteRoute → Store → Result ReadResult × Store
unfolding read_error read_bucket
read_from env route st = elim route.kind [
  | to_error ↦ read_error route.reason st
  | to_bucket ↦
      read_bucket env route.bucket (shards_for_bucket_read env.now env.timeout route.bucket st.db)
        st
]

module _ (P : Platform) where
  unfoldable pub routed :
      {A : Type 0}
      → (WriteRoute → Store → Result A × Store)
      → Result WriteRoute
      → Store
      → Result A × Store
  routed use_route (err e) st = (err e, st)
  routed use_route (ok r) st = use_route r st

  unfoldable pub configured :
      {A : Type 0}
      → (ClusterConfig → Store → Result A × Store)
      → Result ClusterConfig × Store
      → Result A × Store
  configured use_config (err e, st) = (err e, st)
  configured use_config (ok c, st) = use_config c st

  -- `clock` is the resolver's own clock, in seconds since 1970.
  unfoldable pub resolve_write : Env → ℤ → ShardKey P → Store → Result WriteResult × Store
  unfolding configured routed write_to
  resolve_write env clock key st =
      configured
        (λ c. routed (write_to env) (
          classify_write P c.bucket_spec clock key (or_zero c.retention_depth)
            (or_zero c.max_future_buckets)))
        (get_config P st)

  unfoldable pub resolve_read : Env → ℤ → ShardKey P → Store → Result ReadResult × Store
  unfolding configured routed read_from
  resolve_read env clock key st =
      configured
        (λ c. routed (read_from env) (
          classify_read P c.bucket_spec clock key (or_zero c.retention_depth)
            (or_zero c.max_future_buckets)))
        (get_config P st)
