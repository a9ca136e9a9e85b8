-- ===== src/Store/Config.antt =====
-- The cluster configuration of internal/store/store.go: Bootstrap, the cache, and GetConfig.
use shardman.Prelude.{Option, none, some}
use shardman.Prelude.Int.{ℤ}
use shardman.Prelude.Text.{Text}
use shardman.Prelude.Results.{
  Result, ok, err, library_error, already_bootstrapped, not_bootstrapped,
}
use shardman.Bucket.Platform.{Platform}
use shardman.Bucket.Spec.{Axis, Spec, parse_spec}
use shardman.Bucket.Routing.{Mode}
use shardman.Store.Db.{Db, ConfigRow}

pub record ClusterConfig : Type 0 where
  pub mode : Mode
  pub bucket_axis : Axis
  pub bucket_spec : Spec
  pub bucket_spec_raw : Text
  pub shard_max_bytes : ℤ
  pub retention_depth : Option ℤ
  pub max_future_buckets : Option ℤ

-- The fields of the type Store: the pool, the cached configuration, and the heartbeat timeout.
pub record Store : Type 0 where
  pub db : Db
  pub config_cache : Option ClusterConfig
  pub heartbeat_timeout : ℤ

-- The row of a configuration; `stored` is what the column bucket_spec, a JSONB, holds.
unfoldable pub row_of : ClusterConfig → Text → ConfigRow
row_of c stored = record {
  mode = c.mode;
  bucket_axis = c.bucket_axis;
  bucket_spec = stored;
  shard_max_bytes = c.shard_max_bytes;
  retention_depth = c.retention_depth;
  max_future_buckets = c.max_future_buckets;
  topology_version = 1;
}

unfoldable pub config_of : ConfigRow → Spec → ClusterConfig
config_of r spec = record {
  mode = r.mode;
  bucket_axis = r.bucket_axis;
  bucket_spec = spec;
  bucket_spec_raw = r.bucket_spec;
  shard_max_bytes = r.shard_max_bytes;
  retention_depth = r.retention_depth;
  max_future_buckets = r.max_future_buckets;
}

-- The cache keeps the client's text, whatever the column makes of it.
unfoldable pub insert_stored : ClusterConfig → Option Text → Store → Result (Unit {0}) × Store
unfolding row_of
insert_stored c none st = (err library_error, st)
insert_stored c (some stored) st = (
  ok tt,
  record st { db = record st.db { config = some (row_of c stored) }; config_cache = some c },
)

module _ (P : Platform) where
  unfoldable pub insert_config : ClusterConfig → Result Spec → Store → Result (Unit {0}) × Store
  unfolding insert_stored
  insert_config c (err e) st = (err e, st)
  insert_config c (ok spec) st =
      insert_stored (record c { bucket_spec = spec }) (P.jsonb c.bucket_spec_raw) st

  unfoldable pub bootstrap_at : Option ConfigRow → ClusterConfig → Store → Result (Unit {0}) × Store
  unfolding insert_config
  bootstrap_at (some row) c st = (err already_bootstrapped, st)
  bootstrap_at none c st = insert_config c (parse_spec P c.bucket_axis c.bucket_spec_raw) st

  -- The row is inserted, and after the commit the cache holds the configuration.
  unfoldable pub bootstrap : ClusterConfig → Store → Result (Unit {0}) × Store
  unfolding bootstrap_at
  bootstrap c st = bootstrap_at st.db.config c st

  unfoldable pub config_with : ConfigRow → Result Spec → Result ClusterConfig
  unfolding config_of
  config_with r (err e) = err e
  config_with r (ok spec) = ok (config_of r spec)

  unfoldable pub load_row : Option ConfigRow → Result ClusterConfig
  unfolding config_with
  load_row none = err not_bootstrapped
  load_row (some r) = config_with r (parse_spec P r.bucket_axis r.bucket_spec)

  -- loadConfigFromDB
  unfoldable pub load_config_from_db : Db → Result ClusterConfig
  unfolding load_row
  load_config_from_db d = load_row d.config

  unfoldable store_config_cache : Option ClusterConfig → Store → Store
  store_config_cache c st = record st { config_cache = c }

  unfoldable invalidate_config_cache : Store → Store
  invalidate_config_cache st = record st { config_cache = none }

  unfoldable pub remember : Result ClusterConfig → Store → Result ClusterConfig × Store
  remember (err e) st = (err e, st)
  remember (ok c) st = (ok c, record st { config_cache = some c })

  unfoldable pub get_config_at : Option ClusterConfig → Store → Result ClusterConfig × Store
  unfolding remember
  get_config_at (some c) st = (ok c, st)
  get_config_at none st = remember (load_config_from_db st.db) st

  -- GetConfig: from the cache, or else from the database into the cache.
  unfoldable pub get_config : Store → Result ClusterConfig × Store
  unfolding get_config_at
  get_config st = get_config_at st.config_cache st
