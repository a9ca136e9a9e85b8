-- ===== src/Server/Configured.antt =====
-- What an accepted Bootstrap of internal/grpcapi/server.go leaves in the database.
use shardman.Prelude.{◌≡◌, true, some}
use shardman.Prelude.Int.{ℤ, pos, ltb_ℤ}
use shardman.Prelude.Text.{Text}
use shardman.Prelude.Results.{ok}
use shardman.Bucket.Platform.{Platform}
use shardman.Bucket.Spec.{Spec, parse_spec, is_usable}
use shardman.Bucket.Routing.Accepted.{IsAccepted}
use shardman.Store.Db.{Db, ConfigRow}
use shardman.Store.Config.{ClusterConfig, Store, row_of}
use shardman.Server.Requests.{Reply, bootstrapped}
use shardman.Server.Replies.{Server, min_shards_for}

module _ (P : Platform) where
  -- The stored configuration is one that makes sense, its specification is that of the text `json`,
  -- and `n` is what the reply tells.
  pub record IsConfigured (json : Text) (n : ℤ) (d : Db) : Type 0 where
    pub row : ConfigRow
    pub stored : d.config ≡ some row
    pub accepted : IsAccepted row.mode row.bucket_axis row.retention_depth row.max_future_buckets
    pub limited : ltb_ℤ (pos 0) row.shard_max_bytes ≡ true
    pub spec : Spec
    pub parses : parse_spec P row.bucket_axis json ≡ ok spec
    pub usable : is_usable spec ≡ true
    pub text : P.jsonb json ≡ some row.bucket_spec
    pub told : n ≡ min_shards_for row.bucket_axis row.retention_depth row.max_future_buckets

  -- The row that Bootstrap inserts.
  record Stored (c : ClusterConfig) (spec : Spec) (d : Db) : Type 0 where
    given_back : Text
    converts : P.jsonb c.bucket_spec_raw ≡ some given_back
    config : d.config ≡ some (row_of (record c { bucket_spec = spec }) given_back)

  abbrev Configures : Text → Reply × Server → Type 0
  Configures json r = (n : ℤ) → r.0 ≡ bootstrapped n → IsConfigured json n r.1.store.db
