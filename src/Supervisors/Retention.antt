-- ===== src/Supervisors/Retention.antt =====
-- internal/retention/retention.go: the sealed shards of buckets that left the window are cleaned.
use shardman.Prelude.{Option, none, some, List, [], ◌∷◌, if◌then◌else◌}
use shardman.Prelude.Int.{ℤ}
use shardman.Prelude.Text.{Text}
use shardman.Prelude.Results.{Result, ok, err}
use shardman.Bucket.Platform.{Platform}
use shardman.Bucket.Spec.{Axis, time, Spec}
use shardman.Bucket.Routing.{buckets_outside_retention}
use shardman.Store.Db.{Db}
use shardman.Store.Queries.{has_active_in_bucket, distinct_bucket_ids}
use shardman.Store.Rotate.{mark_bucket_cleaning}
use shardman.Store.Config.{ClusterConfig, Store, get_config}

-- A bucket with an active or draining shard is passed over, and so is one whose update fails.
unfoldable pub evict_bucket : Text → Db → Db
evict_bucket b d = if has_active_in_bucket b d then d else (mark_bucket_cleaning b d).1

unfoldable pub evict_all : List Text → Db → Db
evict_all [] d = d
evict_all (b ∷ bs) d = evict_all bs (evict_bucket b d)

unfoldable pub evict_result : Result (List Text) → Db → Result (Unit {0}) × Db
evict_result (err e) d = (err e, d)
evict_result (ok bs) d = (ok tt, evict_all bs d)

-- One round on the time axis; a configuration of another axis, or with no depth, has no retention.
unfoldable pub retain : Axis → Spec → Option ℤ → ℤ → Db → Result (Unit {0}) × Db
unfolding evict_result
retain time spec (some depth) clock d =
    evict_result (buckets_outside_retention spec clock depth (distinct_bucket_ids d)) d
retain time spec none clock d = (ok tt, d)
retain _ spec depth clock d = (ok tt, d)

unfoldable pub retention_round : ClusterConfig → ℤ → Db → Result (Unit {0}) × Db
unfolding retain
retention_round c clock d = retain c.bucket_axis c.bucket_spec c.retention_depth clock d

module _ (P : Platform) where
  unfoldable pub tick_with : ℤ → Result ClusterConfig × Store → Result (Unit {0}) × Store
  tick_with clock (err e, st) = (err e, st)
  tick_with clock (ok c, st) =
      let (r, d) = retention_round c clock st.db in (r, record st { db = d })

  -- Supervisor.tick at the supervisor's clock.
  unfoldable pub retention_tick : ℤ → Store → Result (Unit {0}) × Store
  unfolding tick_with
  retention_tick clock st = tick_with clock (get_config P st)
