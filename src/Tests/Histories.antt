-- ===== src/Tests/Histories.antt =====
-- The theorems on the database at the cluster of five shards.
use shardman.Prelude.{◌≡◌, ◌≢◌, refl, true, none, some, List, [], ◌∷◌, All, any, all, count, find}
use shardman.Prelude.Int.{pos}
use shardman.Prelude.Results.{ok}
use shardman.Prelude.Text.{Text, codes, text_eq}
use shardman.Bucket.Key.{ShardKey, int64}
use shardman.Bucket.Spec.{time}
use shardman.Bucket.Routing.{range_mode}
use shardman.Fsm.{data_role, error_role, standby, active, draining, sealed, state_eq}
use shardman.Store.Shard.{Shard, in_bucket, bucket_is, in_standby_pool}
use shardman.Store.Register.{require_rows, is_available}
use shardman.Store.Db.{
  update, update_where, constraints_ok, one_active_per_bucket, clashes_active, one_error,
  known_state, bump_topology_version, bump_config,
}
use shardman.Store.Machine.{Op, rotate, start_drain, clean, apply, run}
use shardman.Store.Table.{Evolves}
use shardman.Store.Moves.{NewRow}
use shardman.Store.Lifecycle.{
  Follows, is_placed, apply-Follows, IsPlaced, run-IsPlaced, StaysStranded, AnyRow, run-IsStranded,
}
use shardman.Store.Topology.{Versioned, run-Versioned}
use shardman.Store.Rotate.{seal_rotate, begin_drain, begin_drain_tx, drain_row}
use shardman.Store.Rotation.{Rotation, seal_rotate-Rotation}
use shardman.Store.Config.{ClusterConfig, Store, get_config, bootstrap}
use shardman.Store.Cache.{Tells, get_config-IsCoherent, bootstrap-IsCoherent}
use shardman.Store.Described.{IsCoherent}
use shardman.Store.Reload.{GivesBack, bootstrap-GivesBack}
use shardman.Bucket.Spec.{parse_spec, IsPlain}
use shardman.Resolve.Active.{ensure_active}
use shardman.Resolve.Success.{Serves, ensure_active-Serves}
use shardman.Supervisors.Retention.{retention_round}
use shardman.Supervisors.Sparing.{Spares, retention_round-Spares}
use shardman.Supervisors.Fresh.{health_tick-Spares}
use shardman.Store.Shard.{is_fresh}
use shardman.Store.Promote.{Env}
use shardman.Supervisors.Health.{health_tick}
use shardman.Supervisors.Still.{Stays}
use shardman.Supervisors.Settled.{IsSettled, IsBelow, seal_round-Stays}
use shardman.Supervisors.Seal.{seal_round}
use shardman.Supervisors.Cleaning.{Cleans, retention_round-Cleans}
use shardman.Bucket.Routing.{buckets_outside_retention, outside, is_outside, oldest_index}
use shardman.Bucket.Id.{time_id, time_id_for, current_id, index}
use shardman.Bucket.Decimal.{padded, digits, is_digit}
use shardman.Bucket.Calendar.{
  format_as_day, format_date, format_month, format_year, civil_from_days, day_number, parse_as_day,
  days_in, days_from_civil,
}
use shardman.Prelude.Int.{wrap64, ◌+ℤ◌, ◌-ℤ◌}
use shardman.Store.Queries.{distinct_bucket_ids}
use shardman.Store.Moves.{NoRow}
use shardman.Tests.Cluster.{
  platform, spec_of_days, today, cluster, stranded, nothing_locked, env, config_row, cluster-IdsOk,
  stranded-IdsOk, cluster-IsSound, cluster-IsValid, shard_at,
}

-- A rotation of today's bucket.
abbrev rotation : Op
rotation = rotate nothing_locked today 100

abbrev ops : List Op
ops = rotation ∷ start_drain today 110 ∷ clean today ∷ []

apply-Follows_example : Evolves Follows NewRow cluster.shards (apply rotation cluster).shards
apply-Follows_example = apply-Follows rotation cluster cluster-IsSound

run-IsPlaced_example : All IsPlaced (run ops cluster).shards
unfolding is_placed
run-IsPlaced_example =
    run-IsPlaced ops cluster (refl, (refl, (refl, tt))) cluster-IsSound
      (λ e. cc, (λ e. refl, (λ e. refl, (λ e. refl, (λ e. refl, tt)))))

run-IsStranded_example : Evolves StaysStranded AnyRow stranded.shards (run ops stranded).shards
run-IsStranded_example = run-IsStranded ops stranded (refl, (refl, (refl, tt))) stranded-IdsOk

abbrev drain : List Op
drain = start_drain today 110 ∷ []

drained_config : (run drain cluster).config ≡ some (record config_row { topology_version = 5 })
unfolding run apply begin_drain begin_drain_tx update update_where constraints_ok
    one_active_per_bucket clashes_active one_error known_state any all count in_bucket bucket_is
    state_eq text_eq drain_row require_rows bump_topology_version bump_config
drained_config = refl

run-Versioned_example : Versioned cluster 4 (run drain cluster) 5
run-Versioned_example = run-Versioned drain cluster cluster-IdsOk refl drained_config

seal_rotate-Rotation_example :
    Rotation nothing_locked today 100 cluster (seal_rotate nothing_locked today 100 cluster)
seal_rotate-Rotation_example = seal_rotate-Rotation nothing_locked today 100 cluster cluster-IsValid

abbrev store : Store
store = record { db = cluster; config_cache = none; heartbeat_timeout = pos 30 }

abbrev key : ShardKey platform
key = int64 (pos 1704456000)

get_config-IsCoherent_example :
    Tells platform (run ops cluster) (get_config platform (record store { db = run ops cluster })).0
    × IsCoherent platform (get_config platform (record store { db = run ops cluster })).1
get_config-IsCoherent_example = get_config-IsCoherent platform ops store cluster-IdsOk tt

abbrev cluster_config : ClusterConfig
cluster_config = record {
  mode = range_mode;
  bucket_axis = time;
  bucket_spec = spec_of_days;
  bucket_spec_raw = codes "{}";
  shard_max_bytes = pos 5;
  retention_depth = some (pos 3);
  max_future_buckets = some (pos 1);
}

abbrev unconfigured : Store
unconfigured = record store { db = record cluster { config = none } }

bootstrap-IsCoherent_example :
    IsCoherent platform (bootstrap platform cluster_config unconfigured).1
bootstrap-IsCoherent_example = bootstrap-IsCoherent platform cluster_config unconfigured tt

-- Another process opens the database after a rotation.
abbrev restarted : Store
restarted = record unconfigured {
  db = run (rotation ∷ []) (bootstrap platform cluster_config unconfigured).1.db;
}

braces_nonempty : codes "{}" ≢ []
braces_nonempty e = cc

-- The text comes back as it is.
abbrev braces_plain : IsPlain platform (codes "{}")
braces_plain = record {
  normal = codes "{}";
  converts = refl;
  nonempty = braces_nonempty;
  same_unit = refl;
  same_width = refl;
  same_hash = refl;
}

bootstrap-GivesBack_example : GivesBack platform cluster_config (codes "{}") restarted
unfolding bootstrap parse_spec text_eq
bootstrap-GivesBack_example =
    bootstrap-GivesBack platform cluster_config unconfigured restarted (rotation ∷ []) braces_plain
      (record { rising = cluster-IdsOk.rising; below = cluster-IdsOk.below }) refl refl refl

-- A month later the buckets of the cluster are outside the window.
old_buckets :
    buckets_outside_retention spec_of_days (pos 1707134400) (pos 3) (distinct_bucket_ids cluster)
    ≡ ok (today ∷ [])
unfolding buckets_outside_retention outside is_outside oldest_index wrap64 ◌+ℤ◌ ◌-ℤ◌
    distinct_bucket_ids any text_eq current_id index time_id time_id_for format_as_day format_date
    format_month format_year civil_from_days day_number padded digits parse_as_day is_digit days_in
    days_from_civil
old_buckets = refl

retention_round-Cleans_example :
    ((retention_round cluster_config (pos 1707134400) cluster).0 ≡ ok tt)
    × Evolves
        (Cleans (today ∷ []))
        NoRow
        cluster.shards
        (retention_round cluster_config (pos 1707134400) cluster).1.shards
retention_round-Cleans_example =
    retention_round-Cleans cluster_config (pos 1707134400) cluster refl refl old_buckets

abbrev tomorrow : Text
tomorrow = codes "2024-01-06"

-- Tomorrow's bucket has no shard yet, and a standby is free.
ensure_active-Serves_example : Serves env tomorrow (ensure_active env tomorrow cluster)
unfolding find is_available in_standby_pool state_eq in_bucket bucket_is text_eq
ensure_active-Serves_example =
    ensure_active-Serves env tomorrow cluster cluster-IsValid refl
      (refl, (refl, (refl, (refl, (refl, tt)))))

-- Today's bucket has an active shard, so its sealed shard is kept a month later too.
retention_round-Spares_example :
    Evolves
      (Spares today)
      NoRow
      cluster.shards
      (retention_round cluster_config (pos 1707134400) cluster).1.shards
unfolding any in_bucket bucket_is state_eq text_eq
retention_round-Spares_example =
    retention_round-Spares cluster_config (pos 1707134400) today cluster refl

-- The heartbeats of the cluster are fresh for a longer timeout.
abbrev patient : Env
patient = record env { timeout = 1000 }

health_tick-Spares_example :
    Evolves (Spares today) NoRow cluster.shards (health_tick patient cluster).1.shards
unfolding find in_bucket bucket_is state_eq text_eq is_fresh
health_tick-Spares_example = health_tick-Spares patient today cluster cluster-IsValid refl refl

no_drain-IsSettled :
    (s : Shard)
    → s.state ≢ draining
    → (s.state ≡ active → IsBelow s.reported_bytes s.max_bytes (pos 9))
    → bucket_is s.bucket_id today ≡ true
    → IsSettled env.now 10 (pos 9) s
no_drain-IsSettled s calm small m = record {
  not_ready = λ e. absurd (calm e);
  waiting = λ e. absurd (calm e);
  below = small;
}

-- Today's active shard holds seven bytes of nine.
seal_round-Stays_example :
    Evolves (Stays today) NoRow cluster.shards (seal_round env 10 (pos 9) cluster).shards
seal_round-Stays_example = seal_round-Stays env 10 (pos 9) today cluster cluster-IdsOk (
  no_drain-IsSettled (shard_at 1 error_role active none) (λ e. cc e) (λ e. refl),
  (
    no_drain-IsSettled (shard_at 2 data_role active (some today)) (λ e. cc e) (λ e. refl),
    (
      no_drain-IsSettled (shard_at 3 data_role sealed (some today)) (λ e. cc e) (λ e. refl),
      (
        no_drain-IsSettled (shard_at 4 data_role standby none) (λ e. cc e) (λ e. refl),
        (no_drain-IsSettled (shard_at 5 data_role standby none) (λ e. cc e) (λ e. refl), tt),
      ),
    ),
  ),
)
