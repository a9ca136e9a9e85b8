-- ===== src/Store/Queries.antt =====
-- The reads of internal/store/store.go. Each is one statement, so it sees one state of the
-- database; `now` is NOW() and `timeout` the heartbeat timeout, in nanoseconds.
use shardman.Prelude.{
  ℕ, suc, ltb, ◌==◌, Bool, true, false, not, ◌&&◌, ◌||◌, Option, none, some, List, [], ◌∷◌,
  if◌then◌else◌, filter, find, count, any,
}
use shardman.Prelude.Int.{ℤ, pos, ltb_ℤ}
use shardman.Prelude.Text.{Text, text_eq}
use shardman.Prelude.Results.{Result, ok, err, not_found, not_bootstrapped}
use shardman.Fsm.{active, draining, sealed, state_eq}
use shardman.Store.Shard.{Shard, is_data, bucket_is, in_bucket, in_standby_pool, is_fresh}
use shardman.Store.Db.{Db, ConfigRow}

-- What `scanShard` and `pgx.ErrNoRows` make of the first row.
unfoldable pub or_not_found : Option Shard → Result Shard
or_not_found none = err not_found
or_not_found (some s) = ok s

unfoldable pub list_shards : Db → List Shard
list_shards d = d.shards

unfoldable pub get_shard_by_id : ℕ → Db → Result Shard
unfolding or_not_found
get_shard_by_id id d = or_not_found (find (λ s. s.id == id) d.shards)

unfoldable pub get_shard_by_uuid : ℕ → Db → Result Shard
unfolding or_not_found
get_shard_by_uuid u d = or_not_found (find (λ s. s.shard_uuid == u) d.shards)

unfoldable pub get_error_shard : Db → Result Shard
unfolding or_not_found
get_error_shard d = or_not_found (find (λ s. not (is_data s.role)) d.shards)

-- role = 'data' AND bucket_id = $1 AND state = 'active', and the heartbeat is fresh
unfoldable pub is_active_for : (now timeout : ℕ) → Text → Shard → Bool
is_active_for now timeout b s = in_bucket b active s && is_fresh now timeout s.last_seen_at

unfoldable pub active_for_bucket : (now timeout : ℕ) → Text → Db → Result Shard
unfolding or_not_found
active_for_bucket now timeout b d = or_not_found (find (is_active_for now timeout b) d.shards)

-- The same where the heartbeat is NULL or too old.
unfoldable pub is_stale_for : (now timeout : ℕ) → Text → Shard → Bool
is_stale_for now timeout b s = in_bucket b active s && not (is_fresh now timeout s.last_seen_at)

unfoldable pub stale_active_for_bucket : (now timeout : ℕ) → Text → Db → Result Shard
unfolding or_not_found
stale_active_for_bucket now timeout b d = or_not_found (find (is_stale_for now timeout b) d.shards)

unfoldable pub has_bucket : Option Text → Bool
has_bucket none = false
has_bucket (some b) = true

unfoldable pub list_stale_actives : (now timeout : ℕ) → Db → List Shard
unfolding has_bucket
list_stale_actives now timeout d =
    filter
      (λ s.
        is_data s.role
        && state_eq s.state active
        && has_bucket s.bucket_id
        && not (is_fresh now timeout s.last_seen_at))
      d.shards

-- sealed, or active with a fresh heartbeat
unfoldable pub is_readable : (now timeout : ℕ) → Text → Shard → Bool
is_readable now timeout b s =
    is_data s.role
    && bucket_is s.bucket_id b
    && (state_eq s.state sealed || (state_eq s.state active && is_fresh now timeout s.last_seen_at))

unfoldable pub shards_for_bucket_read : (now timeout : ℕ) → Text → Db → List Shard
shards_for_bucket_read now timeout b d = filter (is_readable now timeout b) d.shards

unfoldable standby_pool : Db → List Shard
standby_pool d = filter in_standby_pool d.shards

unfoldable count_standby_pool : Db → ℕ
count_standby_pool d = count in_standby_pool d.shards

-- state IN ('active', 'draining')
unfoldable pub is_busy : Text → Shard → Bool
is_busy b s =
    is_data s.role
    && bucket_is s.bucket_id b
    && (state_eq s.state active || state_eq s.state draining)

unfoldable pub has_active_in_bucket : Text → Db → Bool
has_active_in_bucket b d = ltb 0 (count (is_busy b) d.shards)

add_distinct : Text → List Text → List Text
add_distinct b bs = if any (text_eq b) bs then bs else b ∷ bs

add_bucket : Shard → Option Text → List Text → List Text
unfolding add_distinct
add_bucket s none bs = bs
add_bucket s (some b) bs = if is_data s.role then add_distinct b bs else bs

-- SELECT DISTINCT bucket_id; the order of the rows is the database's.
distinct_of : List Shard → List Text
unfolding add_bucket
distinct_of [] = []
distinct_of (s ∷ rest) = add_bucket s s.bucket_id (distinct_of rest)

unfoldable pub distinct_bucket_ids : Db → List Text
unfolding distinct_of
distinct_bucket_ids d = distinct_of d.shards

-- The limit of a shard: its own, or else the cluster's.
unfoldable pub limit_of : Option ℤ → ℤ → ℤ
limit_of none default = default
limit_of (some m) default = m

unfoldable pub needs_seal : ℤ → Shard → Bool
unfolding limit_of
needs_seal default s =
    is_data s.role
    && state_eq s.state active
    && not (ltb_ℤ s.reported_bytes (limit_of s.max_bytes default))

unfoldable pub shards_needing_seal : ℤ → Db → List Shard
shards_needing_seal default d = filter (needs_seal default) d.shards

unfoldable pub shards_draining : Db → List Shard
shards_draining d = filter (λ s. is_data s.role && state_eq s.state draining) d.shards

unfoldable pub version_or_error : Option ConfigRow → Result ℕ
version_or_error none = err not_bootstrapped
version_or_error (some c) = ok c.topology_version

unfoldable pub get_topology_version : Db → Result ℕ
unfolding version_or_error
get_topology_version d = version_or_error d.config

-- Store.HeartbeatTimeout: a duration that is not positive stands for 60 seconds. The queries take its
-- result as an argument, Env.timeout of their callers.
unfoldable heartbeat_timeout_of : ℤ → ℕ
heartbeat_timeout_of (pos (suc n)) = suc n
heartbeat_timeout_of _ = 60000000000

-- func Endpoint: the advertised URL unless it is missing or empty.
unfoldable pub endpoint : Option Text → Text → Text
endpoint none dsn = dsn
endpoint (some []) dsn = dsn
endpoint (some (c ∷ url)) dsn = c ∷ url
