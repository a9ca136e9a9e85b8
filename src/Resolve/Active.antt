-- ===== src/Resolve/Active.antt =====
-- ensureActive and failoverStaleActive of internal/resolve/resolve.go. The calls of one resolution
-- follow one another with no other transaction between them, at one reading of the clock.
use shardman.Prelude.{not, ◌||◌, Option, none, some, if◌then◌else◌}
use shardman.Prelude.Text.{Text}
use shardman.Prelude.Results.{Result, ok, err, not_found, is_not_found, is_conflict}
use shardman.Store.Shard.{Shard}
use shardman.Store.Db.{Db}
use shardman.Store.Queries.{active_for_bucket, stale_active_for_bucket}
use shardman.Store.Rotate.{seal_rotate}
use shardman.Store.Promote.{Env, auto_promote_if_no_active}

-- A rotation that finds nothing to do, or loses a race, is no error here.
unfoldable pub after_rotate : Result (Unit {0}) × Db → Result (Unit {0}) × Db
after_rotate (ok u, d) = (ok tt, d)
after_rotate (err e, d) = if is_not_found e || is_conflict e then (ok tt, d) else (err e, d)

unfoldable pub rotate_stale : Env → Text → Result Shard → Db → Result (Unit {0}) × Db
unfolding after_rotate
rotate_stale env b (err e) d = if is_not_found e then (ok tt, d) else (err e, d)
rotate_stale env b (ok s) d = after_rotate (seal_rotate env.locked b env.now d)

unfoldable pub failover_stale_active : Env → Text → Db → Result (Unit {0}) × Db
unfolding rotate_stale
failover_stale_active env b d =
    rotate_stale env b (stale_active_for_bucket env.now env.timeout b d) d

-- The last step: a promotion that promoted nothing is followed by one more read.
unfoldable pub after_promote : Env → Text → Result (Option Shard) × Db → Result Shard × Db
after_promote env b (err e, d) = if is_not_found e then (err not_found, d) else (err e, d)
after_promote env b (ok (some s), d) = (ok s, d)
after_promote env b (ok none, d) = (active_for_bucket env.now env.timeout b d, d)

-- A read that found a shard, or failed for another reason than finding none, ends the search.
unfoldable pub or_go_on : Result Shard → (Db → Result Shard × Db) → Db → Result Shard × Db
or_go_on (ok s) next d = (ok s, d)
or_go_on (err e) next d = if not (is_not_found e) then (err e, d) else next d

unfoldable pub after_failover : Env → Text → Result (Unit {0}) × Db → Result Shard × Db
unfolding or_go_on after_promote
after_failover env b (err e, d) = (err e, d)
after_failover env b (ok u, d) =
    or_go_on (active_for_bucket env.now env.timeout b d)
      (λ d₁. after_promote env b (auto_promote_if_no_active env b d₁)) d

unfoldable pub ensure_active : Env → Text → Db → Result Shard × Db
unfolding or_go_on after_failover
ensure_active env b d =
    or_go_on (active_for_bucket env.now env.timeout b d)
      (λ d₁. after_failover env b (failover_stale_active env b d₁)) d
