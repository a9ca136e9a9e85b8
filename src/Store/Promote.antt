-- ===== src/Store/Promote.antt =====
-- AutoPromoteIfNoActive of internal/store/store.go: three reads, each of its own, and a promotion.
use shardman.Prelude.{ℕ, Bool, not, Option, none, some, if◌then◌else◌}
use shardman.Prelude.Text.{Text}
use shardman.Prelude.Results.{Result, ok, err, not_found, is_not_found}
use shardman.Store.Shard.{Shard}
use shardman.Store.Db.{Db}
use shardman.Store.Queries.{active_for_bucket, stale_active_for_bucket, has_active_in_bucket}
use shardman.Store.Register.{promote_standby_to_active}

-- What a call finds: NOW(), what HeartbeatTimeout() returns, and the rows that other transactions lock.
pub record Env : Type 0 where
  pub now : ℕ
  pub timeout : ℕ
  pub locked : ℕ → Bool

-- A shard, where the caller may also get none.
unfoldable pub as_found : Result Shard × Db → Result (Option Shard) × Db
as_found (ok s, d) = (ok (some s), d)
as_found (err e, d) = (err e, d)

unfoldable pub unless_stale : Env → Text → Result Shard → Db → Result (Option Shard) × Db
unfolding as_found
unless_stale env b (ok s) d = (err not_found, d)
unless_stale env b (err e) d =
    if not (is_not_found e)
    then (err e, d)
    else as_found (promote_standby_to_active env.locked b env.now d)

unfoldable pub unless_active : Env → Text → Result Shard → Db → Result (Option Shard) × Db
unless_active env b (ok s) d = (ok none, d)
unless_active env b (err e) d =
    if not (is_not_found e)
    then (err e, d)
    else (if has_active_in_bucket b d
        then (err not_found, d)
        else unless_stale env b (stale_active_for_bucket env.now env.timeout b d) d)

unfoldable pub auto_promote_if_no_active : Env → Text → Db → Result (Option Shard) × Db
unfolding unless_active
auto_promote_if_no_active env b d =
    unless_active env b (active_for_bucket env.now env.timeout b d) d
