-- ===== src/Supervisors/Health.antt =====
-- internal/health/health.go: buckets whose active shard has gone silent get another one.
use shardman.Prelude.{ℕ, suc, Option, none, some, List, [], ◌∷◌}
use shardman.Prelude.Text.{Text}
use shardman.Prelude.Results.{Result, ok, err}
use shardman.Store.Shard.{Shard}
use shardman.Store.Db.{Db}
use shardman.Store.Queries.{list_stale_actives}
use shardman.Store.Rotate.{seal_rotate}
use shardman.Store.Promote.{Env}

-- A rotation that fails, for whatever reason, is passed over; one that succeeds is followed by a
-- call of Notify, which is counted.
unfoldable pub count_notify : ℕ → Result (Unit {0}) × Db → ℕ × Db
count_notify n (ok u, d) = (suc n, d)
count_notify n (err e, d) = (n, d)

unfoldable pub rotate_bucket : Env → Option Text → ℕ × Db → ℕ × Db
unfolding count_notify
rotate_bucket env none (n, d) = (n, d)
rotate_bucket env (some b) (n, d) = count_notify n (seal_rotate env.locked b env.now d)

unfoldable pub rotate_all : Env → List Shard → ℕ × Db → ℕ × Db
unfolding rotate_bucket
rotate_all env [] nd = nd
rotate_all env (s ∷ stale) nd = rotate_all env stale (rotate_bucket env s.bucket_id nd)

-- Supervisor.tick: the number of notifications, and the database after the round.
unfoldable pub health_tick : Env → Db → ℕ × Db
health_tick env d = rotate_all env (list_stale_actives env.now env.timeout d) (0, d)
