-- ===== src/Supervisors/Seal.antt =====
-- internal/seal/seal.go: drained shards are sealed, and full ones begin to drain.
use shardman.Prelude.{
  ℕ, ◌+◌, leb, Bool, false, ◌||◌, Option, none, some, List, [], ◌∷◌, if◌then◌else◌,
}
use shardman.Prelude.Int.{ℤ}
use shardman.Prelude.Text.{Text}
use shardman.Prelude.Results.{Result, ok, err}
use shardman.Bucket.Platform.{Platform}
use shardman.Store.Shard.{Shard}
use shardman.Store.Db.{Db}
use shardman.Store.Queries.{shards_draining, shards_needing_seal}
use shardman.Store.Rotate.{begin_drain, complete_drain_seal}
use shardman.Store.Config.{ClusterConfig, Store, get_config}
use shardman.Store.Promote.{Env}

-- now.Sub(*sh.DrainStartedAt) >= s.DrainTimeout; without a start the timeout never elapses.
unfoldable pub drain_elapsed : (now timeout : ℕ) → Option ℕ → Bool
drain_elapsed now timeout none = false
drain_elapsed now timeout (some started) = leb (started + timeout) now

unfoldable pub is_drain_over : (now timeout : ℕ) → Shard → Bool
is_drain_over now timeout s = s.drain_ready || drain_elapsed now timeout s.drain_started_at

unfoldable pub seal_drained : Env → ℕ → Shard → Option Text → Db → Db
seal_drained env timeout s none d = d
seal_drained env timeout s (some b) d =
    if is_drain_over env.now timeout s then (complete_drain_seal env.locked b env.now d).1 else d

unfoldable pub seal_all_drained : Env → ℕ → List Shard → Db → Db
unfolding seal_drained
seal_all_drained env timeout [] d = d
seal_all_drained env timeout (s ∷ rest) d =
    seal_all_drained env timeout rest (seal_drained env timeout s s.bucket_id d)

unfoldable pub drain_full : ℕ → Option Text → Db → Db
drain_full now none d = d
drain_full now (some b) d = (begin_drain b now d).1

unfoldable pub drain_all_full : ℕ → List Shard → Db → Db
unfolding drain_full
drain_all_full now [] d = d
drain_all_full now (s ∷ rest) d = drain_all_full now rest (drain_full now s.bucket_id d)

-- The two loops of a round; the second reads the table after the first. `drain_timeout` is the
-- supervisor's DrainTimeout, and `max_bytes` the cluster's limit.
unfoldable pub seal_round : Env → (drain_timeout : ℕ) → (max_bytes : ℤ) → Db → Db
seal_round env drain_timeout max_bytes d =
    let d₁ = seal_all_drained env drain_timeout (shards_draining d) d in
    drain_all_full env.now (shards_needing_seal max_bytes d₁) d₁

module _ (P : Platform) where
  tick_with : Env → ℕ → Result ClusterConfig × Store → Store
  tick_with env drain_timeout (err e, st) = st
  tick_with env drain_timeout (ok c, st) = record st {
    db = seal_round env drain_timeout c.shard_max_bytes st.db;
  }

  -- Supervisor.tick; without a configuration a round does nothing.
  unfoldable seal_tick : Env → ℕ → Store → Store
  unfolding tick_with
  seal_tick env drain_timeout st = tick_with env drain_timeout (get_config P st)
