-- ===== src/Agent.antt =====
-- internal/agent/agent.go: one tick of the agent beside a shard, against the server's handlers.
pub mod Reports
pub mod Recycling
use shardman.Prelude.{
  ℕ, Bool, true, false, not, Option, none, some, List, [], ◌∷◌, ◌++◌, if◌then◌else◌,
}
use shardman.Prelude.Int.{ℤ}
use shardman.Prelude.Text.{Text, codes, text_eq}
use shardman.Bucket.Platform.{Platform}
use shardman.Fsm.{State, standby, active, draining, sealed, cleaning, other}
use shardman.Store.Promote.{Env}
use shardman.Config.{AgentConfig}
use shardman.Server.Requests.{
  Request, report_stats, report_cleaned, report_drain_complete, Reply, failed, written, found,
  bucket_shards, topology, bootstrapped, shards, registered, rotated, accepted, reported, is_failed,
}
use shardman.Server.Replies.{Server, Call}
use shardman.Server.Handlers.{serve}

-- The PostgreSQL server of the shard. `Database` is the state of its database; `none` is an error.
pub record Postgres : Type 1 where
  pub Database : Type 0
  -- pgx.Connect
  pub connects : Database → Bool
  -- the two queries of MeasureSize
  pub relations_size : Database → Option ℤ
  pub database_size : Database → Option ℤ
  -- pg_terminate_backend on the other connections
  pub terminate : Database → Option Database
  -- REVOKE INSERT, UPDATE, DELETE ON ALL TABLES from a role
  pub revoke : Text → Database → Option Database
  -- TRUNCATE of every table of the schema
  pub truncate : Database → Option Database

unfoldable pub quote_ident : Text → Text
quote_ident s = 34 ∷ (s ++ (34 ∷ []))

-- What the agent's connection carries to the server.
unfoldable pub rpc_metadata : Text → Option (List Text)
rpc_metadata [] = some []
rpc_metadata (c ∷ key) = some ((c ∷ key) ∷ [])

unfoldable pub rpc_call : AgentConfig → Env → ℤ → Call
unfolding rpc_metadata
rpc_call cfg env clock = record {
  metadata = rpc_metadata cfg.cluster_key;
  env = env;
  clock = clock;
}

module _ (G : Postgres) where
  -- The shard's database and the server.
  abbrev pub Pair : Type 0
  Pair = G.Database × Server

  unfoldable pub measure_size : Text → G.Database → Option ℤ
  measure_size source d =
      if text_eq source (codes "relations") then G.relations_size d else G.database_size d

  unfoldable pub drain_shard : AgentConfig → G.Database → Option (G.Database)
  drain_shard cfg d =
      if text_eq cfg.drain_mode (codes "terminate")
      then G.terminate d
      else if not (text_eq cfg.app_db_role [])
      then G.revoke (quote_ident cfg.app_db_role) d
      else some d

  unfoldable pub clean_database : G.Database → Option (G.Database)
  clean_database d = G.truncate d

  -- The last call of a tick; the tick fails if the call does.
  unfoldable pub finish : G.Database → Reply × Server → Bool × Pair
  finish d (reply, s) = (not (is_failed reply), (d, s))

  module _ (P : Platform) (parse_uuid : Text → Option ℕ) where
    unfoldable pub report_drained :
        AgentConfig → Call → Option (G.Database) → G.Database → Server → Bool × Pair
    unfolding finish
    report_drained cfg call none d s = (false, (d, s))
    report_drained cfg call (some d') d s =
        finish d' (serve P parse_uuid call (report_drain_complete cfg.shard_uuid) s)

    unfoldable pub report_clean :
        AgentConfig → Call → Option (G.Database) → G.Database → Server → Bool × Pair
    unfolding finish
    report_clean cfg call none d s = (false, (d, s))
    report_clean cfg call (some d') d s =
        finish d' (serve P parse_uuid call (report_cleaned cfg.shard_uuid) s)

    -- `switch resp.GetState()`
    unfoldable pub act_on : AgentConfig → Call → Option State → G.Database → Server → Bool × Pair
    unfolding report_drained report_clean
    act_on cfg call (some draining) d s = report_drained cfg call (drain_shard cfg d) d s
    act_on cfg call (some cleaning) d s = report_clean cfg call (clean_database d) d s
    act_on cfg call (some _) d s = (true, (d, s))
    act_on cfg call none d s = (true, (d, s))

    -- ReportStats answers with `reported`, or fails.
    unfoldable pub answered : AgentConfig → Call → G.Database → Reply × Server → Bool × Pair
    unfolding act_on
    answered cfg call d (reported st, s) = act_on cfg call st d s
    answered cfg call d (_, s) = (false, (d, s))

    unfoldable pub report_size : AgentConfig → Call → Option ℤ → G.Database → Server → Bool × Pair
    unfolding answered
    report_size cfg call none d s = (false, (d, s))
    report_size cfg call (some size) d s =
        answered cfg call d (serve P parse_uuid call (report_stats cfg.shard_uuid size) s)

    -- Tick, with whether it returns no error.
    unfoldable pub tick : AgentConfig → Env → ℤ → Pair → Bool × Pair
    unfolding report_size measure_size rpc_call
    tick cfg env clock (d, s) =
        if not (G.connects d)
        then (false, (d, s))
        else report_size cfg (rpc_call cfg env clock) (measure_size cfg.size_source d) d s
