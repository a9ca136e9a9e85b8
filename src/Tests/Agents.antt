-- ===== src/Tests/Agents.antt =====
-- The theorems on the agent and on its settings, at a small environment and a shard that is cleaning.
use shardman.Prelude.{
  ℕ, ◌≡◌, ◌≢◌, ◌↔◌, refl, true, false, Option, none, some, List, [], ◌∷◌, find, arith, any, all,
  if◌then◌else◌,
}
use shardman.Prelude.Int.{ℤ, pos}
use shardman.Prelude.Text.{Text, codes, text_eq}
use shardman.Prelude.Results.{ok}
use shardman.Fsm.{cleaning, active, data_role, state_eq}
use shardman.Store.Shard.{Shard, in_bucket, bucket_is}
use shardman.Store.Db.{
  Db, constraints_ok, one_active_per_bucket, clashes_active, one_error, known_state,
}
use shardman.Store.Moves.{IdsOk}
use shardman.Store.Rotation.{IsValid}
use shardman.Config.{AgentConfig, load_agent, agent_settings}
use shardman.Config.Ready.{IsReady, load_agent-IsReady}
use shardman.Server.Replies.{Server}
use shardman.Agent.{Postgres, tick, measure_size}
use shardman.Agent.Reports.{Safe, tick-Safe}
use shardman.Agent.Recycling.{IsRecycled, tick-IsRecycled}
use shardman.Tests.Cluster.{platform, today, cluster, env, shard_at}

-- Only the size source is not set.
abbrev environ : Text → Text
environ k = if text_eq k (codes "SIZE_SOURCE") then [] else k

abbrev no_duration : Text → Option ℤ
no_duration t = none

load_agent-IsReady_example :
    (load_agent environ no_duration ≡ ok (agent_settings environ no_duration))
    ↔ IsReady environ no_duration
load_agent-IsReady_example = load_agent-IsReady environ no_duration

-- A database is the list of its rows.
abbrev postgres : Postgres
postgres = record {
  Database = List ℕ;
  connects = λ d. true;
  relations_size = λ d. some (pos 3);
  database_size = λ d. some (pos 9);
  terminate = λ d. some d;
  revoke = λ role d. some d;
  truncate = λ d. some [];
}

abbrev settings : AgentConfig
settings = record {
  pg_dsn = codes "postgres://";
  shard_uuid = codes "103";
  coordinator_addr = codes ":9090";
  cluster_key = codes "key";
  stats_interval = pos 15;
  size_source = codes "relations";
  app_db_role = [];
  drain_mode = codes "revoke";
}

abbrev evicted : Shard
evicted = shard_at 3 data_role cleaning (some today)

abbrev cleaning_cluster : Db
cleaning_cluster = record cluster {
  shards = shard_at 2 data_role active (some today) ∷ evicted ∷ [];
}

cleaning_cluster-IdsOk : IdsOk cleaning_cluster
cleaning_cluster-IdsOk = record {
  rising = (omega arith, (omega arith, tt));
  below = (omega arith, (omega arith, tt));
}

cleaning_cluster-IsValid : IsValid cleaning_cluster
unfolding constraints_ok one_active_per_bucket clashes_active one_error known_state any all
    in_bucket bucket_is state_eq text_eq
cleaning_cluster-IsValid = record { ids = cleaning_cluster-IdsOk; constraints = refl }

abbrev parse : Text → Option ℕ
parse t = some 103

abbrev server : Server
server = record {
  cluster_key = codes "key";
  has_retention = false;
  store = record { db = cleaning_cluster; config_cache = none; heartbeat_timeout = pos 0 };
  broadcast = none;
}

tick-Safe_example :
    Safe platform parse postgres
      (1 ∷ 2 ∷ [])
      server
      (tick postgres platform parse settings env (pos 0) (1 ∷ 2 ∷ [], server))
tick-Safe_example = tick-Safe platform parse postgres settings env (pos 0) (1 ∷ 2 ∷ []) server

key-nonempty : codes "key" ≢ []
key-nonempty h = cc

tick-IsRecycled_example :
    IsRecycled postgres platform parse 103 evicted
      (1 ∷ 2 ∷ [])
      (tick postgres platform parse settings env (pos 0) (1 ∷ 2 ∷ [], server))
unfolding measure_size find text_eq
tick-IsRecycled_example =
    tick-IsRecycled postgres platform parse settings env (pos 0) (1 ∷ 2 ∷ []) [] server 103 (pos 3)
      cleaning_cluster-IsValid refl refl refl refl key-nonempty refl refl refl
