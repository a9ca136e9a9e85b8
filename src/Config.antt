-- ===== src/Config.antt =====
-- internal/config/config.go: the settings of the server and of the agent, from the environment.
pub mod Ready
use shardman.Prelude.{
  ℕ, ◌*◌, Bool, true, false, not, ◌&&◌, ◌||◌, Option, none, some, List, [], ◌∷◌, if◌then◌else◌,
}
use shardman.Prelude.Int.{ℤ, pos}
use shardman.Prelude.Text.{Text, codes, text_eq}
use shardman.Prelude.Results.{
  Result, ok, err, metadata_dsn_required, agent_settings_required, unknown_size_source,
}
use shardman.Bucket.Decimal.{parse_int, Parsed, exact}
use shardman.Server.Topology.{wrap32}

-- A duration is a number of nanoseconds.
abbrev pub seconds : ℕ → ℤ
seconds n = pos (1000000000 * n)

pub record Config : Type 0 where
  pub grpc_addr : Text
  pub http_addr : Text
  pub metadata_dsn : Text
  pub cluster_key : Text
  pub seal_check_interval : ℤ
  pub drain_timeout : ℤ
  pub heartbeat_timeout : ℤ
  pub health_check_interval : ℤ
  pub metadata_max_conns : ℤ

pub record AgentConfig : Type 0 where
  pub pg_dsn : Text
  pub shard_uuid : Text
  pub coordinator_addr : Text
  pub cluster_key : Text
  pub stats_interval : ℤ
  pub size_source : Text
  pub app_db_role : Text
  pub drain_mode : Text

abbrev pub or_default : Text → Text → Text
or_default [] def = def
or_default (c ∷ v) def = c ∷ v

-- `environ` is os.Getenv, which gives the empty text for a variable that is not set, and
-- `parse_duration` is time.ParseDuration.
module _ (environ : Text → Text) (parse_duration : Text → Option ℤ) where
  unfoldable pub getenv : Text → Text → Text
  getenv k def = or_default (environ k) def

  unfoldable pub duration_or : Option ℤ → ℤ → ℤ
  duration_or none def = def
  duration_or (some d) def = d

  unfoldable pub duration_env : Text → ℤ → ℤ
  unfolding duration_or
  duration_env k def =
      if text_eq (environ k) [] then def else duration_or (parse_duration (environ k)) def

  unfoldable pub int_or : Parsed → ℤ → ℤ
  int_or (exact n) def = n
  int_or _ def = def

  unfoldable pub int_env : Text → ℤ → ℤ
  unfolding int_or
  int_env k def = if text_eq (environ k) [] then def else int_or (parse_int (environ k)) def

  unfoldable pub server_settings : Config
  unfolding getenv duration_env int_env
  server_settings = record {
    grpc_addr = getenv (codes "GRPC_ADDR") (codes ":9090");
    http_addr = getenv (codes "HTTP_ADDR") (codes ":8080");
    metadata_dsn = environ (codes "METADATA_PG_DSN");
    cluster_key = environ (codes "CLUSTER_KEY");
    seal_check_interval = duration_env (codes "SEAL_CHECK_INTERVAL") (seconds 30);
    drain_timeout = duration_env (codes "DRAIN_TIMEOUT") (seconds 30);
    heartbeat_timeout = duration_env (codes "HEARTBEAT_TIMEOUT") (seconds 60);
    health_check_interval = duration_env (codes "HEALTH_CHECK_INTERVAL") (seconds 15);
    metadata_max_conns = wrap32 (int_env (codes "METADATA_PG_MAX_CONNS") (pos 20));
  }

  -- LoadServer
  unfoldable pub load_server : Result Config
  unfolding server_settings
  load_server =
      let c = server_settings in
      if text_eq c.metadata_dsn [] then err metadata_dsn_required else ok c

  unfoldable pub agent_settings : AgentConfig
  unfolding getenv duration_env
  agent_settings = record {
    pg_dsn = environ (codes "PG_DSN");
    shard_uuid = environ (codes "SHARD_UUID");
    coordinator_addr = getenv (codes "COORDINATOR_ADDR") (environ (codes "COORDINATOR_URL"));
    cluster_key = environ (codes "CLUSTER_KEY");
    stats_interval = duration_env (codes "STATS_INTERVAL") (seconds 15);
    size_source = getenv (codes "SIZE_SOURCE") (codes "database");
    app_db_role = environ (codes "APP_DB_ROLE");
    drain_mode = getenv (codes "DRAIN_MODE") (codes "revoke");
  }

  unfoldable pub checked : AgentConfig → Result AgentConfig
  checked c =
      if text_eq c.pg_dsn [] || text_eq c.shard_uuid [] || text_eq c.coordinator_addr []
      then err agent_settings_required
      else if not (text_eq c.size_source (codes "database"))
          && not (text_eq c.size_source (codes "relations"))
      then err unknown_size_source
      else ok c

  -- LoadAgent
  unfoldable pub load_agent : Result AgentConfig
  unfolding agent_settings checked
  load_agent = checked agent_settings
