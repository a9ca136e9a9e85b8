-- ===== src/Store/Shard.antt =====
-- The rows of the table `shards` (type Shard of internal/store/store.go), and the conditions on a
-- row that the statements share. Instants are numbers of nanoseconds; a version is unbounded.
use shardman.Prelude.{ℕ, ◌+◌, leb, Bool, true, false, ◌&&◌, Option, none, some}
use shardman.Prelude.Int.{ℤ}
use shardman.Prelude.Text.{Text, text_eq}
use shardman.Fsm.{State, Role, data_role, error_role, standby, state_eq}

pub record Shard : Type 0 where
  pub id : ℕ
  pub shard_uuid : ℕ
  pub role : Role
  pub bucket_id : Option Text
  pub state : State
  pub dsn : Text
  pub advertise_url : Option Text
  pub reported_bytes : ℤ
  pub max_bytes : Option ℤ
  pub last_seen_at : Option ℕ
  pub sealed_at : Option ℕ
  pub drain_started_at : Option ℕ
  pub drain_ready : Bool
  pub version : ℕ

-- role = 'data'
abbrev pub is_data : Role → Bool
is_data data_role = true
is_data error_role = false

-- bucket_id = $1, which is not true of NULL
unfoldable pub bucket_is : Option Text → Text → Bool
bucket_is none b = false
bucket_is (some c) b = text_eq c b

-- bucket_id IS NULL
abbrev pub has_no_bucket : Option Text → Bool
has_no_bucket none = true
has_no_bucket (some b) = false

-- role = 'data' AND bucket_id = $1 AND state = $2
unfoldable pub in_bucket : Text → State → Shard → Bool
in_bucket b st s = is_data s.role && bucket_is s.bucket_id b && state_eq s.state st

-- role = 'data' AND state = 'standby' AND bucket_id IS NULL
unfoldable pub in_standby_pool : Shard → Bool
in_standby_pool s = is_data s.role && state_eq s.state standby && has_no_bucket s.bucket_id

-- last_seen_at IS NOT NULL AND last_seen_at >= NOW() - $2
unfoldable pub is_fresh : (now timeout : ℕ) → Option ℕ → Bool
is_fresh now timeout none = false
is_fresh now timeout (some seen) = leb now (seen + timeout)
