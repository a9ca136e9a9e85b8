-- ===== src/Store/Register.antt =====
-- RegisterShard, PromoteStandbyToActive and the statements that touch one row, of
-- internal/store/store.go.
use shardman.Prelude.{
  ℕ, ◌+◌, ◌==◌, ltb, Bool, true, false, not, ◌&&◌, Option, none, some, [], ◌∷◌, ◌++◌, if◌then◌else◌,
  find, count,
}
use shardman.Prelude.Int.{ℤ, pos}
use shardman.Prelude.Text.{Text}
use shardman.Prelude.Results.{
  Result, ok, err, Error, conflict, not_found, constraint_violation, startup_state_must_be_standby,
}
use shardman.Fsm.{
  State, Role, data_role, error_role, standby, active, draining, other, state_eq,
  startup_state_allowed,
}
use shardman.Store.Shard.{Shard, is_data, in_standby_pool}
use shardman.Store.Db.{
  Db, Tx, ◌>>=◌, ◌>>◌, return, commit, update, select_row, constraints_ok, bump_topology_version,
}
use shardman.Store.Queries.{get_shard_by_id}

-- The state under which a new row is inserted: an error shard is active at once.
unfoldable pub startup_state_for : Role → State → State
startup_state_for error_role st = active
startup_state_for data_role st = if state_eq st (other []) then standby else st

-- func nullStr
null_str : Text → Option Text
null_str [] = none
null_str (c ∷ s) = some (c ∷ s)

unfoldable pub new_shard : ℕ → ℕ → Role → State → Text → Text → ℕ → Shard
unfolding null_str
new_shard id uuid role st dsn url now = record {
  id = id;
  shard_uuid = uuid;
  role = role;
  bucket_id = none;
  state = st;
  dsn = dsn;
  advertise_url = null_str url;
  reported_bytes = pos 0;
  max_bytes = none;
  last_seen_at = some now;
  sealed_at = none;
  drain_started_at = none;
  drain_ready = false;
  version = 1;
}

unfoldable pub insert_row : Shard → Tx ℕ
insert_row s d =
    let rows = d.shards ++ (s ∷ []) in
    if constraints_ok rows
    then ok (s.id, record d { shards = rows; next_id = d.next_id + 1 })
    else err constraint_violation

unfoldable pub refreshed : Text → Text → ℕ → Shard → Shard
unfolding null_str
refreshed dsn url now s = record s {
  dsn = dsn;
  advertise_url = null_str url;
  last_seen_at = some now;
}

-- ON CONFLICT (shard_uuid) DO UPDATE; the sequence has moved on all the same. (If the transaction is
-- rolled back, then the sequence is here, where PostgreSQL leaves a gap in the ids.)
unfoldable pub refresh_row : ℕ → Text → Text → ℕ → Shard → Tx ℕ
refresh_row uuid dsn url now old = do
  update (λ s. s.shard_uuid == uuid) (refreshed dsn url now)
  λ d. ok (old.id, record d { next_id = d.next_id + 1 })

unfoldable pub upsert : ℕ → Role → State → Text → Text → ℕ → Tx ℕ
upsert uuid role st dsn url now d = elim (find (λ s. s.shard_uuid == uuid) d.shards) [
  | none ↦ insert_row (new_shard d.next_id uuid role st dsn url now) d
  | some old ↦ refresh_row uuid dsn url now old d
]

-- A second error shard is refused.
unfoldable pub check_error_shard : Role → Tx (Unit {0})
check_error_shard data_role d = ok (tt, d)
check_error_shard error_role d =
    if ltb 0 (count (λ s. not (is_data s.role)) d.shards) then err conflict else ok (tt, d)

unfoldable pub register_tx : ℕ → Role → State → Text → Text → ℕ → Tx ℕ
register_tx uuid role st dsn url now = do
  check_error_shard role
  id ← upsert uuid role st dsn url now
  bump_topology_version
  return id

-- The read of GetShardByID after the commit.
unfoldable pub read_back : Result ℕ × Db → Result Shard × Db
read_back (ok id, d) = (get_shard_by_id id d, d)
read_back (err e, d) = (err e, d)

unfoldable pub register_shard :
    ℕ → Role → (dsn advertise_url : Text) → State → (now : ℕ) → Db → Result Shard × Db
unfolding startup_state_for register_tx read_back
register_shard uuid role dsn url st now d =
    let st' = startup_state_for role st in
    if not (startup_state_allowed st') && is_data role
    then (err startup_state_must_be_standby, d)
    else read_back (commit (register_tx uuid role st' dsn url now) d)

-- UPDATE shards SET bucket_id = $1, state = 'active', … : the row of a promoted standby.
unfoldable pub promoted : Text → ℕ → Shard → Shard
promoted b now s = record s {
  bucket_id = some b;
  state = active;
  last_seen_at = some now;
  version = s.version + 1;
}

-- SELECT … FOR UPDATE SKIP LOCKED: rows that another transaction holds are passed over.
unfoldable pub is_available : (ℕ → Bool) → Shard → Bool
is_available locked s = in_standby_pool s && not (locked s.id)

unfoldable pub promote_tx : (ℕ → Bool) → Text → ℕ → Tx ℕ
promote_tx locked b now = do
  s ← select_row (is_available locked)
  update (λ t. t.id == s.id) (promoted b now)
  bump_topology_version
  return s.id

unfoldable pub promote_standby_to_active : (ℕ → Bool) → Text → ℕ → Db → Result Shard × Db
unfolding promote_tx read_back
promote_standby_to_active locked b now d = read_back (commit (promote_tx locked b now) d)

unfoldable pub seen_row : ℕ → Shard → Shard
seen_row at s = record s { last_seen_at = some at }

-- SetLastSeenAt; no error when no row has the uuid.
unfoldable pub set_last_seen_at : ℕ → ℕ → Tx (Unit {0})
set_last_seen_at uuid at = do update (λ s. s.shard_uuid == uuid) (seen_row at); return tt

-- `if ct.RowsAffected() == 0 { return err }`
unfoldable pub require_rows : ℕ → Error → Tx (Unit {0})
require_rows n e d = if n == 0 then err e else ok (tt, d)

unfoldable pub stats_row : ℤ → ℕ → Shard → Shard
stats_row bytes now s = record s { reported_bytes = bytes; last_seen_at = some now }

unfoldable pub update_stats : ℕ → ℤ → ℕ → Tx (Unit {0})
unfolding require_rows
update_stats uuid bytes now = do
  n ← update (λ s. s.shard_uuid == uuid) (stats_row bytes now)
  require_rows n not_found

unfoldable pub ready_row : Shard → Shard
ready_row s = record s { drain_ready = true; version = s.version + 1 }

unfoldable pub mark_drain_ready : ℕ → Tx (Unit {0})
unfolding require_rows
mark_drain_ready uuid = do
  n ← update (λ s. s.shard_uuid == uuid && state_eq s.state draining) ready_row
  require_rows n not_found
