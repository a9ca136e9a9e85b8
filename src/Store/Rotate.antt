-- ===== src/Store/Rotate.antt =====
-- The transactions of internal/store/store.go that take a bucket through its volumes: SealRotate,
-- BeginDrain and CompleteDrainSeal, and those that PatchState, MarkBucketCleaning and
-- FinishCleaning run.
use shardman.Prelude.{ℕ, ◌+◌, ◌==◌, Bool, false, not, ◌&&◌, none, some, if◌then◌else◌}
use shardman.Prelude.Int.{pos}
use shardman.Prelude.Text.{Text, codes}
use shardman.Prelude.Results.{Result, ok, err, conflict, not_found, invalid_transition}
use shardman.Fsm.{State, standby, active, draining, sealed, cleaning, state_eq, can_transition}
use shardman.Store.Shard.{Shard, in_bucket}
use shardman.Store.Db.{
  Db, Tx, ◌>>=◌, ◌>>◌, return, commit, update, select_row, select_row?, bump_topology_version,
  insert_event,
}
use shardman.Store.Register.{require_rows, is_available, promoted}

-- WHERE id = $1 AND version = $2
unfoldable pub is_version_of : Shard → Shard → Bool
is_version_of s t = t.id == s.id && t.version == s.version

-- The row after `state = 'sealed', sealed_at = NOW()`.
unfoldable pub seal_row : ℕ → Shard → Shard
seal_row now s = record s { state = sealed; sealed_at = some now; version = s.version + 1 }

-- CompleteDrainSeal also resets `drain_ready`.
unfoldable pub seal_drained_row : ℕ → Shard → Shard
seal_drained_row now s = record s {
  state = sealed;
  sealed_at = some now;
  drain_ready = false;
  version = s.version + 1;
}

-- The second half of both transactions: with no standby at hand the bucket stays without an
-- active shard, and no event is written.
unfoldable pub succeed : (ℕ → Bool) → Text → ℕ → Text → Shard → Tx (Unit {0})
succeed locked b now event old = do
  next ← select_row? (is_available locked)
  elim next [
    | none ↦ bump_topology_version
    | some s ↦ do
      update (λ t. t.id == s.id) (promoted b now)
      insert_event (record { shard_id = old.id; bucket_id = b; event_type = event })
      bump_topology_version
  ]

unfoldable pub seal_rotate_tx : (ℕ → Bool) → Text → ℕ → Tx (Unit {0})
unfolding succeed require_rows
seal_rotate_tx locked b now = do
  old ← select_row (in_bucket b active)
  n ← update (is_version_of old) (seal_row now)
  require_rows n conflict
  succeed locked b now (codes "seal_rotate") old

unfoldable pub seal_rotate : (ℕ → Bool) → Text → ℕ → Db → Result (Unit {0}) × Db
unfolding seal_rotate_tx
seal_rotate locked b now d = commit (seal_rotate_tx locked b now) d

-- The row after `state = 'draining'`.
unfoldable pub drain_row : ℕ → Shard → Shard
drain_row now s = record s {
  state = draining;
  drain_started_at = some now;
  drain_ready = false;
  version = s.version + 1;
}

unfoldable pub begin_drain_tx : Text → ℕ → Tx (Unit {0})
unfolding require_rows
begin_drain_tx b now = do
  n ← update (in_bucket b active) (drain_row now)
  require_rows n not_found
  bump_topology_version

unfoldable pub begin_drain : Text → ℕ → Db → Result (Unit {0}) × Db
unfolding begin_drain_tx
begin_drain b now d = commit (begin_drain_tx b now) d

unfoldable pub complete_drain_seal_tx : (ℕ → Bool) → Text → ℕ → Tx (Unit {0})
unfolding succeed require_rows
complete_drain_seal_tx locked b now = do
  old ← select_row (in_bucket b draining)
  n ← update (is_version_of old) (seal_drained_row now)
  require_rows n conflict
  succeed locked b now (codes "drain_seal") old

unfoldable pub complete_drain_seal : (ℕ → Bool) → Text → ℕ → Db → Result (Unit {0}) × Db
unfolding complete_drain_seal_tx
complete_drain_seal locked b now d = commit (complete_drain_seal_tx locked b now) d

-- fsm.ValidateTransition
unfoldable pub validate_transition : Shard → State → Tx (Unit {0})
validate_transition s to d =
    if not (can_transition s.role s.state to) then err invalid_transition else ok (tt, d)

unfoldable pub patch_row : State → Shard → Shard
patch_row to s = record s { state = to; version = s.version + 1 }

unfoldable pub patch_state_tx : ℕ → State → Tx (Unit {0})
unfolding validate_transition require_rows
patch_state_tx id to = do
  old ← select_row (λ s. s.id == id)
  validate_transition old to
  n ← update (λ t. t.id == id && t.version == old.version) (patch_row to)
  require_rows n conflict
  bump_topology_version

unfoldable pub patch_state : ℕ → State → Db → Result (Unit {0}) × Db
unfolding patch_state_tx
patch_state id to d = commit (patch_state_tx id to) d

-- The version is bumped only if a row changed.
unfoldable pub bump_if_rows : ℕ → Tx (Unit {0})
bump_if_rows n = if n == 0 then return tt else bump_topology_version

unfoldable pub clean_row : Shard → Shard
clean_row s = record s { state = cleaning; version = s.version + 1 }

unfoldable pub mark_bucket_cleaning_tx : Text → Tx ℕ
unfolding bump_if_rows
mark_bucket_cleaning_tx b = do n ← update (in_bucket b sealed) clean_row; bump_if_rows n; return n

unfoldable pub mark_bucket_cleaning : Text → Db → Result ℕ × Db
unfolding mark_bucket_cleaning_tx
mark_bucket_cleaning b d = commit (mark_bucket_cleaning_tx b) d

-- The row of a recycled shard.
unfoldable pub recycled : Shard → Shard
recycled s = record s {
  state = standby;
  bucket_id = none;
  reported_bytes = pos 0;
  sealed_at = none;
  drain_started_at = none;
  drain_ready = false;
  version = s.version + 1;
}

-- With no row in `cleaning` the call returns no error and commits nothing.
unfoldable pub finish_cleaning_tx : ℕ → Tx (Unit {0})
unfolding bump_if_rows
finish_cleaning_tx uuid = do
  n ← update (λ s. s.shard_uuid == uuid && state_eq s.state cleaning) recycled
  bump_if_rows n

unfoldable pub finish_cleaning : ℕ → Db → Result (Unit {0}) × Db
unfolding finish_cleaning_tx
finish_cleaning uuid d = commit (finish_cleaning_tx uuid) d
