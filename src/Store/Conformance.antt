-- ===== src/Store/Conformance.antt =====
-- Every operation, and so every history, of the store.
use shardman.Prelude.{true, false}
use shardman.Store.Db.{Db, commit}
use shardman.Store.Register.{
  promote_tx, promote_standby_to_active, update_stats, mark_drain_ready, set_last_seen_at,
}
use shardman.Store.Rotate.{
  seal_rotate_tx, seal_rotate, begin_drain_tx, begin_drain, complete_drain_seal_tx,
  complete_drain_seal, patch_state_tx, patch_state, mark_bucket_cleaning_tx, mark_bucket_cleaning,
  finish_cleaning_tx, finish_cleaning,
}
use shardman.Store.Machine.{
  Op, register, promote, rotate, start_drain, drained, finish_drain, patch, clean, cleaned, stats,
  seen, is_patch, apply,
}
use shardman.Store.Moves.{IdsOk, Change, Change-refl}
use shardman.Store.Ensures.{commit-Ensures}
use shardman.Store.Changes.{
  register_shard-Change, read_back_same, promote-Change, seal_rotate-Change, begin_drain-Change,
  mark_drain_ready-Change, complete_drain_seal-Change, patch_state-Change,
  mark_bucket_cleaning-Change, finish_cleaning-Change, update_stats-Change, set_last_seen_at-Change,
}

pub apply-Change : (o : Op) (d : Db) → IdsOk d → Change (is_patch o) d (apply o d)
unfolding apply promote_standby_to_active seal_rotate begin_drain complete_drain_seal patch_state
    mark_bucket_cleaning finish_cleaning
apply-Change (register uuid role dsn url st now) d v =
    register_shard-Change uuid role dsn url st now d v
apply-Change (promote locked b now) d v = rw (read_back_same (commit (promote_tx locked b now) d)) (
    commit-Ensures (Change false d) (promote_tx locked b now) d (promote-Change locked b now d v)
      (Change-refl false d v))
apply-Change (rotate locked b now) d v =
    commit-Ensures (Change false d) (seal_rotate_tx locked b now) d
      (seal_rotate-Change locked b now d v) (Change-refl false d v)
apply-Change (start_drain b now) d v =
    commit-Ensures (Change false d) (begin_drain_tx b now) d (begin_drain-Change b now d v)
      (Change-refl false d v)
apply-Change (drained uuid) d v =
    commit-Ensures (Change false d) (mark_drain_ready uuid) d (mark_drain_ready-Change uuid d v)
      (Change-refl false d v)
apply-Change (finish_drain locked b now) d v =
    commit-Ensures (Change false d) (complete_drain_seal_tx locked b now) d
      (complete_drain_seal-Change locked b now d v) (Change-refl false d v)
apply-Change (patch id to) d v =
    commit-Ensures (Change true d) (patch_state_tx id to) d (patch_state-Change id to d v)
      (Change-refl true d v)
apply-Change (clean b) d v =
    commit-Ensures (Change false d) (mark_bucket_cleaning_tx b) d
      (mark_bucket_cleaning-Change b d v) (Change-refl false d v)
apply-Change (cleaned uuid) d v =
    commit-Ensures (Change false d) (finish_cleaning_tx uuid) d (finish_cleaning-Change uuid d v)
      (Change-refl false d v)
apply-Change (stats uuid bytes now) d v =
    commit-Ensures (Change false d) (update_stats uuid bytes now) d
      (update_stats-Change uuid bytes now d v) (Change-refl false d v)
apply-Change (seen uuid at) d v =
    commit-Ensures (Change false d) (set_last_seen_at uuid at) d
      (set_last_seen_at-Change uuid at d v) (Change-refl false d v)
