-- ===== src/Store/Machine.antt =====
-- The database as a machine: the store's transactions as one type of operations, and the histories
-- of a database as sequences of them, in the order of their commits.
use shardman.Prelude.{ℕ, Bool, true, false, List, [], ◌∷◌}
use shardman.Prelude.Int.{ℤ}
use shardman.Prelude.Text.{Text}
use shardman.Fsm.{State, Role}
use shardman.Store.Db.{Db, commit}
use shardman.Store.Register.{
  register_shard, promote_standby_to_active, set_last_seen_at, update_stats, mark_drain_ready,
}
use shardman.Store.Rotate.{
  seal_rotate, begin_drain, complete_drain_seal, patch_state, mark_bucket_cleaning, finish_cleaning,
}

-- `now` is NOW(), and `locked` the ids of the rows that other transactions hold.
pub data Op : Type 0 where
  register : (uuid : ℕ) (role : Role) (dsn url : Text) (startup : State) (now : ℕ) → Op
  promote : (locked : ℕ → Bool) (bucket : Text) (now : ℕ) → Op
  rotate : (locked : ℕ → Bool) (bucket : Text) (now : ℕ) → Op
  start_drain : (bucket : Text) (now : ℕ) → Op
  drained : (uuid : ℕ) → Op
  finish_drain : (locked : ℕ → Bool) (bucket : Text) (now : ℕ) → Op
  patch : (id : ℕ) (to : State) → Op
  clean : (bucket : Text) → Op
  cleaned : (uuid : ℕ) → Op
  stats : (uuid : ℕ) (bytes : ℤ) (now : ℕ) → Op
  seen : (uuid : ℕ) (at : ℕ) → Op

-- PatchState is the one operation by which an administrator sets a state.
abbrev pub is_patch : Op → Bool
is_patch (patch id to) = true
is_patch _ = false

-- The database after the operation; one that fails leaves it as it was.
unfoldable pub apply : Op → Db → Db
apply (register uuid role dsn url st now) d = (register_shard uuid role dsn url st now d).1
apply (promote locked b now) d = (promote_standby_to_active locked b now d).1
apply (rotate locked b now) d = (seal_rotate locked b now d).1
apply (start_drain b now) d = (begin_drain b now d).1
apply (drained uuid) d = (commit (mark_drain_ready uuid) d).1
apply (finish_drain locked b now) d = (complete_drain_seal locked b now d).1
apply (patch id to) d = (patch_state id to d).1
apply (clean b) d = (mark_bucket_cleaning b d).1
apply (cleaned uuid) d = (finish_cleaning uuid d).1
apply (stats uuid bytes now) d = (commit (update_stats uuid bytes now) d).1
apply (seen uuid at) d = (commit (set_last_seen_at uuid at) d).1

unfoldable pub run : List Op → Db → Db
run [] d = d
run (o ∷ os) d = run os (apply o d)
