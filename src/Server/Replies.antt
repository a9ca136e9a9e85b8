-- ===== src/Server/Replies.antt =====
-- The state of the server of internal/grpcapi/server.go, and how the handlers answer: metrics, traces and
-- the texts of the errors are left out.
use shardman.Prelude.{ℕ, Bool, Option, none, some, List, [], map, filter, if◌then◌else◌}
use shardman.Prelude.Int.{ℤ, pos}
use shardman.Prelude.Text.{Text, codes, text_eq}
use shardman.Prelude.Results.{
  Result, ok, err, Error, already_bootstrapped, is_not_found, is_conflict,
}
use shardman.Bucket.Id.{min_shards}
use shardman.Bucket.Spec.{Axis, time, hash, other_axis}
use shardman.Bucket.Routing.{Mode, range_mode, hash_mode, no_mode}
use shardman.Fsm.{State, Role, data_role, error_role}
use shardman.Store.Shard.{Shard, bucket_is}
use shardman.Store.Db.{Db}
use shardman.Store.Queries.{list_shards, get_shard_by_uuid}
use shardman.Store.Config.{Store}
use shardman.Store.Promote.{Env}
use shardman.Resolve.Service.{WriteResult, ReadResult}
use shardman.Broadcast.{Broadcast}
use shardman.Server.Access.{
  Code, unavailable, invalid_argument, internal, already_exists, not_found, aborted, require_key,
}
use shardman.Server.Topology.{shard_to_proto, wrap32}
use shardman.Server.Watch.{notify_topology}
use shardman.Server.Requests.{
  Reply, failed, written, found, bucket_shards, bootstrapped, registered, rotated, accepted,
  reported,
}

-- The type Server; `has_retention` tells whether RetSup is set.
pub record Server : Type 0 where
  pub cluster_key : Text
  pub has_retention : Bool
  pub store : Store
  pub broadcast : Option Broadcast

-- What a call finds: its metadata, NOW() with the rows that others lock, and the clock in seconds.
pub record Call : Type 0 where
  pub metadata : Option (List Text)
  pub env : Env
  pub clock : ℤ

abbrev pub with_store : Server → Store → Server
with_store s st = record s { store = st }

abbrev pub with_db : Server → Db → Server
with_db s d = with_store s (record s.store { db = d })

unfoldable pub notify_with : Option Broadcast → Server → Server
notify_with none s = s
notify_with (some b) s = record s {
  broadcast = some (notify_topology (record { store = s.store; broadcast = b })).broadcast;
}

-- notifyTopology of a server that may have no broadcast.
unfoldable pub notify_all : Server → Server
unfolding notify_with
notify_all s = notify_with s.broadcast s

-- A handler that needs the key.
abbrev pub guarded : Call → Server → Reply × Server → Reply × Server
guarded call s next = elim (require_key s.cluster_key call.metadata) [
  | some code ↦ (failed code, s)
  | none ↦ next
]

-- ErrNotFound has a code of its own.
unfoldable pub code_of_write : Error → Code
code_of_write e = if is_not_found e then unavailable else internal

unfoldable pub write_reply : Server → Result WriteResult × Store → Reply × Server
unfolding code_of_write
write_reply s (err e, st) = (failed (code_of_write e), with_store s st)
write_reply s (ok r, st) = (written r, with_store s st)

unfoldable pub read_reply : Server → Result ReadResult × Store → Reply × Server
read_reply s (err e, st) = (failed internal, with_store s st)
read_reply s (ok r, st) = (found r, with_store s st)

unfoldable pub list_bucket : Text → Server → Reply × Server
list_bucket b s = (
  bucket_shards b
      (map shard_to_proto (filter (λ x. bucket_is x.bucket_id b) (list_shards s.store.db))),
  s,
)

-- A mode that is not set is that of the axis.
unfoldable pub mode_for : Mode → Axis → Mode
mode_for no_mode hash = hash_mode
mode_for no_mode axis = range_mode
mode_for mode axis = mode

-- An axis that is not set is that of the mode "hash".
unfoldable pub axis_for : Mode → Axis → Axis
axis_for hash_mode (other_axis []) = hash
axis_for mode axis = axis

unfoldable pub min_shards_for : Axis → (depth max_future : Option ℤ) → ℤ
min_shards_for time (some depth) (some max_future) = wrap32 (min_shards depth max_future)
min_shards_for axis depth max_future = pos 0

unfoldable pub code_of_bootstrap : Error → Code
code_of_bootstrap already_bootstrapped = already_exists
code_of_bootstrap _ = internal

unfoldable pub bootstrap_reply : ℤ → Server → Result (Unit {0}) × Store → Reply × Server
unfolding code_of_bootstrap
bootstrap_reply n s (err e, st) = (failed (code_of_bootstrap e), with_store s st)
bootstrap_reply n s (ok u, st) = (bootstrapped n, notify_all (with_store s st))

unfoldable pub code_of_register : Error → Code
code_of_register e = if is_conflict e then already_exists else invalid_argument

unfoldable pub register_reply : Server → Result Shard × Db → Reply × Server
unfolding code_of_register
register_reply s (err e, d) = (failed (code_of_register e), with_db s d)
register_reply s (ok sh, d) = (registered (shard_to_proto sh), notify_all (with_db s d))

unfoldable pub role_named : Text → Role
role_named t = if text_eq t (codes "error") then error_role else data_role

unfoldable pub code_of_seal : Error → Code
code_of_seal e = if is_not_found e then not_found else aborted

unfoldable pub seal_reply : Text → Server → Result (Unit {0}) × Db → Reply × Server
unfolding code_of_seal
seal_reply b s (err e, d) = (failed (code_of_seal e), with_db s d)
seal_reply b s (ok u, d) = (rotated b, notify_all (with_db s d))

-- A call that has one code for every error, and announces the version if it succeeds.
unfoldable pub done_reply : Code → Server → Result (Unit {0}) × Db → Reply × Server
done_reply code s (err e, d) = (failed code, with_db s d)
done_reply code s (ok u, d) = (accepted, notify_all (with_db s d))

unfoldable pub tick_reply : Server → Result (Unit {0}) × Store → Reply × Server
tick_reply s (err e, st) = (failed internal, with_store s st)
tick_reply s (ok u, st) = (accepted, notify_all (with_store s st))

-- The state that the agent is told; an empty one if the shard is not found.
unfoldable pub state_of : Result Shard → Option State
state_of (err e) = none
state_of (ok s) = some s.state

unfoldable pub stats_reply : ℕ → Server → Result (Unit {0}) × Db → Reply × Server
unfolding state_of
stats_reply uuid s (err e, d) = (failed not_found, with_db s d)
stats_reply uuid s (ok u, d) = (reported (state_of (get_shard_by_uuid uuid d)), with_db s d)

-- ReportDrainComplete announces nothing.
unfoldable pub drain_reply : Server → Result (Unit {0}) × Db → Reply × Server
drain_reply s (err e, d) = (failed not_found, with_db s d)
drain_reply s (ok u, d) = (accepted, with_db s d)
