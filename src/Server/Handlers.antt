-- ===== src/Server/Handlers.antt =====
-- The handlers of internal/grpcapi/server.go: a reply, and the server after the call.
use shardman.Prelude.{ℕ, not, Option, none, some, map, if◌then◌else◌}
use shardman.Prelude.Int.{pos, ltb_ℤ}
use shardman.Prelude.Text.{Text}
use shardman.Prelude.Results.{Result, ok, err}
use shardman.Bucket.Platform.{Platform}
use shardman.Bucket.Key.{ShardKey}
use shardman.Bucket.Spec.{Axis, Spec, parse_spec}
use shardman.Bucket.Routing.{Mode, validate_bootstrap}
use shardman.Store.Db.{commit}
use shardman.Store.Queries.{list_shards}
use shardman.Store.Register.{register_shard, update_stats, mark_drain_ready}
use shardman.Store.Rotate.{seal_rotate, patch_state, finish_cleaning}
use shardman.Store.Config.{Store, bootstrap}
use shardman.Resolve.Service.{resolve_write, resolve_read}
use shardman.Supervisors.Retention.{retention_tick}
use shardman.Server.Access.{unavailable, invalid_argument, internal, aborted}
use shardman.Server.Topology.{Topology, shard_to_proto, build_topology}
use shardman.Server.Requests.{
  BootstrapRequest, RegisterRequest, Request, write, read, list_bucket_shards, get,
  bootstrap_cluster, list_all, register_one, seal_one, patch_one, retention_round, report_stats,
  report_cleaned, report_drain_complete, Reply, failed, topology, shards,
}
use shardman.Server.Replies.{
  Server, Call, with_store, guarded, write_reply, read_reply, list_bucket, mode_for, axis_for,
  min_shards_for, bootstrap_reply, register_reply, role_named, seal_reply, done_reply, tick_reply,
  stats_reply, drain_reply,
}

-- `parse_uuid` is uuid.Parse, with a number for each uuid.
module _ (P : Platform) (parse_uuid : Text → Option ℕ) where
  unfoldable pub with_key :
      Option (ShardKey P) → Server → (ShardKey P → Reply × Server) → Reply × Server
  with_key none s use_key = (failed invalid_argument, s)
  with_key (some key) s use_key = use_key key

  unfoldable pub with_uuid : Option ℕ → Server → (ℕ → Reply × Server) → Reply × Server
  with_uuid none s use_uuid = (failed invalid_argument, s)
  with_uuid (some uuid) s use_uuid = use_uuid uuid

  unfoldable pub topology_reply : Server → Topology × Store → Reply × Server
  topology_reply s (t, st) = (topology t, with_store s st)

  -- The configuration is checked, its specification parsed, and stored.
  unfoldable pub bootstrap_with :
      BootstrapRequest → Mode → Axis → Server → Result (Unit {0}) → Result Spec → Reply × Server
  unfolding bootstrap_reply
  bootstrap_with req mode axis s (err e) spec = (failed invalid_argument, s)
  bootstrap_with req mode axis s (ok u) (err e) = (failed invalid_argument, s)
  bootstrap_with req mode axis s (ok u) (ok spec) =
      if not (ltb_ℤ (pos 0) req.shard_max_bytes)
      then (failed invalid_argument, s)
      else bootstrap_reply (min_shards_for axis req.retention_depth req.max_future_buckets) s (
          bootstrap P
            (record {
              mode = mode;
              bucket_axis = axis;
              bucket_spec = spec;
              bucket_spec_raw = req.bucket_spec_json;
              shard_max_bytes = req.shard_max_bytes;
              retention_depth = req.retention_depth;
              max_future_buckets = req.max_future_buckets;
            })
            s.store)

  unfoldable pub handle_bootstrap : BootstrapRequest → Server → Reply × Server
  unfolding bootstrap_with
  handle_bootstrap req s =
      let mode = mode_for req.mode req.bucket_axis in
      let axis = axis_for mode req.bucket_axis in
      bootstrap_with req mode axis s
        (validate_bootstrap mode axis req.retention_depth req.max_future_buckets)
        (parse_spec P axis req.bucket_spec_json)

  unfoldable pub handle_register : RegisterRequest → ℕ → Server → Reply × Server
  unfolding with_uuid register_reply role_named
  handle_register req now s = with_uuid (parse_uuid req.shard_uuid) s λ uuid. register_reply s (
      register_shard uuid (role_named req.role) req.dsn req.advertise_url req.startup_state now
        s.store.db)

  unfoldable pub handle_retention : Call → Server → Reply × Server
  unfolding tick_reply
  handle_retention call s =
      if not s.has_retention
      then (failed unavailable, s)
      else tick_reply s (retention_tick P call.clock s.store)

  -- Every method, with the guard of those that have one.
  unfoldable pub serve : Call → Request P → Server → Reply × Server
  unfolding with_key with_uuid write_reply read_reply topology_reply handle_register
      handle_retention handle_bootstrap seal_reply done_reply stats_reply drain_reply list_bucket
  serve call (write key) s =
      with_key key s λ k. write_reply s (resolve_write P call.env call.clock k s.store)
  serve call (read key) s =
      with_key key s λ k. read_reply s (resolve_read P call.env call.clock k s.store)
  serve call (list_bucket_shards b) s = list_bucket b s
  serve call get s = topology_reply s (build_topology P s.store)
  serve call (bootstrap_cluster req) s = guarded call s (handle_bootstrap req s)
  serve call list_all s = guarded call s (shards (map shard_to_proto (list_shards s.store.db)), s)
  serve call (register_one req) s = guarded call s (handle_register req call.env.now s)
  serve call (seal_one b) s =
      guarded call s (seal_reply b s (seal_rotate call.env.locked b call.env.now s.store.db))
  serve call (patch_one id to) s =
      guarded call s (done_reply aborted s (patch_state id to s.store.db))
  serve call retention_round s = guarded call s (handle_retention call s)
  serve call (report_stats uuid bytes) s = guarded call s (
      with_uuid (parse_uuid uuid) s
        λ u. stats_reply u s (commit (update_stats u bytes call.env.now) s.store.db))
  serve call (report_cleaned uuid) s =
      guarded call s
        (with_uuid (parse_uuid uuid) s λ u. done_reply internal s (finish_cleaning u s.store.db))
  serve call (report_drain_complete uuid) s =
      guarded call s
        (with_uuid (parse_uuid uuid) s λ u. drain_reply s (commit (mark_drain_ready u) s.store.db))
