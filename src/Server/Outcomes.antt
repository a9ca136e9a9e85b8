-- ===== src/Server/Outcomes.antt =====
-- What a call of the server may do to its store and to its broadcast.
use shardman.Prelude.{ℕ, not, Option, none, some, refl, inl, inr, Bool-cases}
use shardman.Prelude.Int.{pos, ltb_ℤ}
use shardman.Prelude.Text.{Text}
use shardman.Prelude.Results.{Result, ok, err}
use shardman.Bucket.Platform.{Platform}
use shardman.Bucket.Key.{ShardKey}
use shardman.Bucket.Spec.{Axis, Spec}
use shardman.Bucket.Routing.{Mode}
use shardman.Store.Db.{commit}
use shardman.Store.Machine.{apply, register, rotate, patch, cleaned, stats, drained}
use shardman.Store.Register.{register_shard, update_stats, mark_drain_ready}
use shardman.Store.Rotate.{seal_rotate, patch_state, finish_cleaning}
use shardman.Store.Config.{get_config}
use shardman.Resolve.Service.{resolve_write, resolve_read}
use shardman.Resolve.Histories.{resolve_write-Resolves, resolve_read-Resolves}
use shardman.Supervisors.Retention.{retention_tick}
use shardman.Server.Access.{aborted, internal}
use shardman.Server.Topology.{build_topology}
use shardman.Server.Guard.{guarded-cases}
use shardman.Server.Consistency.{
  apply-Keeps, get_config-Keeps, resolved-Keeps, retention_tick-Keeps, bootstrap-Keeps,
}
use shardman.Server.Requests.{
  BootstrapRequest, Request, write, read, list_bucket_shards, get, bootstrap_cluster, list_all,
  register_one, seal_one, patch_one, retention_round, report_stats, report_cleaned,
  report_drain_complete, Reply, failed,
}
use shardman.Server.Replies.{Server, Call, guarded, role_named, list_bucket}
use shardman.Server.Handlers.{
  serve, with_uuid, with_key, topology_reply, bootstrap_with, handle_bootstrap, handle_register,
  handle_retention,
}
use shardman.Server.Reaches.{
  Reaches, stays-Reaches, write_reply-Reaches, read_reply-Reaches, tick_reply-Reaches,
  bootstrap_reply-Reaches, register_reply-Reaches, seal_reply-Reaches, done_reply-Reaches,
  stats_reply-Reaches, drain_reply-Reaches,
}

module _ (P : Platform) where
  module _ (parse_uuid : Text → Option ℕ) where
    guarded-Reaches :
        (call : Call) (s : Server) (next : Reply × Server)
        → Reaches P s next
        → Reaches P s (guarded call s next)
    guarded-Reaches call s next h =
        guarded-cases (Reaches P s) call s next (λ code r. stays-Reaches P s (failed code)) (λ a. h)

    with_uuid-Reaches :
        (u : Option ℕ) (s : Server) (next : ℕ → Reply × Server)
        → ((uuid : ℕ) → Reaches P s (next uuid))
        → Reaches P s (with_uuid P parse_uuid u s next)
    unfolding with_uuid
    with_uuid-Reaches none s next h = stays-Reaches P s _
    with_uuid-Reaches (some uuid) s next h = h uuid

    with_key-Reaches :
        (k : Option (ShardKey P)) (s : Server) (next : ShardKey P → Reply × Server)
        → ((key : ShardKey P) → Reaches P s (next key))
        → Reaches P s (with_key P parse_uuid k s next)
    unfolding with_key
    with_key-Reaches none s next h = stays-Reaches P s _
    with_key-Reaches (some key) s next h = h key

    bootstrap_with-Reaches :
        (req : BootstrapRequest) (mode : Mode) (axis : Axis) (s : Server)
        (checked : Result (Unit {0})) (spec : Result Spec)
        → Reaches P s (bootstrap_with P parse_uuid req mode axis s checked spec)
    unfolding bootstrap_with
    bootstrap_with-Reaches req mode axis s (err e) spec = stays-Reaches P s _
    bootstrap_with-Reaches req mode axis s (ok u) (err e) = stays-Reaches P s _
    bootstrap_with-Reaches req mode axis s (ok u) (ok spec) =
        elim (Bool-cases (not (ltb_ℤ (pos 0) req.shard_max_bytes))) [
          | inl t ↦ rw t (stays-Reaches P s _)
          | inr n ↦ rw n (bootstrap_reply-Reaches P _ s _ (bootstrap-Keeps P _ s.store))
        ]

    handle_retention-Reaches :
        (call : Call) (s : Server) → Reaches P s (handle_retention P parse_uuid call s)
    unfolding handle_retention
    handle_retention-Reaches call s = elim (Bool-cases (not s.has_retention)) [
      | inl t ↦ rw t (stays-Reaches P s _)
      | inr n ↦ rw n (
          tick_reply-Reaches P s (retention_tick P call.clock s.store)
            (retention_tick-Keeps P call.clock s.store))
    ]

    pub serve-Reaches :
        (call : Call) (r : Request P) (s : Server) → Reaches P s (serve P parse_uuid call r s)
    unfolding serve handle_register handle_bootstrap list_bucket topology_reply build_topology apply
    serve-Reaches call (write key) s = with_key-Reaches key s _ λ k.
        write_reply-Reaches P s (resolve_write P call.env call.clock k s.store) (
          resolved-Keeps P s.store (resolve_write P call.env call.clock k s.store)
            (resolve_write-Resolves P call.env call.clock k s.store))
    serve-Reaches call (read key) s = with_key-Reaches key s _ λ k.
        read_reply-Reaches P s (resolve_read P call.env call.clock k s.store) (
          resolved-Keeps P s.store (resolve_read P call.env call.clock k s.store)
            (resolve_read-Resolves P call.env call.clock k s.store))
    serve-Reaches call (list_bucket_shards b) s = stays-Reaches P s _
    serve-Reaches call get s = record {
      store = (get_config P s.store).1;
      keeps = get_config-Keeps P s.store;
      result = inl refl;
    }
    serve-Reaches call (bootstrap_cluster req) s =
        guarded-Reaches call s _ (bootstrap_with-Reaches req _ _ s _ _)
    serve-Reaches call list_all s = guarded-Reaches call s _ (stays-Reaches P s _)
    serve-Reaches call (register_one req) s = guarded-Reaches call s _ (
        with_uuid-Reaches (parse_uuid req.shard_uuid) s _ λ u.
          register_reply-Reaches P s
            (register_shard u (role_named req.role) req.dsn req.advertise_url req.startup_state
              call.env.now s.store.db)
            (apply-Keeps P
              (register u (role_named req.role) req.dsn req.advertise_url req.startup_state
                call.env.now)
              s.store))
    serve-Reaches call (seal_one b) s = guarded-Reaches call s _ (
        seal_reply-Reaches P b s (seal_rotate call.env.locked b call.env.now s.store.db)
          (apply-Keeps P (rotate call.env.locked b call.env.now) s.store))
    serve-Reaches call (patch_one id to) s = guarded-Reaches call s _ (
        done_reply-Reaches P aborted s (patch_state id to s.store.db)
          (apply-Keeps P (patch id to) s.store))
    serve-Reaches call retention_round s =
        guarded-Reaches call s _ (handle_retention-Reaches call s)
    serve-Reaches call (report_stats uuid bytes) s = guarded-Reaches call s _ (
        with_uuid-Reaches _ s _ λ u.
          stats_reply-Reaches P u s (commit (update_stats u bytes call.env.now) s.store.db)
            (apply-Keeps P (stats u bytes call.env.now) s.store))
    serve-Reaches call (report_cleaned uuid) s = guarded-Reaches call s _ (
        with_uuid-Reaches _ s _ λ u.
          done_reply-Reaches P internal s (finish_cleaning u s.store.db)
            (apply-Keeps P (cleaned u) s.store))
    serve-Reaches call (report_drain_complete uuid) s = guarded-Reaches call s _ (
        with_uuid-Reaches _ s _ λ u.
          drain_reply-Reaches P s (commit (mark_drain_ready u) s.store.db)
            (apply-Keeps P (drained u) s.store))
