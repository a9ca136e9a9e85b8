-- ===== src/Server/Notices.antt =====
-- Which calls announce the topology version, and that they announce the database's.
use shardman.Prelude.{ℕ, Bool, true, false, not, Option, none, some, ◌≡◌, ap, inl, inr, Bool-cases}
use shardman.Prelude.Int.{ℤ, pos, ltb_ℤ}
use shardman.Prelude.Text.{Text}
use shardman.Prelude.Results.{Result, ok, err}
use shardman.Bucket.Platform.{Platform}
use shardman.Bucket.Spec.{Axis, Spec, parse_spec}
use shardman.Bucket.Routing.{Mode, validate_bootstrap}
use shardman.Store.Shard.{Shard}
use shardman.Store.Db.{Db, ConfigRow}
use shardman.Store.Register.{register_shard}
use shardman.Store.Rotate.{seal_rotate, patch_state, finish_cleaning}
use shardman.Store.Config.{Store}
use shardman.Supervisors.Retention.{retention_tick}
use shardman.Broadcast.{Broadcast, notify}
use shardman.Server.Access.{Code, aborted, internal, unavailable, invalid_argument}
use shardman.Server.Topology.{shard_to_proto}
use shardman.Server.Watch.{notify_topology, announce}
use shardman.Server.Delivery.{version_read}
use shardman.Server.Guard.{guarded-cases}
use shardman.Server.Requests.{
  BootstrapRequest, Request, write, read, list_bucket_shards, get, bootstrap_cluster, list_all,
  register_one, seal_one, patch_one, retention_round, report_stats, report_cleaned,
  report_drain_complete, Reply, failed, is_failed, rotated, accepted, registered, bootstrapped,
}
use shardman.Server.Replies.{
  Server, Call, guarded, with_store, notify_with, notify_all, seal_reply, done_reply, tick_reply,
  register_reply, bootstrap_reply, role_named, mode_for, axis_for,
}
use shardman.Server.Handlers.{
  serve, with_uuid, bootstrap_with, handle_bootstrap, handle_register, handle_retention,
}

-- The calls after which the server tells the streams that the topology may be another.
abbrev pub announces : {P : Platform} → Request P → Bool
announces (bootstrap_cluster req) = true
announces (register_one req) = true
announces (seal_one b) = true
announces (patch_one id to) = true
announces retention_round = true
announces (report_cleaned uuid) = true
announces _ = false

-- If the call succeeds and there is a configuration then, the server's broadcast has been told its
-- version.
abbrev pub Told : Server → Reply × Server → Type 0
Told s r =
    is_failed r.0 ≡ false
    → (b : Broadcast) (c : ConfigRow) → s.broadcast ≡ some b
    → r.1.store.db.config ≡ some c
    → r.1.broadcast ≡ some (notify c.topology_version b)

notify_with-Told :
    (o : Option Broadcast) (s : Server) (b : Broadcast) (c : ConfigRow)
    → o ≡ some b
    → (notify_with o s).store.db.config ≡ some c
    → (notify_with o s).broadcast ≡ some (notify c.topology_version b)
unfolding notify_with notify_topology announce
notify_with-Told none s b c e e' = cc
notify_with-Told (some b') s b c e e' =
    let same : b' ≡ b = cc in
    rw (version_read s.store.db e') (ap (λ x. some (notify c.topology_version x)) same)

notify_all-Told :
    (s : Server) (st : Store) (reply : Reply) → Told s (reply, notify_all (with_store s st))
unfolding notify_all
notify_all-Told s st reply done b c e e' = notify_with-Told s.broadcast (with_store s st) b c e e'

seal_reply-Told : (b : Text) (s : Server) (r : Result (Unit {0}) × Db) → Told s (seal_reply b s r)
unfolding seal_reply
seal_reply-Told b s (ok x, d) = notify_all-Told s (record s.store { db = d }) (rotated b)
seal_reply-Told b s (err e, d) = λ h. cc

done_reply-Told :
    (code : Code) (s : Server) (r : Result (Unit {0}) × Db) → Told s (done_reply code s r)
unfolding done_reply
done_reply-Told code s (ok x, d) = notify_all-Told s (record s.store { db = d }) accepted
done_reply-Told code s (err e, d) = λ h. cc

register_reply-Told : (s : Server) (r : Result Shard × Db) → Told s (register_reply s r)
unfolding register_reply
register_reply-Told s (ok x, d) =
    notify_all-Told s (record s.store { db = d }) (registered (shard_to_proto x))
register_reply-Told s (err e, d) = λ h. cc

tick_reply-Told : (s : Server) (r : Result (Unit {0}) × Store) → Told s (tick_reply s r)
unfolding tick_reply
tick_reply-Told s (ok x, st) = notify_all-Told s st accepted
tick_reply-Told s (err e, st) = λ h. cc

bootstrap_reply-Told :
    (n : ℤ) (s : Server) (r : Result (Unit {0}) × Store) → Told s (bootstrap_reply n s r)
unfolding bootstrap_reply
bootstrap_reply-Told n s (ok x, st) = notify_all-Told s st (bootstrapped n)
bootstrap_reply-Told n s (err e, st) = λ h. cc

failed-Told : (s : Server) (code : Code) → Told s (failed code, s)
failed-Told s code h = cc

module _ (P : Platform) (parse_uuid : Text → Option ℕ) where
  guarded-Told :
      (call : Call) (s : Server) (next : Reply × Server)
      → Told s next
      → Told s (guarded call s next)
  guarded-Told call s next h =
      guarded-cases (Told s) call s next (λ code r. failed-Told s code) (λ a. h)

  with_uuid-Told :
      (u : Option ℕ) (s : Server) (next : ℕ → Reply × Server)
      → ((uuid : ℕ) → Told s (next uuid))
      → Told s (with_uuid P parse_uuid u s next)
  unfolding with_uuid
  with_uuid-Told none s next h = failed-Told s invalid_argument
  with_uuid-Told (some uuid) s next h = h uuid

  bootstrap_with-Told :
      (req : BootstrapRequest) (mode : Mode) (axis : Axis) (s : Server)
      (checked : Result (Unit {0})) (spec : Result Spec)
      → Told s (bootstrap_with P parse_uuid req mode axis s checked spec)
  unfolding bootstrap_with
  bootstrap_with-Told req mode axis s (err e) spec = failed-Told s invalid_argument
  bootstrap_with-Told req mode axis s (ok u) (err e) = failed-Told s invalid_argument
  bootstrap_with-Told req mode axis s (ok u) (ok spec) =
      elim (Bool-cases (not (ltb_ℤ (pos 0) req.shard_max_bytes))) [
        | inl t ↦ rw (Told, t) (failed-Told s invalid_argument)
        | inr n ↦ rw (Told, n) (bootstrap_reply-Told _ s _)
      ]

  handle_retention-Told : (call : Call) (s : Server) → Told s (handle_retention P parse_uuid call s)
  unfolding handle_retention
  handle_retention-Told call s = elim (Bool-cases (not s.has_retention)) [
    | inl t ↦ rw (Told, t) (failed-Told s unavailable)
    | inr n ↦ rw (Told, n) (tick_reply-Told s (retention_tick P call.clock s.store))
  ]

  -- When one of the calls that change what clients see succeeds (Bootstrap, RegisterShard,
  -- SealRotate, PatchShardState, RetentionTick and ReportCleaned), and the cluster has a
  -- configuration then, the subscribers of the server's broadcast have just been notified of exactly
  -- the version that the database has after the call.
  pub serve-Told :
      (call : Call) (r : Request P) (s : Server)
      → announces r ≡ true
      → Told s (serve P parse_uuid call r s)
  unfolding serve handle_register handle_bootstrap
  serve-Told call (write key) s h = cc
  serve-Told call (read key) s h = cc
  serve-Told call (list_bucket_shards b) s h = cc
  serve-Told call get s h = cc
  serve-Told call list_all s h = cc
  serve-Told call (report_stats uuid bytes) s h = cc
  serve-Told call (report_drain_complete uuid) s h = cc
  serve-Told call (bootstrap_cluster req) s h =
      let mode = mode_for req.mode req.bucket_axis in
      let axis = axis_for mode req.bucket_axis in
      guarded-Told call s (handle_bootstrap P parse_uuid req s) (
        bootstrap_with-Told req mode axis s
          (validate_bootstrap mode axis req.retention_depth req.max_future_buckets)
          (parse_spec P axis req.bucket_spec_json))
  serve-Told call (register_one req) s h =
      guarded-Told call s (handle_register P parse_uuid req call.env.now s) (
        with_uuid-Told (parse_uuid req.shard_uuid) s
          (λ u. register_reply s (
            register_shard u (role_named req.role) req.dsn req.advertise_url req.startup_state
              call.env.now s.store.db))
          (λ u. register_reply-Told s (
            register_shard u (role_named req.role) req.dsn req.advertise_url req.startup_state
              call.env.now s.store.db)))
  serve-Told call (seal_one b) s h =
      let r = seal_rotate call.env.locked b call.env.now s.store.db in
      guarded-Told call s (seal_reply b s r) (seal_reply-Told b s r)
  serve-Told call (patch_one id to) s h =
      let r = patch_state id to s.store.db in
      guarded-Told call s (done_reply aborted s r) (done_reply-Told aborted s r)
  serve-Told call retention_round s h =
      guarded-Told call s (handle_retention P parse_uuid call s) (handle_retention-Told call s)
  serve-Told call (report_cleaned uuid) s h =
      guarded-Told call s
        (with_uuid P parse_uuid (parse_uuid uuid) s
          λ u. done_reply internal s (finish_cleaning u s.store.db))
        (with_uuid-Told (parse_uuid uuid) s
          (λ u. done_reply internal s (finish_cleaning u s.store.db))
          (λ u. done_reply-Told internal s (finish_cleaning u s.store.db)))
