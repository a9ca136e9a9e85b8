-- ===== src/Server/Failures.antt =====
-- What a failed call of the admin or the internal service leaves behind.
use shardman.Prelude.{ℕ, true, not, Option, none, some, ◌≡◌, refl, inl, inr, Bool-cases}
use shardman.Prelude.Int.{pos, ltb_ℤ}
use shardman.Prelude.Text.{Text}
use shardman.Prelude.Results.{Result, ok, err}
use shardman.Bucket.Platform.{Platform}
use shardman.Bucket.Spec.{Axis, Spec}
use shardman.Bucket.Routing.{Mode}
use shardman.Store.Shard.{Shard}
use shardman.Store.Db.{Db, commit}
use shardman.Store.Rotate.{
  seal_rotate, patch_state, finish_cleaning, seal_rotate_tx, patch_state_tx, finish_cleaning_tx,
}
use shardman.Store.Register.{register_shard, update_stats, mark_drain_ready}
use shardman.Store.Config.{bootstrap}
use shardman.Store.Readback.{commit-RollsBack, register_shard-RollsBack}
use shardman.Supervisors.Retention.{retention_tick}
use shardman.Server.Access.{aborted, internal}
use shardman.Server.Guard.{needs_key, guarded-cases}
use shardman.Server.Requests.{
  BootstrapRequest, RegisterRequest, Request, write, read, list_bucket_shards, get,
  bootstrap_cluster, list_all, register_one, seal_one, patch_one, retention_round as sweep_now,
  report_stats, report_cleaned, report_drain_complete, Reply,
}
use shardman.Server.Replies.{
  Server, Call, guarded, seal_reply, done_reply, drain_reply, stats_reply, register_reply,
  role_named,
}
use shardman.Server.Handlers.{
  serve, with_uuid, bootstrap_with, handle_bootstrap, handle_register, handle_retention,
}
use shardman.Server.Rollbacks.{
  Unharmed, seal_reply-Unharmed, done_reply-Unharmed, drain_reply-Unharmed, stats_reply-Unharmed,
  register_reply-Unharmed, tick_reply-Unharmed, bootstrap_reply-Unharmed, retention_tick-RollsBack,
  bootstrap-RollsBack,
}

module _ (P : Platform) (parse_uuid : Text → Option ℕ) where
  with_uuid-Unharmed :
      (u : Option ℕ) (s : Server) (next : ℕ → Reply × Server)
      → ((uuid : ℕ) → Unharmed s (next uuid))
      → Unharmed s (with_uuid P parse_uuid u s next)
  unfolding with_uuid
  with_uuid-Unharmed none s next h f = (refl, refl)
  with_uuid-Unharmed (some uuid) s next h f = h uuid f

  bootstrap_with-Unharmed :
      (req : BootstrapRequest) (mode : Mode) (axis : Axis) (s : Server)
      (checked : Result (Unit {0})) (spec : Result Spec)
      → Unharmed s (bootstrap_with P parse_uuid req mode axis s checked spec)
  unfolding bootstrap_with
  bootstrap_with-Unharmed req mode axis s (err e) spec f = (refl, refl)
  bootstrap_with-Unharmed req mode axis s (ok u) (err e) f = (refl, refl)
  bootstrap_with-Unharmed req mode axis s (ok u) (ok spec) f =
      elim (Bool-cases (not (ltb_ℤ (pos 0) req.shard_max_bytes))) [
        | inl t ↦ rw t (refl, refl)
        | inr n ↦ rw n (
            bootstrap_reply-Unharmed _ s (bootstrap P _ s.store) (bootstrap-RollsBack P _ s.store)
              (rw n at f))
      ]

  handle_retention-Unharmed :
      (call : Call) (s : Server) → Unharmed s (handle_retention P parse_uuid call s)
  unfolding handle_retention
  handle_retention-Unharmed call s f = elim (Bool-cases (not s.has_retention)) [
    | inl t ↦ rw t (refl, refl)
    | inr n ↦ rw n (
        tick_reply-Unharmed s (retention_tick P call.clock s.store)
          (retention_tick-RollsBack P call.clock s.store) (rw n at f))
  ]

  guarded-Unharmed :
      (call : Call) (s : Server) (next : Reply × Server)
      → Unharmed s next
      → Unharmed s (guarded call s next)
  guarded-Unharmed call s next h =
      guarded-cases (Unharmed s) call s next (λ code r f. (refl, refl)) (λ a. h)

  abbrev registration : RegisterRequest → ℕ → ℕ → Db → Result Shard × Db
  registration req now uuid d =
      register_shard uuid (role_named req.role) req.dsn req.advertise_url req.startup_state now d

  identified-Unharmed :
      (call : Call) (s : Server) (u : Option ℕ) (next : ℕ → Reply × Server)
      → ((uuid : ℕ) → Unharmed s (next uuid))
      → Unharmed s (guarded call s (with_uuid P parse_uuid u s next))
  identified-Unharmed call s u next h =
      guarded-Unharmed call s (with_uuid P parse_uuid u s next) (with_uuid-Unharmed u s next h)

  -- A call of the admin or the internal service that fails, for whatever reason, leaves the database
  -- and the subscribers of the topology as they were.
  pub serve-Unharmed :
      (call : Call) (r : Request P) (s : Server)
      → needs_key r ≡ true
      → Unharmed s (serve P parse_uuid call r s)
  unfolding serve handle_register seal_rotate patch_state finish_cleaning handle_bootstrap
  serve-Unharmed call (write key) s h = cc
  serve-Unharmed call (read key) s h = cc
  serve-Unharmed call (list_bucket_shards b) s h = cc
  serve-Unharmed call get s h = cc
  serve-Unharmed call (bootstrap_cluster req) s h =
      guarded-Unharmed call s _ (bootstrap_with-Unharmed req _ _ s _ _)
  serve-Unharmed call list_all s h = guarded-Unharmed call s _ (λ f. cc)
  serve-Unharmed call (register_one req) s h =
      identified-Unharmed call s (parse_uuid req.shard_uuid)
        (λ u. register_reply s (registration req call.env.now u s.store.db))
        (λ u. register_reply-Unharmed s (registration req call.env.now u s.store.db) (
          register_shard-RollsBack u (role_named req.role) req.dsn req.advertise_url
            req.startup_state call.env.now s.store.db))
  serve-Unharmed call (seal_one b) s h =
      guarded-Unharmed call s
        (seal_reply b s (seal_rotate call.env.locked b call.env.now s.store.db))
        (seal_reply-Unharmed b s (seal_rotate call.env.locked b call.env.now s.store.db)
          (commit-RollsBack (seal_rotate_tx call.env.locked b call.env.now) s.store.db))
  serve-Unharmed call (patch_one id to) s h =
      guarded-Unharmed call s (done_reply aborted s (patch_state id to s.store.db)) (
        done_reply-Unharmed aborted s (patch_state id to s.store.db)
          (commit-RollsBack (patch_state_tx id to) s.store.db))
  serve-Unharmed call sweep_now s h =
      guarded-Unharmed call s (handle_retention P parse_uuid call s)
        (handle_retention-Unharmed call s)
  serve-Unharmed call (report_stats uuid bytes) s h =
      identified-Unharmed call s (parse_uuid uuid)
        (λ u. stats_reply u s (commit (update_stats u bytes call.env.now) s.store.db))
        (λ u.
          stats_reply-Unharmed u s (commit (update_stats u bytes call.env.now) s.store.db)
            (commit-RollsBack (update_stats u bytes call.env.now) s.store.db))
  serve-Unharmed call (report_cleaned uuid) s h =
      identified-Unharmed call s (parse_uuid uuid)
        (λ u. done_reply internal s (finish_cleaning u s.store.db))
        (λ u.
          done_reply-Unharmed internal s (finish_cleaning u s.store.db)
            (commit-RollsBack (finish_cleaning_tx u) s.store.db))
  serve-Unharmed call (report_drain_complete uuid) s h =
      identified-Unharmed call s (parse_uuid uuid)
        (λ u. drain_reply s (commit (mark_drain_ready u) s.store.db))
        (λ u.
          drain_reply-Unharmed s (commit (mark_drain_ready u) s.store.db)
            (commit-RollsBack (mark_drain_ready u) s.store.db))
