-- ===== src/Resolve/Serving.antt =====
-- What a resolution does to the database, and what it returns.
use shardman.Prelude.{◌≡◌, refl, not, Option, none, some, Bool-cases, inl, inr, arith}
use shardman.Prelude.Text.{Text}
use shardman.Prelude.Results.{Result, ok, err, is_not_found}
use shardman.Store.Shard.{Shard}
use shardman.Store.Db.{Db}
use shardman.Store.Queries.{active_for_bucket, stale_active_for_bucket, has_active_in_bucket}
use shardman.Store.Machine.{promote, rotate, apply}
use shardman.Store.History.{History, History-refl, History-apply, History-trans}
use shardman.Store.Register.{promote_standby_to_active}
use shardman.Store.Rotate.{seal_rotate}
use shardman.Store.Promote.{Env, as_found, unless_stale, unless_active, auto_promote_if_no_active}
use shardman.Resolve.Active.{
  after_rotate, rotate_stale, failover_stale_active, after_promote, or_go_on, after_failover,
  ensure_active,
}

promote-History :
    (env : Env) (b : Text) (d : Db) → History d (promote_standby_to_active env.locked b env.now d).1
unfolding apply
promote-History env b d = History-apply (promote env.locked b env.now) d refl

as_found_same : (r : Result Shard × Db) → (as_found r).1 ≡ r.1
unfolding as_found
as_found_same (ok s, d) = refl
as_found_same (err e, d) = refl

unless_stale-History :
    (env : Env) (b : Text) (r : Result Shard) (d : Db) → History d (unless_stale env b r d).1
unfolding unless_stale
unless_stale-History env b (ok s) d = History-refl d
unless_stale-History env b (err e) d = elim (Bool-cases (not (is_not_found e))) [
  | inl t ↦ rw t (History-refl d)
  | inr f ↦
      rw (f, as_found_same (promote_standby_to_active env.locked b env.now d))
        (promote-History env b d)
]

unless_active-History :
    (env : Env) (b : Text) (r : Result Shard) (d : Db) → History d (unless_active env b r d).1
unfolding unless_active
unless_active-History env b (ok s) d = History-refl d
unless_active-History env b (err e) d = elim (Bool-cases (not (is_not_found e))) [
  | inl t ↦ rw t (History-refl d)
  | inr f ↦ rw f (elim (Bool-cases (has_active_in_bucket b d)) [
    | inl t ↦ rw t (History-refl d)
    | inr g ↦ rw g (unless_stale-History env b (stale_active_for_bucket env.now env.timeout b d) d)
  ])
]

-- A rotation keeps its database, whatever becomes of its result.
after_rotate_same : (r : Result (Unit {0}) × Db) → (after_rotate r).1 ≡ r.1
unfolding after_rotate
after_rotate_same (ok u, d) = refl
after_rotate_same (err e, d) = ground arith

rotate-History : (env : Env) (b : Text) (d : Db) → History d (seal_rotate env.locked b env.now d).1
unfolding apply
rotate-History env b d = History-apply (rotate env.locked b env.now) d refl

rotate_stale-History :
    (env : Env) (b : Text) (r : Result Shard) (d : Db) → History d (rotate_stale env b r d).1
unfolding rotate_stale
rotate_stale-History env b (ok s) d =
    rw (after_rotate_same (seal_rotate env.locked b env.now d)) (rotate-History env b d)
rotate_stale-History env b (err e) d = elim (Bool-cases (is_not_found e)) [
  | inl t ↦ rw t (History-refl d)
  | inr f ↦ rw f (History-refl d)
]

after_promote_same :
    (env : Env) (b : Text) (r : Result (Option Shard) × Db) → (after_promote env b r).1 ≡ r.1
unfolding after_promote
after_promote_same env b (err e, d) = ground arith
after_promote_same env b (ok (some s), d) = refl
after_promote_same env b (ok none, d) = refl

or_go_on-History :
    (r : Result Shard) (next : Db → Result Shard × Db) (d : Db)
    → History d (next d).1
    → History d (or_go_on r next d).1
unfolding or_go_on
or_go_on-History (ok s) next d h = History-refl d
or_go_on-History (err e) next d h = elim (Bool-cases (not (is_not_found e))) [
  | inl t ↦ rw t (History-refl d)
  | inr f ↦ rw f h
]

after_failover-History :
    (env : Env) (b : Text) (r : Result (Unit {0}) × Db) → History r.1 (after_failover env b r).1
unfolding after_failover auto_promote_if_no_active
after_failover-History env b (err e, d) = History-refl d
after_failover-History env b (ok u, d) =
    or_go_on-History (active_for_bucket env.now env.timeout b d) _ d (
      rw (after_promote_same env b (auto_promote_if_no_active env b d))
        (unless_active-History env b (active_for_bucket env.now env.timeout b d) d))

pub ensure_active-History : (env : Env) (b : Text) (d : Db) → History d (ensure_active env b d).1
unfolding ensure_active failover_stale_active
ensure_active-History env b d = or_go_on-History (active_for_bucket env.now env.timeout b d) _ d (
    History-trans (rotate_stale-History env b _ d)
      (after_failover-History env b (failover_stale_active env b d)))
