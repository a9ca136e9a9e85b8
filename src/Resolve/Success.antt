-- ===== src/Resolve/Success.antt =====
-- ensureActive of internal/resolve/resolve.go finds or makes an active shard, if a standby is free.
use shardman.Prelude.{
  ◌≡◌, ◌==◌, refl, sym, ◌∙◌, true, false, none, some, List, [], ◌∷◌, find, count, All, arith,
  Bool-cases, Option-cases, inl, inr,
}
use shardman.Prelude.Text.{Text, text_eq_iff}
use shardman.Prelude.Results.{Result, ok, is_not_found}
use shardman.Fsm.{active, draining, state_eq}
use shardman.Store.Shard.{Shard, in_bucket, bucket_is, is_fresh, in_standby_pool}
use shardman.Store.Db.{Db}
use shardman.Store.Queries.{
  is_active_for, is_stale_for, active_for_bucket, stale_active_for_bucket, or_not_found, is_busy,
  has_active_in_bucket,
}
use shardman.Store.Register.{is_available, promoted}
use shardman.Store.Rotate.{seal_rotate}
use shardman.Store.Table.{find-true}
use shardman.Store.Outcome.{find-made}
use shardman.Store.Constraints.{NotActiveIn}
use shardman.Store.Rotation.{
  IsValid, Rotation, no_active, only_sealed, replaced, seal_rotate-Rotation, same_standby,
  after_seal, after_promote as rows_after,
}
use shardman.Store.Promotion.{none-All, promote_standby_to_active_succeeds}
use shardman.Store.Promote.{Env, as_found, unless_stale, unless_active, auto_promote_if_no_active}
use shardman.Resolve.Active.{
  after_rotate, rotate_stale, failover_stale_active, after_promote, or_go_on, after_failover,
  ensure_active,
}

-- The call returns an active shard of the bucket with a fresh heartbeat.
pub record Serves (env : Env) (b : Text) (r : Result Shard × Db) : Type 0 where
  pub shard : Shard
  pub result : r.0 ≡ ok shard
  pub serves : is_active_for env.now env.timeout b shard ≡ true

promoted-serves :
    (env : Env) (b : Text) (s : Shard)
    → is_available env.locked s ≡ true
    → is_active_for env.now env.timeout b (promoted b env.now s) ≡ true
unfolding is_active_for in_bucket bucket_is is_fresh promoted state_eq is_available in_standby_pool
promoted-serves env b s h = ground (arith, (text_eq_iff b b).1 refl)

-- A shard that is active is fresh or stale.
no_active_at_all :
    (env : Env) (b : Text) (xs : List Shard)
    → find (is_active_for env.now env.timeout b) xs ≡ none
    → find (is_stale_for env.now env.timeout b) xs ≡ none
    → find (in_bucket b active) xs ≡ none
unfolding find is_active_for is_stale_for
no_active_at_all env b [] e f = refl
no_active_at_all env b (x ∷ xs) e f = elim (Bool-cases (in_bucket b active x)) [
  | inl t ↦ elim (Bool-cases (is_fresh env.now env.timeout x.last_seen_at)) [
    | inl u ↦ absurd (ground arith)
    | inr u ↦ absurd (ground arith)
  ]
  | inr n ↦ rw n (no_active_at_all env b xs (ground arith) (ground arith))
]

-- No shard of the bucket is active or draining.
not_busy :
    (b : Text) (xs : List Shard)
    → All (NotActiveIn b) xs
    → All (λ s. in_bucket b draining s ≡ false) xs
    → count (is_busy b) xs ≡ 0
unfolding count is_busy in_bucket
not_busy b [] h k = refl
not_busy b (x ∷ xs) h k = ground (arith, not_busy b xs h.1 k.1)

-- A stale active shard is an active shard.
stale_is_active :
    (env : Env) (b : Text) (xs : List Shard) {s : Shard}
    → find (is_stale_for env.now env.timeout b) xs ≡ some s
    → (old : Shard) × (find (in_bucket b active) xs ≡ some old)
unfolding find is_stale_for
stale_is_active env b [] f = absurd (cc f)
stale_is_active env b (x ∷ xs) f = elim (Bool-cases (in_bucket b active x)) [
  | inl t ↦ (x, rw t refl)
  | inr n ↦ let (old, later) = stale_is_active env b xs (rw n at f) in (old, rw n later)
]

module _ (env : Env) (b : Text) (d : Db) (v : IsValid d) {next : Shard}
    (free : find (is_available env.locked) d.shards ≡ some next)
    (quiet : All (λ s. in_bucket b draining s ≡ false) d.shards) where
  standby_serves : is_active_for env.now env.timeout b (promoted b env.now next) ≡ true
  standby_serves = promoted-serves env b next (find-true (is_available env.locked) d.shards free)

  -- With no active shard in the bucket a standby is promoted.
  vacant-Serves :
      find (is_active_for env.now env.timeout b) d.shards ≡ none
      → find (is_stale_for env.now env.timeout b) d.shards ≡ none
      → Serves env b (after_promote env b (auto_promote_if_no_active env b d))
  unfolding auto_promote_if_no_active unless_active unless_stale as_found after_promote
      active_for_bucket stale_active_for_bucket has_active_in_bucket or_not_found is_not_found
  vacant-Serves e f =
      let vacant = no_active_at_all env b d.shards e f in
      let idle = not_busy b d.shards (none-All (in_bucket b active) d.shards vacant) quiet in
      let made = promote_standby_to_active_succeeds env.locked b env.now d v vacant free in
      record {
        shard = promoted b env.now next;
        result = rw e (rw idle (rw f (rw made refl)));
        serves = standby_serves;
      }

  -- A stale active shard is replaced by the standby.
  replaced-find :
      (old : Shard)
      → find (in_bucket b active) d.shards ≡ some old
      → (s : Shard) × (find
            (is_active_for env.now env.timeout b)
            (rows_after b env.now next (after_seal env.now old d.shards))
          ≡ some s)
  replaced-find old found =
      find-made (is_available env.locked) (λ s. s.id == next.id)
        (is_active_for env.now env.timeout b) (promoted b env.now) (after_seal env.now old d.shards)
        (same_standby env.locked b env.now d v old found ∙ free) (ground arith) standby_serves

  stale-Serves :
      (r : Result (Unit {0}) × Db) {s : Shard}
      → find (is_stale_for env.now env.timeout b) d.shards ≡ some s
      → Rotation env.locked b env.now d r
      → Serves env b (after_failover env b (after_rotate r))
  unfolding after_failover after_rotate or_go_on active_for_bucket or_not_found
  stale-Serves r f (no_active none_there e) =
      let (old, found) = stale_is_active env b d.shards f in absurd (cc (sym found ∙ none_there))
  stale-Serves r f (only_sealed old found none_free e) = absurd (cc (sym free ∙ none_free))
  stale-Serves r f (replaced old next' found free' e) =
      let same : next ≡ next' = cc (sym free ∙ free') in
      let (s, made) = replaced-find old found in
      rw (e, sym same)
        (record {
          shard = s;
          result = rw made refl;
          serves = find-true (is_active_for env.now env.timeout b) _ made;
        })

  failover-Serves :
      find (is_active_for env.now env.timeout b) d.shards ≡ none
      → Serves env b (after_failover env b (failover_stale_active env b d))
  unfolding failover_stale_active rotate_stale stale_active_for_bucket or_not_found after_failover
      or_go_on active_for_bucket is_not_found
  failover-Serves e = elim (Option-cases (find (is_stale_for env.now env.timeout b) d.shards)) [
    | inl f ↦ rw f (rw e (vacant-Serves e f))
    | inr (s, f) ↦ rw f (
        stale-Serves (seal_rotate env.locked b env.now d) f
          (seal_rotate-Rotation env.locked b env.now d v))
  ]

  -- On a database whose ids rise along the table and which meets its constraints: if a standby is free
  -- that no other transaction holds, and no shard of the bucket is draining, then ensureActive succeeds
  -- and returns a shard that is active in the bucket with a fresh heartbeat; whether the bucket had
  -- one, had only a silent one, or had none.
  pub ensure_active-Serves : Serves env b (ensure_active env b d)
  unfolding ensure_active or_go_on active_for_bucket or_not_found is_not_found
  ensure_active-Serves = elim (Option-cases (find (is_active_for env.now env.timeout b) d.shards)) [
    | inl e ↦ rw e (failover-Serves e)
    | inr (s, e) ↦ rw e (record {
      shard = s;
      result = refl;
      serves = find-true (is_active_for env.now env.timeout b) d.shards e;
    })
  ]
