-- ===== src/Supervisors/Fresh.antt =====
-- The buckets that a round of internal/health/health.go leaves alone.
use shardman.Prelude.{
  ℕ, ◌≡◌, ◌==◌, refl, sym, ap, ◌∙◌, true, false, Bool, inl, inr, Option, none, some, List, [], ◌∷◌,
  find, filter, All, arith, ◌⊎◌, ◌&&◌, not, if◌then◌else◌, Bool-cases, ==_iff,
}
use shardman.Prelude.Text.{Text, text_eq, text_eq_iff}
use shardman.Prelude.Results.{Result, ok, err}
use shardman.Fsm.{active, state_eq}
use shardman.Store.Shard.{Shard, bucket_is, in_bucket, in_standby_pool, is_fresh, is_data}
use shardman.Store.Db.{Db, constraints_ok, update_where}
use shardman.Store.Queries.{list_stale_actives, has_bucket}
use shardman.Store.Register.{is_available, promoted}
use shardman.Store.Rotate.{is_version_of, seal_row, seal_rotate}
use shardman.Store.Promote.{Env}
use shardman.Store.Table.{
  Evolves, Evolves-map, Evolves-map-map, find-true, find_unique, All-imp, All-zip,
}
use shardman.Store.Moves.{NoRow}
use shardman.Store.Machine.{rotate, apply}
use shardman.Store.Conformance.{apply-Change}
use shardman.Store.Constraints.{NotActiveIn, find-only_active}
use shardman.Store.Rotation.{
  IsValid, Rotation, no_active, only_sealed, replaced, seal_rotate-Rotation, seal_fits,
  promotion_fits, constraints_active,
}
use shardman.Supervisors.Health.{count_notify, rotate_bucket, rotate_all, health_tick}
use shardman.Supervisors.Sparing.{Spares, Spared-refl, Spared-trans}

other_bucket :
    (b c : Text) (s : Shard) (bucket : Option Text)
    → s.bucket_id ≡ bucket
    → text_eq c b ≡ false
    → in_bucket c active s ≡ true
    → bucket_is s.bucket_id b ≡ false
unfolding in_bucket bucket_is
other_bucket b c s none e n m = rw e refl
other_bucket b c s (some x) e n m =
    ground (arith, text_eq_iff x b, text_eq_iff x c, text_eq_iff c b)

pool_bucket :
    (b : Text) (locked : ℕ → Bool) (s : Shard) (bucket : Option Text)
    → s.bucket_id ≡ bucket
    → is_available locked s ≡ true
    → bucket_is s.bucket_id b ≡ false
unfolding is_available in_standby_pool bucket_is
pool_bucket b locked s none e m = rw e refl
pool_bucket b locked s (some x) e m = absurd (ground arith)

-- A rotation of the bucket `c` of a database that meets its constraints.
module _ (locked : ℕ → Bool) (b c : Text) (now : ℕ) (d : Db) (v : IsValid d)
    (other : text_eq c b ≡ false) where
  -- A row of the bucket `b` is none of the two that change.
  not_old :
      (old s : Shard)
      → find (in_bucket c active) d.shards ≡ some old
      → (s.id ≡ old.id → s ≡ old)
      → bucket_is s.bucket_id b ≡ true
      → (s.id == old.id) ≡ false
  not_old old s found only mine = elim (Bool-cases (s.id == old.id)) [
    | inr f ↦ f
    | inl t ↦
        let same = only ((==_iff s.id old.id).0 t) in
        let was =
          other_bucket b c old old.bucket_id refl other
            (find-true (in_bucket c active) d.shards found) in
        absurd (cc (sym mine ∙ ap (λ (x : Shard). bucket_is x.bucket_id b) same ∙ was))
  ]

  not_next :
      (next s : Shard)
      → find (is_available locked) d.shards ≡ some next
      → (s.id ≡ next.id → s ≡ next)
      → bucket_is s.bucket_id b ≡ true
      → (s.id == next.id) ≡ false
  not_next next s free only mine = elim (Bool-cases (s.id == next.id)) [
    | inr f ↦ f
    | inl t ↦
        let same = only ((==_iff s.id next.id).0 t) in
        let was =
          pool_bucket b locked next next.bucket_id refl
            (find-true (is_available locked) d.shards free) in
        absurd (cc (sym mine ∙ ap (λ (x : Shard). bucket_is x.bucket_id b) same ∙ was))
  ]

  abbrev sealing : Shard → Shard → Shard
  sealing old s = if is_version_of old s then seal_row now s else s

  abbrev promoting : Shard → Shard → Shard
  promoting next s = if s.id == next.id then promoted c now s else s

  sealing-Spares :
      (old : Shard)
      → find (in_bucket c active) d.shards ≡ some old
      → (s : Shard) → (s.id ≡ old.id → s ≡ old)
      → Spares b s (sealing old s)
  unfolding is_version_of
  sealing-Spares old found s only mine = rw (not_old old s found only mine) refl

  both-Spares :
      (old next : Shard)
      → find (in_bucket c active) d.shards ≡ some old
      → find (is_available locked) d.shards ≡ some next
      → (s : Shard) → (s.id ≡ old.id → s ≡ old) × (s.id ≡ next.id → s ≡ next)
      → Spares b s (promoting next (sealing old s))
  both-Spares old next found free s only mine =
      ap (promoting next) (sealing-Spares old found s only.0 mine)
      ∙ rw (not_next next s free only.1 mine) refl

  rotated-Spared :
      (r : Result (Unit {0}) × Db)
      → Rotation locked c now d r
      → Evolves (Spares b) NoRow d.shards r.1.shards × (constraints_ok r.1.shards ≡ true)
  unfolding update_where
  rotated-Spared r (no_active none_there e) = rw e (Spared-refl b d.shards, v.constraints)
  rotated-Spared r (only_sealed old found none_free e) = rw e (
    Evolves-map (Spares b) NoRow (sealing old) d.shards (
        All-imp (λ s. s.id ≡ old.id → s ≡ old) _ d.shards (sealing-Spares old found)
          (find_unique (in_bucket c active) 0 d.shards v.ids.rising found)),
    seal_fits locked c now d v old found,
  )
  rotated-Spared r (replaced old next found free e) = rw e (
    Evolves-map-map (Spares b) NoRow (sealing old) (promoting next) d.shards (
        All-imp _ _ d.shards (both-Spares old next found free) (
          All-zip _ _ d.shards (find_unique (in_bucket c active) 0 d.shards v.ids.rising found)
            (find_unique (is_available locked) 0 d.shards v.ids.rising free))),
    promotion_fits locked c now d v old found next,
  )

  seal_rotate-Spared :
      Evolves (Spares b) NoRow d.shards (seal_rotate locked c now d).1.shards
      × IsValid (seal_rotate locked c now d).1
  unfolding apply
  seal_rotate-Spared =
      let (rows, fits) = rotated-Spared _ (seal_rotate-Rotation locked c now d v) in
      (rows, record { ids = (apply-Change (rotate locked c now) d v.ids).ids; constraints = fits })

count_notify-db : (n : ℕ) (r : Result (Unit {0}) × Db) → (count_notify n r).1 ≡ r.1
unfolding count_notify
count_notify-db n (ok u, d) = refl
count_notify-db n (err e, d) = refl

abbrev IsElsewhere : Text → Shard → Type 0
IsElsewhere b s = bucket_is s.bucket_id b ≡ false

rotate_bucket-Spared :
    (env : Env) (b : Text) (bucket : Option Text) (n : ℕ) (d : Db)
    → bucket_is bucket b ≡ false
    → IsValid d
    → Evolves (Spares b) NoRow d.shards (rotate_bucket env bucket (n, d)).1.shards
      × IsValid (rotate_bucket env bucket (n, d)).1
unfolding rotate_bucket bucket_is
rotate_bucket-Spared env b none n d other v = (Spared-refl b d.shards, v)
rotate_bucket-Spared env b (some c) n d other v =
    rw (count_notify-db n (seal_rotate env.locked c env.now d))
      (seal_rotate-Spared env.locked b c env.now d v other)

rotate_all-Spared :
    (env : Env) (b : Text) (stale : List Shard) (n : ℕ) (d : Db)
    → All (IsElsewhere b) stale
    → IsValid d
    → Evolves (Spares b) NoRow d.shards (rotate_all env stale (n, d)).1.shards
unfolding rotate_all
rotate_all-Spared env b [] n d other v = Spared-refl b d.shards
rotate_all-Spared env b (s ∷ stale) n d other v =
    let r = rotate_bucket env s.bucket_id (n, d) in
    let (rows, valid) = rotate_bucket-Spared env b s.bucket_id n d other.0 v in
    Spared-trans b d.shards r.1.shards (rotate_all env stale r).1.shards rows
      (rotate_all-Spared env b stale r.0 r.1 other.1 valid)

pub filter-imp :
    (p : Shard → Bool) (Q : Shard → Type 0) (xs : List Shard)
    → All (λ s. p s ≡ true → Q s) xs
    → All Q (filter p xs)
unfolding filter
filter-imp p Q [] h = tt
filter-imp p Q (x ∷ xs) h = elim (Bool-cases (p x)) [
  | inl t ↦ rw t (h.0 t, filter-imp p Q xs h.1)
  | inr f ↦ rw f (filter-imp p Q xs h.1)
]

-- If the active shard of the bucket is fresh, then the bucket has no other, and is not listed.
stale-IsElsewhere :
    (env : Env) (b : Text) (s a : Shard) (bucket : Option Text)
    → s.bucket_id ≡ bucket
    → is_fresh env.now env.timeout a.last_seen_at ≡ true
    → (s.id ≡ a.id → s ≡ a) × ((s.id ≡ a.id) ⊎ NotActiveIn b s)
    → (is_data s.role
        && state_eq s.state active
        && has_bucket s.bucket_id
        && not (is_fresh env.now env.timeout s.last_seen_at))
      ≡ true
    → IsElsewhere b s
unfolding in_bucket has_bucket bucket_is
stale-IsElsewhere env b s a none e fresh only stale = rw e refl
stale-IsElsewhere env b s a (some x) e fresh only stale = elim only.1 [
  | inl same ↦
      let seen = ap (λ (x : Shard). is_fresh env.now env.timeout x.last_seen_at) (only.0 same) in
      absurd (ground (arith, seen, fresh, stale))
  | inr idle ↦ rw e (ground arith)
]

-- On a database whose ids rise along the table and which meets its constraints: if the active shard of
-- a bucket has a fresh heartbeat when a round of the health supervisor starts, then the round leaves
-- every shard of the bucket as it was, and adds no shard to the table.
pub health_tick-Spares :
    (env : Env) (b : Text) (d : Db) {a : Shard}
    → IsValid d
    → find (in_bucket b active) d.shards ≡ some a
    → is_fresh env.now env.timeout a.last_seen_at ≡ true
    → Evolves (Spares b) NoRow d.shards (health_tick env d).1.shards
unfolding health_tick list_stale_actives
health_tick-Spares env b d {a} v found fresh =
    rotate_all-Spared env b (list_stale_actives env.now env.timeout d) 0 d
      (filter-imp _ (IsElsewhere b) d.shards (
        All-imp (λ s. (s.id ≡ a.id → s ≡ a) × ((s.id ≡ a.id) ⊎ NotActiveIn b s)) _ d.shards
          (λ s only. stale-IsElsewhere env b s a s.bucket_id refl fresh only)
          (All-zip _ _ d.shards (find_unique (in_bucket b active) 0 d.shards v.ids.rising found)
            (find-only_active b d.shards found (constraints_active d.shards v.constraints)))))
      v
