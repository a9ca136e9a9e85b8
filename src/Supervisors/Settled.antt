-- ===== src/Supervisors/Settled.antt =====
-- The buckets that a round of internal/seal/seal.go leaves alone.
use shardman.Prelude.{
  ℕ, ◌≡◌, ◌<◌, ◌+◌, refl, sym, subst, true, false, inl, inr, Option, none, some, List, [], ◌∷◌, All,
  arith, ◌&&◌, Bool-cases,
}
use shardman.Prelude.Int.{ℤ, ltb_ℤ}
use shardman.Prelude.Text.{Text, text_eq}
use shardman.Fsm.{active, draining, state_eq}
use shardman.Store.Shard.{Shard, bucket_is, is_data}
use shardman.Store.Db.{Db}
use shardman.Store.Queries.{needs_seal, limit_of, shards_needing_seal, shards_draining}
use shardman.Store.Promote.{Env}
use shardman.Store.Table.{Evolves, Evolves-All, All-imp}
use shardman.Store.Moves.{NoRow, IdsOk}
use shardman.Store.Machine.{finish_drain, apply}
use shardman.Store.Conformance.{apply-Change}
use shardman.Supervisors.Seal.{
  is_drain_over, drain_elapsed, seal_drained, seal_all_drained, drain_full, drain_all_full,
  seal_round,
}
use shardman.Supervisors.Fresh.{filter-imp}
use shardman.Supervisors.Still.{
  Stays, Still, Still-refl, Still-trans, complete_drain_seal-Still, begin_drain-Still,
}

-- The drain of a shard started less than the timeout ago, or has no start.
abbrev pub IsWaiting : (now timeout : ℕ) → Option ℕ → Type 0
IsWaiting now timeout none = Unit {0}
IsWaiting now timeout (some started) = now < started + timeout

abbrev pub IsBelow : ℤ → Option ℤ → ℤ → Type 0
IsBelow bytes none default = ltb_ℤ bytes default ≡ true
IsBelow bytes (some limit) default = ltb_ℤ bytes limit ≡ true

-- There is nothing to do for a shard: a draining one has not reported the end of its drain, and its
-- timeout has not elapsed; an active one is smaller than its limit, or than the cluster's.
pub record IsSettled (now timeout : ℕ) (default : ℤ) (s : Shard) : Type 0 where
  pub not_ready : s.state ≡ draining → s.drain_ready ≡ false
  pub waiting : s.state ≡ draining → IsWaiting now timeout s.drain_started_at
  pub below : s.state ≡ active → IsBelow s.reported_bytes s.max_bytes default

elapsed_lem :
    (now timeout : ℕ) (o : Option ℕ) → IsWaiting now timeout o → drain_elapsed now timeout o ≡ false
unfolding drain_elapsed
elapsed_lem now timeout none h = refl
elapsed_lem now timeout (some started) h = ground arith

below_lem :
    (default bytes : ℤ) (o : Option ℤ)
    → IsBelow bytes o default
    → ltb_ℤ bytes (limit_of o default) ≡ true
unfolding limit_of
below_lem default bytes none h = h
below_lem default bytes (some limit) h = h

not_over :
    (now timeout : ℕ) (default : ℤ) (s : Shard)
    → s.state ≡ draining
    → IsSettled now timeout default s
    → is_drain_over now timeout s ≡ false
unfolding is_drain_over
not_over now timeout default s e h =
    rw (h.not_ready e, elapsed_lem now timeout s.drain_started_at (h.waiting e)) refl

abbrev SettledIn : (now timeout : ℕ) → ℤ → Text → Shard → Type 0
SettledIn now timeout default b s = bucket_is s.bucket_id b ≡ true → IsSettled now timeout default s

full_elsewhere :
    (now timeout : ℕ) (default : ℤ) (b : Text) (s : Shard)
    → SettledIn now timeout default b s
    → needs_seal default s ≡ true
    → bucket_is s.bucket_id b ≡ false
unfolding needs_seal state_eq
full_elsewhere now timeout default b s h full = elim (Bool-cases (bucket_is s.bucket_id b)) [
  | inr f ↦ f
  | inl t ↦
      let is_active : s.state ≡ active = ground arith in
      let small = below_lem default s.reported_bytes s.max_bytes ((h t).below is_active) in
      absurd (ground arith)
]

is_draining :
    (s : Shard) → (is_data s.role && state_eq s.state draining) ≡ true → s.state ≡ draining
unfolding state_eq
is_draining s h = ground arith

module _ (env : Env) (timeout : ℕ) (default : ℤ) (b : Text) where
  abbrev Listed : Shard → Type 0
  Listed s = (s.state ≡ draining) × SettledIn env.now timeout default b s

  seal_drained-Still :
      (s : Shard) (bucket : Option Text) (d : Db)
      → s.bucket_id ≡ bucket
      → Listed s
      → IdsOk d
      → Still b d.shards (seal_drained env timeout s bucket d).shards
        × IdsOk (seal_drained env timeout s bucket d)
  unfolding seal_drained apply bucket_is
  seal_drained-Still s none d e h v = (Still-refl b d.shards, v)
  seal_drained-Still s (some c) d e h v = elim (Bool-cases (text_eq c b)) [
    | inl t ↦
        let settled = h.1 (rw e t) in
        rw (not_over env.now timeout default s h.0 settled) (Still-refl b d.shards, v)
    | inr f ↦ elim (Bool-cases (is_drain_over env.now timeout s)) [
      | inl over ↦ rw over (
        complete_drain_seal-Still b c env.now f env.locked d v,
        (apply-Change (finish_drain env.locked c env.now) d v).ids,
      )
      | inr waits ↦ rw waits (Still-refl b d.shards, v)
    ]
  ]

  seal_all_drained-Still :
      (rows : List Shard) (d : Db)
      → All Listed rows
      → IdsOk d
      → Still b d.shards (seal_all_drained env timeout rows d).shards
  unfolding seal_all_drained
  seal_all_drained-Still [] d h v = Still-refl b d.shards
  seal_all_drained-Still (s ∷ rest) d h v =
      let d' = seal_drained env timeout s s.bucket_id d in
      let (rows, ids) = seal_drained-Still s s.bucket_id d refl h.0 v in
      Still-trans b d.shards d'.shards (seal_all_drained env timeout rest d').shards rows
        (seal_all_drained-Still rest d' h.1 ids)

  drain_full-Still :
      (bucket : Option Text) (d : Db)
      → bucket_is bucket b ≡ false
      → Still b d.shards (drain_full env.now bucket d).shards
  unfolding drain_full bucket_is
  drain_full-Still none d other = Still-refl b d.shards
  drain_full-Still (some c) d other = begin_drain-Still b c env.now other d

  drain_all_full-Still :
      (rows : List Shard) (d : Db)
      → All (λ s. bucket_is s.bucket_id b ≡ false) rows
      → Still b d.shards (drain_all_full env.now rows d).shards
  unfolding drain_all_full
  drain_all_full-Still [] d h = Still-refl b d.shards
  drain_all_full-Still (s ∷ rest) d h =
      let d' = drain_full env.now s.bucket_id d in
      Still-trans b d.shards d'.shards (drain_all_full env.now rest d').shards
        (drain_full-Still s.bucket_id d h.0) (drain_all_full-Still rest d' h.1)

  -- A bucket where there is nothing to do is left alone by a round of the seal supervisor: the ids rise
  -- along the table, no draining shard of the bucket has reported the end of its drain or has exceeded
  -- the timeout, and every active shard of the bucket is smaller than its own limit, or than the
  -- cluster's where it has none. Then the round leaves every shard of the bucket as it was, brings no
  -- shard into the bucket, and adds none to the table.
  pub seal_round-Stays :
      (d : Db)
      → IdsOk d
      → All (λ s. bucket_is s.bucket_id b ≡ true → IsSettled env.now timeout default s) d.shards
      → Evolves (Stays b) NoRow d.shards (seal_round env timeout default d).shards
  unfolding seal_round shards_draining shards_needing_seal
  seal_round-Stays d v settled =
      let d₁ = seal_all_drained env timeout (shards_draining d) d in
      let first =
        seal_all_drained-Still (shards_draining d) d
          (filter-imp _ Listed d.shards (
            All-imp (SettledIn env.now timeout default b) _ d.shards
              (λ s k listed. (is_draining s listed, k)) settled))
          v in
      let still =
        Evolves-All (Stays b) NoRow (SettledIn env.now timeout default b) d.shards d₁.shards
          (λ s t moved k m.
            let same = moved.not_new m in
            subst (IsSettled env.now timeout default) (sym same)
              (k (subst (λ (x : Shard). bucket_is x.bucket_id b ≡ true) same m)))
          (λ s new. absurd new) first settled in
      Still-trans b d.shards d₁.shards _ first (
        drain_all_full-Still (shards_needing_seal default d₁) d₁ (
          filter-imp _ (λ s. bucket_is s.bucket_id b ≡ false) d₁.shards
            (All-imp (SettledIn env.now timeout default b) _ d₁.shards
              (full_elsewhere env.now timeout default b) still)))
