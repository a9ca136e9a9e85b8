-- ===== src/Store/Changes/Double.antt =====
-- SealRotate and CompleteDrainSeal, which seal one row and promote another.
use shardman.Prelude.{
  ℕ, ◌≡◌, ◌==◌, refl, sym, subst, Bool, true, false, map, All, if◌then◌else◌, ◌⊎◌, inl, inr, arith,
  Bool-cases, ==_iff,
}
use shardman.Prelude.Text.{Text}
use shardman.Prelude.Results.{conflict}
use shardman.Fsm.{State, data_role, active, draining, sealed}
use shardman.Store.Shard.{Shard, in_bucket}
use shardman.Store.Db.{Db, update_where, bump_topology_version, insert_event}
use shardman.Store.Table.{
  All-imp, All-zip, All-map, Increasing, Increasing-map, find_unique, find-true,
}
use shardman.Store.Register.{is_available, promoted}
use shardman.Store.Rotate.{
  is_version_of, seal_row, seal_drained_row, succeed, seal_rotate_tx, complete_drain_seal_tx,
}
use shardman.Store.Moves.{
  IdsOk, Change, RowStep, Moves, promotes, seals, seals_drained, RowStep-refl,
}
use shardman.Store.Ensures.{
  Ensures, done, bind_select, bind_select?, bind_update, bind_update_require,
}
use shardman.Store.Changes.Rows.{Change-map, Change-map-map}
use shardman.Store.Changes.Single.{in_standby_pool_lem, in_bucket_lem}

-- What sealing does to the row that was found.
abbrev Seals : State → (Shard → Shard) → Type 0
Seals from seal = (s : Shard) → s.role ≡ data_role → s.state ≡ from → Moves from sealed s (seal s)

-- The table after the second update, at a row that the first one left alone or sealed.
promoted_after :
    (locked : ℕ → Bool) (b : Text) (now : ℕ) (next s s' : Shard)
    → is_available locked next ≡ true
    → (s'.id ≡ next.id → s' ≡ next)
    → RowStep false s s'
    → (s' ≡ s) ⊎ (s'.state ≡ sealed)
    → RowStep false s (if s'.id == next.id then promoted b now s' else s')
unfolding is_available promoted
promoted_after locked b now next s s' free only step before = elim (Bool-cases (s'.id == next.id)) [
  | inl t ↦
      let pool = in_standby_pool_lem next (ground arith) in
      let same = only ((==_iff s'.id next.id).0 t) in
      elim before [
        | inl unchanged ↦ rw t (promotes b (ground arith))
        | inr was_sealed ↦ absurd (ground arith)
      ]
  | inr f ↦ rw f step
]

-- One transaction: `old` is the one row with its id, and it is sealed; then a standby may succeed.
module _ (seal : Shard → Shard) (d : Db) (v : IdsOk d) (old : Shard)
    (only_old : All (λ s. s.id ≡ old.id → s ≡ old) d.shards)
    (seals_row : RowStep false old (seal old)) (seal_id : (s : Shard) → (seal s).id ≡ s.id)
    (seal_state : (s : Shard) → (seal s).state ≡ sealed) where
  abbrev sealed_at : Shard → Shard
  sealed_at s = if is_version_of old s then seal s else s

  sealed_at_id : (s : Shard) → (sealed_at s).id ≡ s.id
  sealed_at_id s = ground (arith, seal_id s)

  sealed_step : (s : Shard) → (s.id ≡ old.id → s ≡ old) → RowStep false s (sealed_at s)
  unfolding is_version_of
  sealed_step s only = elim (Bool-cases (is_version_of old s)) [
    | inl t ↦ rw t (subst (λ r. RowStep false r (seal r)) (sym (only (ground arith))) seals_row)
    | inr f ↦ rw f (RowStep-refl false s)
  ]

  sealed_or_same : (s : Shard) → (sealed_at s ≡ s) ⊎ ((sealed_at s).state ≡ sealed)
  sealed_or_same s = elim (Bool-cases (is_version_of old s)) [
    | inl t ↦ rw t (inr (seal_state s))
    | inr f ↦ rw f (inl refl)
  ]

  -- Both rows as they stand at the commit.
  succeeded_step :
      (locked : ℕ → Bool) (b : Text) (now : ℕ) (next s : Shard)
      → is_available locked next ≡ true
      → (s.id ≡ old.id → s ≡ old) × ((sealed_at s).id ≡ next.id → sealed_at s ≡ next)
      → RowStep false s
          (if (sealed_at s).id == next.id then promoted b now (sealed_at s) else sealed_at s)
  succeeded_step locked b now next s free only =
      promoted_after locked b now next s (sealed_at s) free only.1 (sealed_step s only.0)
        (sealed_or_same s)

  sealed_rising : Increasing 0 (map sealed_at d.shards)
  sealed_rising = Increasing-map sealed_at 0 d.shards sealed_at_id v.rising

  succeed-Change :
      (locked : ℕ → Bool) (b : Text) (now : ℕ) (event : Text)
      → Ensures
          (λ u d'. Change false d d')
          (succeed locked b now event old
            (record d { shards = update_where (is_version_of old) seal d.shards }))
  unfolding succeed update_where bump_topology_version insert_event
  succeed-Change locked b now event =
      bind_select? (λ u d'. Change false d d') (is_available locked) _
        (record d { shards = map sealed_at d.shards })
        (λ _. done (
          Change-map false d v sealed_at sealed_at_id d.events (
            All-imp (λ s. s.id ≡ old.id → s ≡ old) (λ s. RowStep false s (sealed_at s)) d.shards
              sealed_step only_old)))
        λ next e.
          bind_update (λ u d'. Change false d d') (λ t. t.id == next.id) (promoted b now) _ _
            λ _. done (
              Change-map-map false d v sealed_at
                (λ s. if s.id == next.id then promoted b now s else s) _ sealed_at_id
                (unfold promoted in λ s. ground arith)
                (All-imp
                  (λ s.
                    (s.id ≡ old.id → s ≡ old) × ((sealed_at s).id ≡ next.id → sealed_at s ≡ next))
                  _ d.shards (λ s only. succeeded_step locked b now next s (find-true _ _ e) only)
                  (All-zip _ _ d.shards only_old (
                    All-map _ sealed_at d.shards
                      (find_unique (is_available locked) 0 _ sealed_rising e)))))

pub seal_rotate-Change :
    (locked : ℕ → Bool) (b : Text) (now : ℕ) (d : Db)
    → IdsOk d
    → Ensures (λ u d'. Change false d d') (seal_rotate_tx locked b now d)
unfolding seal_rotate_tx
seal_rotate-Change locked b now d v =
    bind_select (λ u d'. Change false d d') (in_bucket b active) _ d
      λ old e.
        bind_update_require (λ u d'. Change false d d') (is_version_of old) (seal_row now) conflict
          _ d
          λ _.
            succeed-Change (seal_row now) d v old
              (find_unique (in_bucket b active) 0 d.shards v.rising e)
              (let was = (in_bucket_lem b old).0 (find-true _ d.shards e) in
                seals (unfold seal_row in ground arith))
              (unfold seal_row in λ s. refl) (unfold seal_row in λ s. refl) locked b now _

pub complete_drain_seal-Change :
    (locked : ℕ → Bool) (b : Text) (now : ℕ) (d : Db)
    → IdsOk d
    → Ensures (λ u d'. Change false d d') (complete_drain_seal_tx locked b now d)
unfolding complete_drain_seal_tx
complete_drain_seal-Change locked b now d v =
    bind_select (λ u d'. Change false d d') (in_bucket b draining) _ d
      λ old e.
        bind_update_require (λ u d'. Change false d d') (is_version_of old) (seal_drained_row now)
          conflict _ d
          λ _.
            succeed-Change (seal_drained_row now) d v old
              (find_unique (in_bucket b draining) 0 d.shards v.rising e)
              (let was = (in_bucket_lem b old).1 (find-true _ d.shards e) in
                seals_drained (unfold seal_drained_row in ground arith))
              (unfold seal_drained_row in λ s. refl) (unfold seal_drained_row in λ s. refl) locked b
              now _
