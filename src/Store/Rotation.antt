-- ===== src/Store/Rotation.antt =====
-- SealRotate of internal/store/store.go on a database that keeps its constraints: it never runs
-- into them, and its result is exact.
use shardman.Prelude.{
  ℕ, ◌≡◌, ◌==◌, refl, sym, ap, ◌∙◌, Bool, true, false, none, some, List, ◌∷◌, if◌then◌else◌, find,
  count, All, arith, Bool-cases, Option-cases, ◌⊎◌, inl, inr, ==_iff,
}
use shardman.Prelude.Text.{Text, codes}
use shardman.Prelude.Results.{Result, ok, err, not_found, conflict}
use shardman.Fsm.{active, state_eq}
use shardman.Store.Shard.{Shard, in_bucket, in_standby_pool}
use shardman.Store.Db.{
  Db, update, update_where, select_row, select_row?, constraints_ok, one_active_per_bucket,
  bump_config, bump_topology_version, insert_event,
}
use shardman.Store.Table.{find-true, find_unique, All-imp, All-zip, map-All, Increasing-map}
use shardman.Store.Register.{is_available, promoted, require_rows}
use shardman.Store.Rotate.{is_version_of, seal_row, succeed, seal_rotate_tx, seal_rotate}
use shardman.Store.Moves.{IdsOk}
use shardman.Store.Constraints.{
  NotActiveIn, promote-constraints, seal-constraints, find-only_active,
}
use shardman.Store.Outcome.{
  >>=-ok, >>=-err, commit-ok, commit-err, select_row-some, select_row-none, select_row?_lem,
  update-ok, require_rows-ok, count-find, find-map_same,
}
use shardman.Store.Changes.{in_bucket_lem}

pub record IsValid (d : Db) : Type 0 where
  pub ids : IdsOk d
  pub constraints : constraints_ok d.shards ≡ true

-- The tables after the two updates.
abbrev pub after_seal : ℕ → Shard → List Shard → List Shard
after_seal now old = update_where (is_version_of old) (seal_row now)

abbrev pub after_promote : Text → ℕ → Shard → List Shard → List Shard
after_promote b now next = update_where (λ s. s.id == next.id) (promoted b now)

-- Without an active shard nothing happens. Otherwise the one active shard of the bucket is sealed,
-- and the first free standby that nobody holds becomes active in its place, if there is one.
pub data Rotation (locked : ℕ → Bool) (b : Text) (now : ℕ) (d : Db) (r : Result (Unit {0}) × Db)
    : Type 0 where
  no_active :
      find (in_bucket b active) d.shards ≡ none → r ≡ (err not_found, d) → Rotation locked b now d r
  only_sealed :
      (old : Shard)
      → find (in_bucket b active) d.shards ≡ some old
      → find (is_available locked) d.shards ≡ none
      → r
        ≡ (ok tt, record d { shards = after_seal now old d.shards; config = bump_config d.config })
      → Rotation locked b now d r
  replaced :
      (old next : Shard)
      → find (in_bucket b active) d.shards ≡ some old
      → find (is_available locked) d.shards ≡ some next
      → r ≡ (
        ok tt,
        record d {
          shards = after_promote b now next (after_seal now old d.shards);
          config = bump_config d.config;
          events =
              record { shard_id = old.id; bucket_id = b; event_type = codes "seal_rotate" }
              ∷ d.events;
        },
      )
      → Rotation locked b now d r

true_false : {A : Type 0} → true ≡ false → A
true_false e = cc

pub constraints_active :
    (xs : List Shard) → constraints_ok xs ≡ true → one_active_per_bucket xs ≡ true
unfolding constraints_ok
constraints_active xs h = ground arith

module _ (locked : ℕ → Bool) (b : Text) (now : ℕ) (d : Db) (v : IsValid d) (old : Shard)
    (found : find (in_bucket b active) d.shards ≡ some old) where
  abbrev sealed_at : Shard → Shard
  sealed_at s = if is_version_of old s then seal_row now s else s

  only_old : All (λ s. s.id ≡ old.id → s ≡ old) d.shards
  only_old = find_unique (in_bucket b active) 0 d.shards v.ids.rising found

  -- Sealing touches no free standby, and makes none.
  standby_kept :
      (s : Shard)
      → (s.id ≡ old.id → s ≡ old)
      → (is_available locked (sealed_at s) ≡ is_available locked s)
        × (is_available locked s ≡ true → sealed_at s ≡ s)
  unfolding is_version_of seal_row is_available in_standby_pool state_eq
  standby_kept s only = elim (Bool-cases (is_version_of old s)) [
    | inl t ↦
        let same = only ((==_iff s.id old.id).0 (ground arith)) in
        let was = (in_bucket_lem b old).0 (find-true (in_bucket b active) d.shards found) in
        rw t (ground arith)
    | inr f ↦ rw f (refl, λ _. refl)
  ]

  pub same_standby :
      find (is_available locked) (after_seal now old d.shards) ≡ find (is_available locked) d.shards
  unfolding update_where
  same_standby =
      find-map_same (is_available locked) sealed_at d.shards
        (All-imp (λ s. s.id ≡ old.id → s ≡ old) _ d.shards standby_kept only_old)

  pub seal_fits : constraints_ok (after_seal now old d.shards) ≡ true
  unfolding update_where seal_row
  seal_fits =
      seal-constraints (seal_row now) (is_version_of old) 0 d.shards (λ s. refl) (λ s. refl)
        v.ids.rising v.constraints

  old_is_version : is_version_of old old ≡ true
  unfolding is_version_of
  old_is_version = ground arith

  sealed_not_active :
      (s : Shard)
      → (s.id ≡ old.id → s ≡ old) × ((s.id ≡ old.id) ⊎ NotActiveIn b s)
      → NotActiveIn b (sealed_at s)
  unfolding seal_row in_bucket state_eq
  sealed_not_active s h = elim (Bool-cases (is_version_of old s)) [
    | inl t ↦ rw t (ground arith)
    | inr f ↦ elim h.1 [
      | inl e ↦ true_false (sym (ap (is_version_of old) (h.0 e) ∙ old_is_version) ∙ f)
      | inr a ↦ rw f a
    ]
  ]

  -- Once the active shard is sealed, no shard of the bucket is active.
  none_active : All (NotActiveIn b) (after_seal now old d.shards)
  unfolding update_where
  none_active = map-All (NotActiveIn b) sealed_at d.shards (
      All-imp (λ s. (s.id ≡ old.id → s ≡ old) × ((s.id ≡ old.id) ⊎ NotActiveIn b s)) _ d.shards
        sealed_not_active
        (All-zip _ _ d.shards only_old
          (find-only_active b d.shards found (constraints_active d.shards v.constraints))))

  pub promotion_fits :
      (next : Shard)
      → constraints_ok (after_promote b now next (after_seal now old d.shards)) ≡ true
  unfolding update_where seal_row
  promotion_fits next =
      promote-constraints b now next.id 0 (after_seal now old d.shards)
        (Increasing-map sealed_at 0 d.shards (λ s. ground arith) v.ids.rising) none_active seal_fits

  counted : (count (is_version_of old) d.shards == 0) ≡ false
  counted = count-find (in_bucket b active) (is_version_of old) d.shards found old_is_version

  abbrev sealed_db : Db
  sealed_db = record d { shards = after_seal now old d.shards }

  -- The first statements always go through.
  reaches_succession :
      seal_rotate_tx locked b now d ≡ succeed locked b now (codes "seal_rotate") old sealed_db
  unfolding seal_rotate_tx
  reaches_succession =
      >>=-ok (select_row (in_bucket b active)) _ d (select_row-some (in_bucket b active) d found)
      ∙ >>=-ok (update (is_version_of old) (seal_row now)) _ d
          (update-ok (is_version_of old) (seal_row now) d seal_fits)
      ∙ >>=-ok (require_rows (count (is_version_of old) d.shards) conflict) _ sealed_db
          (require_rows-ok (count (is_version_of old) d.shards) conflict sealed_db counted)

  without_standby :
      find (is_available locked) d.shards ≡ none
      → Rotation locked b now d (seal_rotate locked b now d)
  unfolding succeed seal_rotate bump_topology_version
  without_standby none_free = only_sealed old found none_free (
      commit-ok (seal_rotate_tx locked b now) d (
        reaches_succession
        ∙ >>=-ok (select_row? (is_available locked)) _ sealed_db
            (select_row?_lem (is_available locked) sealed_db (same_standby ∙ none_free))))

  with_standby :
      (next : Shard)
      → find (is_available locked) d.shards ≡ some next
      → Rotation locked b now d (seal_rotate locked b now d)
  unfolding succeed seal_rotate bump_topology_version insert_event
  with_standby next free = replaced old next found free (
      commit-ok (seal_rotate_tx locked b now) d (
        reaches_succession
        ∙ >>=-ok (select_row? (is_available locked)) _ sealed_db
            (select_row?_lem (is_available locked) sealed_db (same_standby ∙ free))
        ∙ >>=-ok (update (λ t. t.id == next.id) (promoted b now)) _ sealed_db
            (update-ok (λ t. t.id == next.id) (promoted b now) sealed_db (promotion_fits next))))

-- On a database that keeps the constraints of its migrations, SealRotate of a bucket without an
-- active shard returns ErrNotFound and changes nothing. Otherwise it succeeds: the bucket's active
-- shard is sealed, and in the same transaction the first free standby that no other transaction
-- holds becomes active in the bucket and an event is written; with no such standby the bucket is
-- left without an active shard. The topology version rises by one.
pub seal_rotate-Rotation :
    (locked : ℕ → Bool) (b : Text) (now : ℕ) (d : Db)
    → IsValid d
    → Rotation locked b now d (seal_rotate locked b now d)
unfolding seal_rotate seal_rotate_tx
seal_rotate-Rotation locked b now d v = elim (Option-cases (find (in_bucket b active) d.shards)) [
  | inl none_active ↦ no_active none_active (
      commit-err (seal_rotate_tx locked b now) d (
        >>=-err (select_row (in_bucket b active)) _ d
          (select_row-none (in_bucket b active) d none_active)))
  | inr (old, found) ↦ elim (Option-cases (find (is_available locked) d.shards)) [
    | inl none_free ↦ without_standby locked b now d v old found none_free
    | inr (next, free) ↦ with_standby locked b now d v old found next free
  ]
]
