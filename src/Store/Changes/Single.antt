-- ===== src/Store/Changes/Single.antt =====
-- The transactions that update rows once: promotion, the begin of a drain, PatchState, the two
-- ends of a cleaning, and the reports of the agents.
use shardman.Prelude.{
  ℕ, ◌≡◌, ◌==◌, refl, sym, subst, Bool, true, false, ◌&&◌, none, if◌then◌else◌, inl, inr, arith,
  count, Bool-cases, ==_iff,
}
use shardman.Prelude.Int.{ℤ}
use shardman.Prelude.Text.{Text}
use shardman.Prelude.Results.{conflict, not_found}
use shardman.Fsm.{
  State, data_role, standby, active, draining, sealed, cleaning, state_eq, can_transition,
}
use shardman.Store.Shard.{Shard, in_bucket, in_standby_pool}
use shardman.Store.Db.{Db, ◌>>◌, return, update_where, bump_topology_version}
use shardman.Store.Table.{All-intro, All-imp, find_unique, find-true}
use shardman.Store.Register.{
  require_rows, stats_row, seen_row, ready_row, promote_tx, is_available, promoted, update_stats,
  mark_drain_ready, set_last_seen_at,
}
use shardman.Store.Rotate.{
  drain_row, clean_row, patch_row, begin_drain_tx, patch_state_tx, mark_bucket_cleaning_tx,
  finish_cleaning_tx, recycled, bump_if_rows,
}
use shardman.Store.Moves.{
  IdsOk, Change, RowStep, SameRoute, promotes, drains, cleans, recycles, patches, RowStep-refl,
}
use shardman.Store.Ensures.{
  Ensures, done, bind_select, last_require, bind_validate, bind_update, then_return,
  bind_update_require,
}
use shardman.Store.Changes.Rows.{Change-map, Change-kept, Change-bump}

-- What the tests on a row say of it.
pub in_standby_pool_lem :
    (s : Shard)
    → in_standby_pool s ≡ true
    → (s.role ≡ data_role) × (s.state ≡ standby) × (s.bucket_id ≡ none)
unfolding in_standby_pool state_eq
in_standby_pool_lem s h = ground arith

pub in_bucket_lem :
    (b : Text) (s : Shard)
    → (in_bucket b active s ≡ true → (s.role ≡ data_role) × (s.state ≡ active))
      × (in_bucket b draining s ≡ true → (s.role ≡ data_role) × (s.state ≡ draining))
      × (in_bucket b sealed s ≡ true → (s.role ≡ data_role) × (s.state ≡ sealed))
unfolding in_bucket state_eq
in_bucket_lem b s = (λ h. ground arith, λ h. ground arith, λ h. ground arith)

promoted_row :
    (locked : ℕ → Bool) (b : Text) (now : ℕ) (a s : Shard)
    → is_available locked a ≡ true
    → (s.id ≡ a.id → s ≡ a)
    → RowStep false s (if s.id == a.id then promoted b now s else s)
unfolding is_available promoted
promoted_row locked b now a s h only = elim (Bool-cases (s.id == a.id)) [
  | inl t ↦
      let free = in_standby_pool_lem a (ground arith) in
      let same = only ((==_iff s.id a.id).0 t) in rw t (promotes b (ground arith))
  | inr f ↦ rw f (RowStep-refl false s)
]

promote_ids :
    (a s : Shard) (b : Text) (now : ℕ) → (if s.id == a.id then promoted b now s else s).id ≡ s.id
unfolding promoted
promote_ids a s b now = ground arith

pub promote-Change :
    (locked : ℕ → Bool) (b : Text) (now : ℕ) (d : Db)
    → IdsOk d
    → Ensures (λ id d'. Change false d d') (promote_tx locked b now d)
unfolding promote_tx update_where bump_topology_version
promote-Change locked b now d v =
    bind_select (λ id d'. Change false d d') (is_available locked) _ d
      λ a e.
        bind_update (λ id d'. Change false d d') (λ t. t.id == a.id) (promoted b now) _ d
          λ _. done (
            Change-map false d v (λ s. if s.id == a.id then promoted b now s else s)
              (λ s. promote_ids a s b now) d.events
              (All-imp (λ s. s.id ≡ a.id → s ≡ a) _ d.shards
                (λ s only. promoted_row locked b now a s (find-true _ d.shards e) only)
                (find_unique (is_available locked) 0 d.shards v.rising e)))

drained_row :
    (b : Text) (now : ℕ) (s : Shard)
    → RowStep false s (if in_bucket b active s then drain_row now s else s)
unfolding drain_row
drained_row b now s = elim (Bool-cases (in_bucket b active s)) [
  | inl t ↦ let was = (in_bucket_lem b s).0 t in rw t (drains (ground arith))
  | inr f ↦ rw f (RowStep-refl false s)
]

pub begin_drain-Change :
    (b : Text) (now : ℕ) (d : Db)
    → IdsOk d
    → Ensures (λ u d'. Change false d d') (begin_drain_tx b now d)
unfolding begin_drain_tx update_where bump_topology_version drain_row
begin_drain-Change b now d v =
    bind_update_require (λ u d'. Change false d d') (in_bucket b active) (drain_row now) not_found _
      d
      λ _. done (
        Change-map false d v (λ s. if in_bucket b active s then drain_row now s else s)
          (λ s. ground arith) d.events
          (All-intro (λ s. RowStep false s (if in_bucket b active s then drain_row now s else s))
            d.shards (drained_row b now)))

cleaned_row :
    (b : Text) (s : Shard) → RowStep false s (if in_bucket b sealed s then clean_row s else s)
unfolding clean_row
cleaned_row b s = elim (Bool-cases (in_bucket b sealed s)) [
  | inl t ↦ let was = (in_bucket_lem b s).2 t in rw t (cleans (ground arith))
  | inr f ↦ rw f (RowStep-refl false s)
]

recycled_row :
    (uuid : ℕ) (s : Shard)
    → RowStep false s (if s.shard_uuid == uuid && state_eq s.state cleaning then recycled s else s)
unfolding recycled state_eq
recycled_row uuid s = elim (Bool-cases (s.shard_uuid == uuid && state_eq s.state cleaning)) [
  | inl t ↦ rw t (recycles (ground arith))
  | inr f ↦ rw f (RowStep-refl false s)
]

pub mark_bucket_cleaning-Change :
    (b : Text) (d : Db)
    → IdsOk d
    → Ensures (λ n d'. Change false d d') (mark_bucket_cleaning_tx b d)
unfolding mark_bucket_cleaning_tx
mark_bucket_cleaning-Change b d v =
    bind_update (λ n d'. Change false d d') (in_bucket b sealed) clean_row
      (λ n. bump_if_rows n >> return n) d
      λ _.
        then_return (λ d'. Change false d d') (bump_if_rows (count (in_bucket b sealed) d.shards)) _
          _
          (Change-bump false d v (in_bucket b sealed) clean_row (unfold clean_row in λ s. refl)
            (All-intro _ d.shards (cleaned_row b)))

pub finish_cleaning-Change :
    (uuid : ℕ) (d : Db) → IdsOk d → Ensures (λ u d'. Change false d d') (finish_cleaning_tx uuid d)
unfolding finish_cleaning_tx
finish_cleaning-Change uuid d v =
    bind_update (λ u d'. Change false d d') (λ s. s.shard_uuid == uuid && state_eq s.state cleaning)
      recycled bump_if_rows d
      λ _.
        Change-bump false d v (λ s. s.shard_uuid == uuid && state_eq s.state cleaning) recycled
          (unfold recycled in λ s. refl) (All-intro _ d.shards (recycled_row uuid))

-- PatchState moves the one row with the id, and only as the table of fsm.go allows.
patched_row :
    (id : ℕ) (to : State) (a s : Shard)
    → (a.id == id) ≡ true
    → can_transition a.role a.state to ≡ true
    → (s.id ≡ a.id → s ≡ a)
    → RowStep true s (if s.id == id && s.version == a.version then patch_row to s else s)
unfolding patch_row
patched_row id to a s hit allowed only = elim (Bool-cases (s.id == id && s.version == a.version)) [
  | inl t ↦
      let same = only (ground arith) in
      rw t (
        patches refl (record {
          same = ground arith;
          allowed =
              subst (λ (r : Shard). can_transition r.role r.state to ≡ true) (sym same) allowed;
          same_bucket = refl;
        }))
  | inr f ↦ rw f (RowStep-refl true s)
]

pub patch_state-Change :
    (id : ℕ) (to : State) (d : Db)
    → IdsOk d
    → Ensures (λ u d'. Change true d d') (patch_state_tx id to d)
unfolding patch_state_tx update_where bump_topology_version patch_row
patch_state-Change id to d v =
    bind_select (λ u d'. Change true d d') (λ s. s.id == id) _ d
      λ a e.
        bind_validate (λ u d'. Change true d d') a to _ d
          λ allowed.
            bind_update_require (λ u d'. Change true d d')
              (λ t. t.id == id && t.version == a.version) (patch_row to) conflict _ d
              λ _. done (
                Change-map true d v
                  (λ s. if s.id == id && s.version == a.version then patch_row to s else s)
                  (λ s. ground arith) d.events
                  (All-imp (λ s. s.id ≡ a.id → s ≡ a) _ d.shards
                    (λ s only. patched_row id to a s (find-true _ d.shards e) allowed only)
                    (find_unique (λ s. s.id == id) 0 d.shards v.rising e)))

-- The reports of the agents touch neither place nor address.
report-Change :
    (p : Shard → Bool) (f : Shard → Shard) (d : Db)
    → IdsOk d
    → ((s : Shard) → SameRoute s (f s))
    → Change false d (record d { shards = update_where p f d.shards })
unfolding update_where
report-Change p f d v same =
    Change-kept false d v (λ s. if p s then f s else s) (λ s. ground (arith, same s))
      (All-intro (λ s. SameRoute s (if p s then f s else s)) d.shards (λ s. ground (arith, same s)))

pub update_stats-Change :
    (uuid : ℕ) (bytes : ℤ) (now : ℕ) (d : Db)
    → IdsOk d
    → Ensures (λ u d'. Change false d d') (update_stats uuid bytes now d)
unfolding update_stats
update_stats-Change uuid bytes now d v =
    bind_update (λ u d'. Change false d d') (λ s. s.shard_uuid == uuid) (stats_row bytes now)
      (λ n. require_rows n not_found) d
      λ _.
        last_require (λ d'. Change false d d') _ not_found _
          (report-Change (λ s. s.shard_uuid == uuid) (stats_row bytes now) d v
            (unfold stats_row in λ s. ground arith))

pub mark_drain_ready-Change :
    (uuid : ℕ) (d : Db) → IdsOk d → Ensures (λ u d'. Change false d d') (mark_drain_ready uuid d)
unfolding mark_drain_ready
mark_drain_ready-Change uuid d v =
    bind_update (λ u d'. Change false d d') (λ s. s.shard_uuid == uuid && state_eq s.state draining)
      ready_row (λ n. require_rows n not_found) d
      λ _.
        last_require (λ d'. Change false d d') _ not_found _
          (report-Change (λ s. s.shard_uuid == uuid && state_eq s.state draining) ready_row d v
            (unfold ready_row in λ s. ground arith))

pub set_last_seen_at-Change :
    (uuid at : ℕ) (d : Db)
    → IdsOk d
    → Ensures (λ u d'. Change false d d') (set_last_seen_at uuid at d)
unfolding set_last_seen_at
set_last_seen_at-Change uuid at d v =
    bind_update (λ u d'. Change false d d') (λ s. s.shard_uuid == uuid) (seen_row at)
      (λ n. return tt) d
      λ _. done (
        report-Change (λ s. s.shard_uuid == uuid) (seen_row at) d v
          (unfold seen_row in λ s. ground arith))
