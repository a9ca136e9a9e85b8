-- ===== src/Store/Lifecycle.antt =====
-- The states of the shards over the histories of a database, against the table of
-- internal/fsm/fsm.go.
use shardman.Prelude.{
  ◌≡◌, subst, Bool, true, false, ◌⊎◌, inr, Option, none, List, [], ◌∷◌, All, arith, not,
}
use shardman.Prelude.Text.{Text}
use shardman.Fsm.{State, data_role, error_role, standby, active, other, can_transition, state_eq}
use shardman.Store.Shard.{Shard, has_no_bucket}
use shardman.Store.Db.{Db}
use shardman.Store.Machine.{Op, is_patch, apply, run}
use shardman.Store.Table.{
  Evolves, Evolves-refl, Evolves-trans, Evolves-new, Evolves-imp, Evolves-All, All-intro,
}
use shardman.Store.Moves.{
  IdsOk, RowStep, NewRow, SameId, keeps, readdresses, promotes, drains, seals, seals_drained,
  cleans, recycles, patches,
}
use shardman.Store.Conformance.{apply-Change}

-- An error shard is active and has no bucket.
abbrev pub ErrorIsActive : Shard → Type 0
ErrorIsActive s = s.role ≡ error_role → (s.state ≡ active) × (s.bucket_id ≡ none)

pub record IsSound (d : Db) : Type 0 where
  pub ids : IdsOk d
  pub errors : All ErrorIsActive d.shards

-- The row keeps its identity, and its state stays or takes an edge that the role allows.
pub record Follows (s t : Shard) : Type 0 where
  pub same : SameId s t
  pub edge : (t.state ≡ s.state) ⊎ (can_transition s.role s.state t.state ≡ true)

RowStep-ErrorIsActive :
    (admin : Bool) (s t : Shard) → RowStep admin s t → ErrorIsActive s → ErrorIsActive t
unfolding can_transition state_eq
RowStep-ErrorIsActive admin s t (keeps k) h = ground arith
RowStep-ErrorIsActive admin s t (readdresses k) h = ground arith
RowStep-ErrorIsActive admin s t (promotes b k) h = ground arith
RowStep-ErrorIsActive admin s t (drains k) h = ground arith
RowStep-ErrorIsActive admin s t (seals k) h = ground arith
RowStep-ErrorIsActive admin s t (seals_drained k) h = ground arith
RowStep-ErrorIsActive admin s t (cleans k) h = ground arith
RowStep-ErrorIsActive admin s t (recycles k) h = ground arith
RowStep-ErrorIsActive admin s t (patches a k) h = ground arith

NewRow-ErrorIsActive : (s : Shard) → NewRow s → ErrorIsActive s
NewRow-ErrorIsActive s new = ground arith

pub apply-IsSound : (o : Op) (d : Db) → IsSound d → IsSound (apply o d)
apply-IsSound o d v =
    let change = apply-Change o d v.ids in
    record {
      ids = change.ids;
      errors =
          Evolves-All (RowStep (is_patch o)) NewRow ErrorIsActive d.shards (apply o d).shards
            (RowStep-ErrorIsActive (is_patch o)) NewRow-ErrorIsActive change.rows v.errors;
    }

pub run-IsSound : (os : List Op) (d : Db) → IsSound d → IsSound (run os d)
unfolding run
run-IsSound [] d v = v
run-IsSound (o ∷ os) d v = run-IsSound os (apply o d) (apply-IsSound o d v)

RowStep-Follows : (admin : Bool) (s t : Shard) → RowStep admin s t → ErrorIsActive s → Follows s t
unfolding can_transition state_eq
RowStep-Follows admin s t (keeps k) h = ground arith
RowStep-Follows admin s t (readdresses k) h = ground arith
RowStep-Follows admin s t (promotes b k) h = ground arith
RowStep-Follows admin s t (drains k) h = ground arith
RowStep-Follows admin s t (seals k) h = ground arith
RowStep-Follows admin s t (seals_drained k) h = ground arith
RowStep-Follows admin s t (cleans k) h = ground arith
RowStep-Follows admin s t (recycles k) h = ground arith
RowStep-Follows admin s t (patches a k) h = record { same = k.same; edge = inr k.allowed }

-- On a database whose ids rise along the sequence and whose error shards are active without a
-- bucket: after any operation each shard has the id, uuid and role that it had, and its state is the
-- same or one that fsm.CanTransition allows; a shard that is new is a free standby or an active
-- error shard without a bucket.
pub apply-Follows :
    (o : Op) (d : Db) → IsSound d → Evolves Follows NewRow d.shards (apply o d).shards
apply-Follows o d v =
    Evolves-imp (RowStep (is_patch o)) Follows NewRow ErrorIsActive d.shards (apply o d).shards
      (RowStep-Follows (is_patch o)) (apply-Change o d v.ids).rows v.errors

-- A data shard is in one of the five states, and has a bucket exactly when it is no standby.
unfoldable pub is_placed : State → Option Text → Bool
is_placed standby b = has_no_bucket b
is_placed (other st) b = false
is_placed _ b = not (has_no_bucket b)

abbrev pub IsPlaced : Shard → Type 0
IsPlaced s = s.role ≡ data_role → is_placed s.state s.bucket_id ≡ true

RowStep-IsPlaced : (s t : Shard) → RowStep false s t → IsPlaced s → IsPlaced t
unfolding is_placed
RowStep-IsPlaced s t (keeps k) h = ground arith
RowStep-IsPlaced s t (readdresses k) h = ground arith
RowStep-IsPlaced s t (promotes b k) h = ground arith
RowStep-IsPlaced s t (drains k) h = ground arith
RowStep-IsPlaced s t (seals k) h = ground arith
RowStep-IsPlaced s t (seals_drained k) h = ground arith
RowStep-IsPlaced s t (cleans k) h = ground arith
RowStep-IsPlaced s t (recycles k) h = ground arith
RowStep-IsPlaced s t (patches a k) h = cc

NewRow-IsPlaced : (s : Shard) → NewRow s → IsPlaced s
unfolding is_placed
NewRow-IsPlaced s new = ground arith

-- No operation of a history is PatchState.
abbrev pub NoPatch : List Op → Type 0
NoPatch [] = Unit {0}
NoPatch (o ∷ os) = (is_patch o ≡ false) × NoPatch os

-- In every history without PatchState: if at the start every data shard is in one of the five states
-- and has a bucket exactly when it is not a standby, then so at the end. (The ids rise along the
-- sequence, and error shards are active without a bucket.)
pub run-IsPlaced :
    (os : List Op) (d : Db)
    → NoPatch os
    → IsSound d
    → All IsPlaced d.shards
    → All IsPlaced (run os d).shards
unfolding run
run-IsPlaced [] d h v placed = placed
run-IsPlaced (o ∷ os) d h v placed = run-IsPlaced os (apply o d) h.1 (apply-IsSound o d v) (
    Evolves-All (RowStep false) NewRow IsPlaced d.shards (apply o d).shards RowStep-IsPlaced
      NewRow-IsPlaced
      (subst (λ a. Evolves (RowStep a) NewRow d.shards (apply o d).shards) h.0
        (apply-Change o d v.ids).rows)
      placed)

-- A standby that still has a bucket, as PatchState leaves one that was cleaning.
abbrev pub IsStranded : Shard → Type 0
IsStranded s = (s.role ≡ data_role) × (s.state ≡ standby) × (has_no_bucket s.bucket_id ≡ false)

abbrev pub StaysStranded : Shard → Shard → Type 0
StaysStranded s t = IsStranded s → IsStranded t

RowStep-StaysStranded : (s t : Shard) → RowStep false s t → StaysStranded s t
RowStep-StaysStranded s t (keeps k) h = ground arith
RowStep-StaysStranded s t (readdresses k) h = ground arith
RowStep-StaysStranded s t (promotes b k) h = absurd (ground arith)
RowStep-StaysStranded s t (drains k) h = absurd (ground arith)
RowStep-StaysStranded s t (seals k) h = absurd (ground arith)
RowStep-StaysStranded s t (seals_drained k) h = absurd (ground arith)
RowStep-StaysStranded s t (cleans k) h = absurd (ground arith)
RowStep-StaysStranded s t (recycles k) h = absurd (ground arith)
RowStep-StaysStranded s t (patches a k) h = cc

abbrev pub AnyRow : Shard → Type 0
AnyRow s = Unit {0}

-- A standby that has a bucket is never used again: it stays where it is, a standby with a bucket,
-- through every history without PatchState.
pub run-IsStranded :
    (os : List Op) (d : Db)
    → NoPatch os
    → IdsOk d
    → Evolves StaysStranded AnyRow d.shards (run os d).shards
unfolding run
run-IsStranded [] d h v = Evolves-refl StaysStranded AnyRow d.shards (λ t k. k)
run-IsStranded (o ∷ os) d h v =
    let change = apply-Change o d v in
    let now = subst (λ a. Evolves (RowStep a) NewRow d.shards (apply o d).shards) h.0 change.rows in
    Evolves-trans StaysStranded AnyRow d.shards (apply o d).shards (run os (apply o d)).shards
      (λ r s t f g k. g (f k)) (λ s t f n. tt)
      (Evolves-new StaysStranded NewRow AnyRow d.shards (apply o d).shards (λ s n. tt)
        (Evolves-imp (RowStep false) StaysStranded NewRow AnyRow d.shards (apply o d).shards
          (λ s t step n. RowStep-StaysStranded s t step) now (All-intro AnyRow d.shards (λ s. tt))))
      (run-IsStranded os (apply o d) h.1 change.ids)
