-- ===== src/Store/History.antt =====
-- Histories: what a caller of the store does to the database is a sequence of its operations.
use shardman.Prelude.{◌≡◌, refl, sym, ◌∙◌, subst, false, List, [], ◌∷◌, ◌++◌}
use shardman.Store.Db.{Db}
use shardman.Store.Machine.{Op, is_patch, apply, run}
use shardman.Store.Lifecycle.{NoPatch}

-- `d'` is reached from `d` by operations of the store, none of which is PatchState.
pub data History (d d' : Db) : Type 0 where
  history : (os : List Op) → NoPatch os → run os d ≡ d' → History d d'

run-append : (os ps : List Op) (d : Db) → run (os ++ ps) d ≡ run ps (run os d)
unfolding run
run-append [] ps d = refl
run-append (o ∷ os) ps d = run-append os ps (apply o d)

NoPatch-append : (os ps : List Op) → NoPatch os → NoPatch ps → NoPatch (os ++ ps)
NoPatch-append [] ps h k = k
NoPatch-append (o ∷ os) ps h k = (h.0, NoPatch-append os ps h.1 k)

pub History-refl : (d : Db) → History d d
unfolding run
History-refl d = history [] tt refl

pub History-apply : (o : Op) (d : Db) → is_patch o ≡ false → History d (apply o d)
unfolding run
History-apply o d h = history (o ∷ []) (h, tt) refl

pub History-trans : {d₁ d₂ d₃ : Db} → History d₁ d₂ → History d₂ d₃ → History d₁ d₃
History-trans {d₁} {d₂} {d₃} (history os h e) (history ps k f) =
    history (os ++ ps) (NoPatch-append os ps h k)
      (run-append os ps d₁ ∙ subst (λ d. run ps d ≡ d₃) (sym e) f)
