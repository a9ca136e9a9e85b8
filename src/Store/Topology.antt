-- ===== src/Store/Topology.antt =====
-- The topology version, by which clients keep or drop their cached routes.
use shardman.Prelude.{
  ℕ, ◌+◌, ◌≤◌, ◌≡◌, refl, sym, subst, ◌∙◌, ◌⊎◌, inl, inr, some, List, [], ◌∷◌, arith,
}
use shardman.Store.Shard.{Shard}
use shardman.Store.Db.{Db, ConfigRow, bump_config}
use shardman.Store.Machine.{Op, apply, run}
use shardman.Store.Table.{Evolves, Evolves-refl}
use shardman.Store.Moves.{IdsOk, SameRoute, SameRoute-refl, NoRow}
use shardman.Store.Conformance.{apply-Change}

-- The same rows, under the same routes.
abbrev pub SameRoutes : List Shard → List Shard → Type 0
SameRoutes = Evolves SameRoute NoRow

SameRoute-trans : (r s t : Shard) → SameRoute r s → SameRoute s t → SameRoute r t
SameRoute-trans r s t h k = ground arith

SameRoutes-trans : (xs ys zs : List Shard) → SameRoutes xs ys → SameRoutes ys zs → SameRoutes xs zs
SameRoutes-trans [] [] zs h k = k
SameRoutes-trans [] (y ∷ ys) zs h k = absurd h.0
SameRoutes-trans (x ∷ xs) [] zs h k = absurd h
SameRoutes-trans (x ∷ xs) (y ∷ ys) [] h k = absurd k
SameRoutes-trans (x ∷ xs) (y ∷ ys) (z ∷ zs) h k =
    (SameRoute-trans x y z h.0 k.0, SameRoutes-trans xs ys zs h.1 k.1)

-- The version before and after: it grew, or it stands and so do the routes.
abbrev pub Versioned : Db → ℕ → Db → ℕ → Type 0
Versioned d n d' n' = (n + 1 ≤ n') ⊎ ((n' ≡ n) × SameRoutes d.shards d'.shards)

pub Versioned-trans :
    (d₁ d₂ d₃ : Db) (n₁ n₂ n₃ : ℕ)
    → Versioned d₁ n₁ d₂ n₂
    → Versioned d₂ n₂ d₃ n₃
    → Versioned d₁ n₁ d₃ n₃
Versioned-trans d₁ d₂ d₃ n₁ n₂ n₃ (inl h) (inl k) = inl (omega arith)
Versioned-trans d₁ d₂ d₃ n₁ n₂ n₃ (inl h) (inr k) = inl (omega arith)
Versioned-trans d₁ d₂ d₃ n₁ n₂ n₃ (inr h) (inl k) = inl (omega arith)
Versioned-trans d₁ d₂ d₃ n₁ n₂ n₃ (inr h) (inr k) =
    inr (omega arith, SameRoutes-trans d₁.shards d₂.shards d₃.shards h.1 k.1)

-- One operation; the configuration keeps its row.
pub apply-Versioned :
    (o : Op) (d : Db) {c : ConfigRow}
    → IdsOk d
    → d.config ≡ some c
    → (c' : ConfigRow) × ((apply o d).config ≡ some c')
      × Versioned d c.topology_version (apply o d) c'.topology_version
unfolding bump_config
apply-Versioned o d {c} v e = elim (apply-Change o d v).version [
  | inl (routes, same) ↦ (c, same ∙ e, inr (refl, routes))
  | inr bumped ↦ (
    record c { topology_version = c.topology_version + 1 },
    bumped ∙ (rw e refl),
    inl (omega arith),
  )
]

run-Versioned_lem :
    (os : List Op) (d : Db) {c : ConfigRow}
    → IdsOk d
    → d.config ≡ some c
    → (c' : ConfigRow) × ((run os d).config ≡ some c')
      × Versioned d c.topology_version (run os d) c'.topology_version
unfolding run
run-Versioned_lem [] d {c} v e =
    (c, e, inr (refl, Evolves-refl SameRoute NoRow d.shards SameRoute-refl))
run-Versioned_lem (o ∷ os) d {c} v e =
    let (c₁, e₁, v₁) = apply-Versioned o d v e in
    let (c₂, e₂, v₂) = run-Versioned_lem os (apply o d) (apply-Change o d v).ids e₁ in
    (
      c₂,
      e₂,
      Versioned-trans d (apply o d) (run os (apply o d)) c.topology_version c₁.topology_version
          c₂.topology_version v₁ v₂,
    )

some_injective {ℓ} : {A : Type ℓ} {a b : A} → some a ≡ some b → a ≡ b
some_injective e = cc

-- Over any history of a bootstrapped database whose ids rise along the sequence the topology
-- version never falls; and if it is at
-- the end what it was at the start, then no shard was added, and each has the id, uuid, role,
-- bucket, state, DSN and advertised URL that it had.
pub run-Versioned :
    (os : List Op) (d : Db) {c c' : ConfigRow}
    → IdsOk d
    → d.config ≡ some c
    → (run os d).config ≡ some c'
    → Versioned d c.topology_version (run os d) c'.topology_version
run-Versioned os d {c} {c'} v e e' =
    let (c₁, e₁, h) = run-Versioned_lem os d v e in
    subst (λ (x : ConfigRow). Versioned d c.topology_version (run os d) x.topology_version)
      (some_injective (sym e₁ ∙ e')) h
