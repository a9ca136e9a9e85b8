-- ===== src/Server/Consistency.antt =====
-- What the server keeps true from call to call: of the database, of its cached configuration, and of
-- the version that it announced last.
use shardman.Prelude.{
  ℕ, ◌≤◌, Option, none, some, List, [], ◌∷◌, ◌≡◌, refl, ap, sym, ◌∙◌, inl, inr, Option-cases, subst,
  arith,
}
use shardman.Prelude.Int.{ℤ}
use shardman.Prelude.Results.{Result, ok, err}
use shardman.Prelude.Text.{Text}
use shardman.Bucket.Platform.{Platform}
use shardman.Bucket.Spec.{Spec}
use shardman.Store.Db.{Db, ConfigRow, bump_config}
use shardman.Store.Machine.{Op, apply, run}
use shardman.Store.Moves.{IdsOk}
use shardman.Store.Conformance.{apply-Change}
use shardman.Store.Lifecycle.{IsSound, run-IsSound}
use shardman.Store.History.{History, history, History-refl}
use shardman.Store.Config.{
  ClusterConfig, Store, bootstrap, bootstrap_at, insert_stored, insert_config, get_config,
}
use shardman.Store.Cache.{get_config-Tells, bootstrap-IsCoherent}
use shardman.Store.Described.{IsCoherent, AgreesWith, run-AgreesWith}
use shardman.Supervisors.Retention.{retention_tick, tick_with, retention_round}
use shardman.Supervisors.Histories.{retention_round-History}
use shardman.Resolve.Histories.{get_config_same, Resolves}

abbrev pub version_of : Option ConfigRow → ℕ
version_of none = 0
version_of (some c) = c.topology_version

-- The versions of a history rise.
apply-version : (o : Op) (d : Db) → IdsOk d → version_of d.config ≤ version_of (apply o d).config
unfolding bump_config
apply-version o d v = elim (apply-Change o d v).version [
  | inl (routes, same) ↦ rw same (omega arith)
  | inr bumped ↦ elim (Option-cases d.config) [
    | inl e ↦ rw e (omega arith)
    | inr (c, e) ↦ rw (bumped, e) (omega arith)
  ]
]

run-version : (os : List Op) (d : Db) → IdsOk d → version_of d.config ≤ version_of (run os d).config
unfolding run
run-version [] d v = omega arith
run-version (o ∷ os) d v =
    let first = apply-version o d v in
    let rest = run-version os (apply o d) (apply-Change o d v).ids in omega arith

module _ (P : Platform) where
  -- A change of the store keeps what is true of it.
  abbrev pub Keeps : Store → Store → Type 0
  Keeps st st' =
      IsSound st.db
      → IsCoherent P st
      → IsSound st'.db × IsCoherent P st' × (version_of st.db.config ≤ version_of st'.db.config)

  pub Keeps-refl : (st : Store) → Keeps st st
  Keeps-refl st v h = (v, h, omega arith)

  -- By a sequence of operations, with a cache that describes the database of before.
  run-Keeps :
      (os : List Op) (st st' : Store)
      → run os st.db ≡ st'.db
      → (IsCoherent P st → AgreesWith P st.db st'.config_cache)
      → Keeps st st'
  run-Keeps os st st' e cached v h =
      subst
        (λ d.
          IsSound d
          × AgreesWith P d st'.config_cache
          × (version_of st.db.config ≤ version_of d.config))
        e
        (
          run-IsSound os st.db v,
          run-AgreesWith P os st.db st'.config_cache v.ids (cached h),
          run-version os st.db v.ids,
        )

  pub apply-Keeps : (o : Op) (st : Store) → Keeps st (record st { db = apply o st.db })
  unfolding run
  apply-Keeps o st = run-Keeps (o ∷ []) st (record st { db = apply o st.db }) refl (λ h. h)

  -- GetConfig leaves a cache that describes the database.
  get_config-AgreesWith :
      (st : Store) → IsCoherent P st → AgreesWith P st.db (get_config P st).1.config_cache
  unfolding get_config
  get_config-AgreesWith st h =
      subst (λ d. AgreesWith P d (get_config P st).1.config_cache)
        (get_config_same P st.config_cache st) (get_config-Tells P st.config_cache st refl h).1

  resolves-Keeps :
      (st st' : Store)
      → History st.db st'.db
      → st'.config_cache ≡ (get_config P st).1.config_cache
      → Keeps st st'
  resolves-Keeps st st' (history os n e) cached =
      run-Keeps os st st' e
        (λ h. subst (AgreesWith P st.db) (sym cached) (get_config-AgreesWith st h))

  pub resolved-Keeps :
      {A : Type 0} (st : Store) (r : Result A × Store) → Resolves P st r → Keeps st r.1
  resolved-Keeps st r h = resolves-Keeps st r.1 h.0 h.1

  pub get_config-Keeps : (st : Store) → Keeps st (get_config P st).1
  unfolding get_config
  get_config-Keeps st =
      resolves-Keeps st (get_config P st).1
        (subst (λ d. History st.db d) (sym (get_config_same P st.config_cache st))
          (History-refl st.db))
        refl

  tick_with-Keeps :
      (clock : ℤ) (st : Store) (r : Result ClusterConfig × Store)
      → get_config P st ≡ r
      → Keeps st (tick_with P clock r).1
  unfolding tick_with get_config
  tick_with-Keeps clock st (err e, st') same =
      subst (Keeps st) (ap (λ r. r.1) same) (get_config-Keeps st)
  tick_with-Keeps clock st (ok c, st') same =
      let db : st.db ≡ st'.db =
        sym (get_config_same P st.config_cache st) ∙ ap (λ r. r.1.db) same in
      let d' = (retention_round c clock st'.db).1 in
      resolves-Keeps st (record st' { db = d' })
        (subst (λ d. History d d') (sym db) (retention_round-History c clock st'.db))
        (ap (λ r. r.1.config_cache) (sym same))

  pub retention_tick-Keeps : (clock : ℤ) (st : Store) → Keeps st (retention_tick P clock st).1
  unfolding retention_tick
  retention_tick-Keeps clock st = tick_with-Keeps clock st (get_config P st) refl

  insert_stored-Keeps :
      (c : ClusterConfig) (stored : Option Text) (st : Store)
      → st.db.config ≡ none
      → IsSound st.db
      → IsSound (insert_stored c stored st).1.db
        × (version_of st.db.config ≤ version_of (insert_stored c stored st).1.db.config)
  unfolding insert_stored
  insert_stored-Keeps c none st none_yet v = (v, omega arith)
  insert_stored-Keeps c (some t) st none_yet v = (
    record { ids = record { rising = v.ids.rising; below = v.ids.below }; errors = v.errors },
    rw none_yet (omega arith),
  )

  insert_config-Keeps :
      (c : ClusterConfig) (spec : Result Spec) (st : Store)
      → st.db.config ≡ none
      → IsSound st.db
      → IsSound (insert_config P c spec st).1.db
        × (version_of st.db.config ≤ version_of (insert_config P c spec st).1.db.config)
  unfolding insert_config
  insert_config-Keeps c (err e) st none_yet v = (v, omega arith)
  insert_config-Keeps c (ok spec) st none_yet v =
      insert_stored-Keeps (record c { bucket_spec = spec }) (P.jsonb c.bucket_spec_raw) st none_yet
        v

  bootstrap_at-Keeps :
      (row : Option ConfigRow) (c : ClusterConfig) (st : Store)
      → st.db.config ≡ row
      → IsSound st.db
      → IsSound (bootstrap_at P row c st).1.db
        × (version_of st.db.config ≤ version_of (bootstrap_at P row c st).1.db.config)
  unfolding bootstrap_at
  bootstrap_at-Keeps (some row) c st e v = (v, omega arith)
  bootstrap_at-Keeps none c st e v = insert_config-Keeps c _ st e v

  pub bootstrap-Keeps : (c : ClusterConfig) (st : Store) → Keeps st (bootstrap P c st).1
  unfolding bootstrap
  bootstrap-Keeps c st v h =
      let (sound, rises) = bootstrap_at-Keeps st.db.config c st refl v in
      (sound, bootstrap-IsCoherent P c st h, rises)
