-- ===== src/Store/Cache.antt =====
-- The cached configuration of internal/store/store.go (cachedConfig, storeConfigCache, GetConfig)
-- against the row in the database.
use shardman.Prelude.{◌≡◌, refl, subst, inl, inr, Option, none, some, List}
use shardman.Prelude.Results.{Result, ok, err}
use shardman.Prelude.Text.{Text}
use shardman.Bucket.Platform.{Platform}
use shardman.Bucket.Spec.{Spec, parse_spec}
use shardman.Store.Db.{Db, ConfigRow}
use shardman.Store.Machine.{Op, run}
use shardman.Store.Moves.{IdsOk}
use shardman.Store.Config.{
  ClusterConfig, Store, row_of, config_of, config_with, load_row, load_config_from_db,
  insert_stored, insert_config, bootstrap_at, bootstrap, remember, get_config_at, get_config,
}
use shardman.Store.Described.{Describes, AgreesWith, IsCoherent, run-AgreesWith}

ok_injective : {A : Type 0} {a b : A} → ok a ≡ ok b → a ≡ b
ok_injective e = cc

module _ (P : Platform) where
  config_with-Describes :
      (r : ConfigRow) (spec : Result Spec) (d : Db) {c : ClusterConfig}
      → d.config ≡ some r
      → parse_spec P r.bucket_axis r.bucket_spec ≡ spec
      → config_with P r spec ≡ ok c
      → Describes P c d
  unfolding config_with config_of
  config_with-Describes r (err x) d e p h = absurd (cc h)
  config_with-Describes r (ok spec) d e p h =
      subst (λ c. Describes P c d) (ok_injective h)
        (record {
          row = r;
          stored = e;
          mode = refl;
          axis = refl;
          limit = refl;
          depth = refl;
          future = refl;
          text = inl refl;
          parses = p;
        })

  -- A configuration that was just loaded.
  load_row-Describes :
      (o : Option ConfigRow) (d : Db) {c : ClusterConfig}
      → d.config ≡ o
      → load_row P o ≡ ok c
      → Describes P c d
  unfolding load_row
  load_row-Describes none d e h = absurd (cc h)
  load_row-Describes (some r) d e h =
      config_with-Describes r (parse_spec P r.bucket_axis r.bucket_spec) d e refl h

  -- The result of GetConfig tells what the database holds.
  abbrev pub Tells : Db → Result ClusterConfig → Type 0
  Tells d (ok c) = Describes P c d
  Tells d (err x) = load_config_from_db P d ≡ err x

  remember-Tells :
      (r : Result ClusterConfig) (st : Store)
      → load_config_from_db P st.db ≡ r
      → st.config_cache ≡ none
      → Tells st.db (remember P r st).0 × IsCoherent P (remember P r st).1
  unfolding remember load_config_from_db
  remember-Tells (ok c) st e n =
      let told = load_row-Describes st.db.config st.db refl e in (told, told)
  remember-Tells (err x) st e n = (e, rw n tt)

  pub get_config-Tells :
      (cache : Option ClusterConfig) (st : Store)
      → st.config_cache ≡ cache
      → IsCoherent P st
      → Tells st.db (get_config_at P cache st).0 × IsCoherent P (get_config_at P cache st).1
  unfolding get_config_at
  get_config-Tells none st e h = remember-Tells (load_config_from_db P st.db) st refl e
  get_config-Tells (some c) st e h = (subst (AgreesWith P st.db) e h, h)

  -- What a store is configured with is what its text parses to.
  pub get_config_parsed :
      (st : Store) {c : ClusterConfig}
      → IsCoherent P st
      → (get_config P st).0 ≡ ok c
      → parse_spec P c.bucket_axis c.bucket_spec_raw ≡ ok c.bucket_spec
  unfolding get_config
  get_config_parsed st h e =
      (subst (Tells st.db) e (get_config-Tells st.config_cache st refl h).0).parses

  -- If the cache describes the database, then so after any history of the store's operations, and
  -- GetConfig answers by the database: a configuration that it returns has the mode, the axis, the limit
  -- and the depths of the row, the specification that its own text parses to, and that text is the
  -- row's or one of which a JSONB gives the row's back; an error that it returns is that of a load of
  -- the row. The cache that it leaves describes the database again. (The ids rise along the table at the
  -- start.)
  pub get_config-IsCoherent :
      (os : List Op) (st : Store)
      → IdsOk st.db
      → IsCoherent P st
      → Tells (run os st.db) (get_config P (record st { db = run os st.db })).0
        × IsCoherent P (get_config P (record st { db = run os st.db })).1
  unfolding get_config
  get_config-IsCoherent os st v h =
      get_config-Tells st.config_cache (record st { db = run os st.db }) refl
        (run-AgreesWith P os st.db st.config_cache v h)

  insert_stored-IsCoherent :
      (c : ClusterConfig) (stored : Option Text) (st : Store)
      → parse_spec P c.bucket_axis c.bucket_spec_raw ≡ ok c.bucket_spec
      → P.jsonb c.bucket_spec_raw ≡ stored
      → IsCoherent P st
      → IsCoherent P (insert_stored c stored st).1
  unfolding insert_stored row_of
  insert_stored-IsCoherent c none st e j h = h
  insert_stored-IsCoherent c (some t) st e j h = record {
    row = row_of c t;
    stored = refl;
    mode = refl;
    axis = refl;
    limit = refl;
    depth = refl;
    future = refl;
    text = inr j;
    parses = e;
  }

  insert_config-IsCoherent :
      (c : ClusterConfig) (r : Result Spec) (st : Store)
      → parse_spec P c.bucket_axis c.bucket_spec_raw ≡ r
      → IsCoherent P st
      → IsCoherent P (insert_config P c r st).1
  unfolding insert_config
  insert_config-IsCoherent c (err x) st e h = h
  insert_config-IsCoherent c (ok spec) st e h =
      insert_stored-IsCoherent (record c { bucket_spec = spec }) (P.jsonb c.bucket_spec_raw) st e
        refl h

  bootstrap_at-IsCoherent :
      (o : Option ConfigRow) (c : ClusterConfig) (st : Store)
      → IsCoherent P st
      → IsCoherent P (bootstrap_at P o c st).1
  unfolding bootstrap_at
  bootstrap_at-IsCoherent (some row) c st h = h
  bootstrap_at-IsCoherent none c st h =
      insert_config-IsCoherent c (parse_spec P c.bucket_axis c.bucket_spec_raw) st refl h

  -- If the cache describes the database before Bootstrap, then so after it, whether it inserts a row
  -- or fails: the mode, the axis, the limit and the depths of the cache are those of the row, its
  -- specification is what its own text parses to, and the row has that text or what a JSONB gives back
  -- of it.
  pub bootstrap-IsCoherent :
      (c : ClusterConfig) (st : Store) → IsCoherent P st → IsCoherent P (bootstrap P c st).1
  unfolding bootstrap
  bootstrap-IsCoherent c st h = bootstrap_at-IsCoherent st.db.config c st h
