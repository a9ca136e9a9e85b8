-- ===== src/Store/Reload.antt =====
-- Bootstrap of internal/store/store.go and GetConfig of a store that starts later.
use shardman.Prelude.{◌≡◌, refl, ap, ◌∙◌, Option, none, some, List}
use shardman.Prelude.Results.{Result, ok, err}
use shardman.Bucket.Platform.{Platform}
use shardman.Prelude.Text.{Text}
use shardman.Bucket.Spec.{Spec, parse_spec, IsPlain, parse_spec-raw}
use shardman.Store.Db.{Db, ConfigRow}
use shardman.Store.Machine.{Op, run}
use shardman.Store.Moves.{IdsOk}
use shardman.Store.Config.{
  ClusterConfig, Store, row_of, config_of, config_with, load_row, load_config_from_db,
  insert_stored, insert_config, bootstrap_at, bootstrap, remember, get_config_at, get_config,
}
use shardman.Store.Described.{run-load}

module _ (P : Platform) where
  -- `c` as a load finds it: with the text that the column gives back, and its specification.
  abbrev reloaded : ClusterConfig → Spec → Text → ClusterConfig
  reloaded c spec normal = record c {
    bucket_spec = record spec { raw = normal };
    bucket_spec_raw = normal;
  }

  record LoadsBack (c : ClusterConfig) (normal : Text) (d : Db) : Type 0 where
    spec : Spec
    parses : parse_spec P c.bucket_axis c.bucket_spec_raw ≡ ok spec
    loads : load_config_from_db P d ≡ ok (reloaded c spec normal)

  insert_config-LoadsBack :
      (c : ClusterConfig) (r : Result Spec) (st : Store)
      → (plain : IsPlain P c.bucket_spec_raw) → parse_spec P c.bucket_axis c.bucket_spec_raw ≡ r
      → (insert_config P c r st).0 ≡ ok tt
      → IdsOk st.db
      → LoadsBack c plain.normal (insert_config P c r st).1.db × IdsOk (insert_config P c r st).1.db
  unfolding insert_config insert_stored load_config_from_db load_row config_with config_of row_of
  insert_config-LoadsBack c (err e) st plain same done v = absurd (cc done)
  insert_config-LoadsBack c (ok spec) st plain same done v = rw plain.converts (
    record {
      spec = spec;
      parses = same;
      loads = rw (parse_spec-raw P c.bucket_axis c.bucket_spec_raw plain same) refl;
    },
    record { rising = v.rising; below = v.below },
  )

  bootstrap_at-LoadsBack :
      (row : Option ConfigRow) (c : ClusterConfig) (st : Store)
      → (plain : IsPlain P c.bucket_spec_raw) → (bootstrap_at P row c st).0 ≡ ok tt
      → IdsOk st.db
      → LoadsBack c plain.normal (bootstrap_at P row c st).1.db
        × IdsOk (bootstrap_at P row c st).1.db
  unfolding bootstrap_at
  bootstrap_at-LoadsBack (some row) c st plain done v = absurd (cc done)
  bootstrap_at-LoadsBack none c st plain done v =
      insert_config-LoadsBack c (parse_spec P c.bucket_axis c.bucket_spec_raw) st plain refl done v

  remember_result : (r : Result ClusterConfig) (st : Store) → (remember P r st).0 ≡ r
  unfolding remember
  remember_result (ok x) st = refl
  remember_result (err x) st = refl

  -- GetConfig of the store gives `c` back, with the specification that its text stands for; of the
  -- text itself it gives what the column gives back.
  pub record GivesBack (c : ClusterConfig) (normal : Text) (st : Store) : Type 0 where
    pub spec : Spec
    pub parses : parse_spec P c.bucket_axis c.bucket_spec_raw ≡ ok spec
    pub gives :
        (get_config P st).0
        ≡ ok (record c { bucket_spec = record spec { raw = normal }; bucket_spec_raw = normal })

  -- The configuration survives a restart: if the specification's text is one that a JSONB gives back
  -- with the same meaning to json.Unmarshal, and Bootstrap succeeds, then after any history of the
  -- store's operations GetConfig of a store that opens the same database with an empty cache returns the
  -- mode, the axis, the limit and the depths that were given to Bootstrap, and the specification that
  -- the given text parses to; its raw text is the one that the JSONB gives back. (The ids rise along the
  -- table at the start.)
  pub bootstrap-GivesBack :
      (c : ClusterConfig) (st st' : Store) (os : List Op) (plain : IsPlain P c.bucket_spec_raw)
      → IdsOk st.db
      → (bootstrap P c st).0 ≡ ok tt
      → st'.db ≡ run os (bootstrap P c st).1.db
      → st'.config_cache ≡ none
      → GivesBack c plain.normal st'
  unfolding bootstrap get_config get_config_at
  bootstrap-GivesBack c st st' os plain v done same empty =
      let (back, ids) = bootstrap_at-LoadsBack st.db.config c st plain done v in
      let loads =
        ap (load_config_from_db P) same ∙ run-load P os (bootstrap P c st).1.db ids ∙ back.loads in
      let fresh = ap (λ o. (get_config_at P o st').0) empty in
      record {
        spec = back.spec;
        parses = back.parses;
        gives = fresh ∙ remember_result (load_config_from_db P st'.db) st' ∙ loads;
      }
