-- ===== src/Store/Described.antt =====
-- What a configuration tells of the row in the database, and what the operations of the store leave of
-- that (ClusterConfig and loadConfigFromDB of internal/store/store.go).
use shardman.Prelude.{◌+◌, ◌≡◌, refl, ap, ◌∙◌, ◌⊎◌, inl, inr, Option, none, some, List, [], ◌∷◌}
use shardman.Prelude.Results.{Result, ok, err}
use shardman.Bucket.Platform.{Platform}
use shardman.Bucket.Spec.{Spec, parse_spec}
use shardman.Store.Db.{Db, ConfigRow, bump_config}
use shardman.Store.Machine.{Op, apply, run}
use shardman.Store.Moves.{IdsOk}
use shardman.Store.Conformance.{apply-Change}
use shardman.Store.Config.{
  ClusterConfig, Store, config_of, config_with, load_row, load_config_from_db,
}

module _ (P : Platform) where
  -- A configuration describes what the database holds: every column but the specification is its
  -- field, its specification is what its own text parses to, and the column of the specification holds
  -- that text or what a JSONB gives back of it.
  pub record Describes (c : ClusterConfig) (d : Db) : Type 0 where
    pub row : ConfigRow
    pub stored : d.config ≡ some row
    pub mode : row.mode ≡ c.mode
    pub axis : row.bucket_axis ≡ c.bucket_axis
    pub limit : row.shard_max_bytes ≡ c.shard_max_bytes
    pub depth : row.retention_depth ≡ c.retention_depth
    pub future : row.max_future_buckets ≡ c.max_future_buckets
    pub text :
        (row.bucket_spec ≡ c.bucket_spec_raw) ⊎ (P.jsonb c.bucket_spec_raw ≡ some row.bucket_spec)
    pub parses : parse_spec P c.bucket_axis c.bucket_spec_raw ≡ ok c.bucket_spec

  -- What the cache holds, if it holds anything, describes the database.
  abbrev pub AgreesWith : Db → Option ClusterConfig → Type 0
  AgreesWith d none = Unit {0}
  AgreesWith d (some c) = Describes c d

  abbrev pub IsCoherent : Store → Type 0
  IsCoherent st = AgreesWith st.db st.config_cache

  Describes-config :
      (c : ClusterConfig) (d d' : Db) → d'.config ≡ d.config → Describes c d → Describes c d'
  Describes-config c d d' e h = record {
    row = h.row;
    stored = e ∙ h.stored;
    mode = h.mode;
    axis = h.axis;
    limit = h.limit;
    depth = h.depth;
    future = h.future;
    text = h.text;
    parses = h.parses;
  }

  -- No field is the topology version.
  Describes-bump :
      (c : ClusterConfig) (d d' : Db)
      → d'.config ≡ bump_config d.config
      → Describes c d
      → Describes c d'
  unfolding bump_config
  Describes-bump c d d' e h = record {
    row = record h.row { topology_version = h.row.topology_version + 1 };
    stored = e ∙ ap bump_config h.stored;
    mode = h.mode;
    axis = h.axis;
    limit = h.limit;
    depth = h.depth;
    future = h.future;
    text = h.text;
    parses = h.parses;
  }

  apply-Describes :
      (o : Op) (c : ClusterConfig) (d : Db) → IdsOk d → Describes c d → Describes c (apply o d)
  apply-Describes o c d v h = elim (apply-Change o d v).version [
    | inl (routes, same) ↦ Describes-config c d (apply o d) same h
    | inr bumped ↦ Describes-bump c d (apply o d) bumped h
  ]

  run-Describes :
      (os : List Op) (c : ClusterConfig) (d : Db) → IdsOk d → Describes c d → Describes c (run os d)
  unfolding run
  run-Describes [] c d v h = h
  run-Describes (o ∷ os) c d v h =
      run-Describes os c (apply o d) (apply-Change o d v).ids (apply-Describes o c d v h)

  pub run-AgreesWith :
      (os : List Op) (d : Db) (cache : Option ClusterConfig)
      → IdsOk d
      → AgreesWith d cache
      → AgreesWith (run os d) cache
  run-AgreesWith os d none v h = tt
  run-AgreesWith os d (some c) v h = run-Describes os c d v h

  -- A load does not read the topology version.
  config_with-bump :
      (r : ConfigRow) (spec : Result Spec)
      → config_with P (record r { topology_version = r.topology_version + 1 }) spec
        ≡ config_with P r spec
  unfolding config_with config_of
  config_with-bump r (ok spec) = refl
  config_with-bump r (err e) = refl

  load_row-bump : (o : Option ConfigRow) → load_row P (bump_config o) ≡ load_row P o
  unfolding load_row bump_config
  load_row-bump none = refl
  load_row-bump (some r) = config_with-bump r (parse_spec P r.bucket_axis r.bucket_spec)

  apply-load :
      (o : Op) (d : Db) → IdsOk d → load_config_from_db P (apply o d) ≡ load_config_from_db P d
  unfolding load_config_from_db
  apply-load o d v = elim (apply-Change o d v).version [
    | inl (routes, same) ↦ ap (load_row P) same
    | inr bumped ↦ ap (load_row P) bumped ∙ load_row-bump d.config
  ]

  pub run-load :
      (os : List Op) (d : Db) → IdsOk d → load_config_from_db P (run os d) ≡ load_config_from_db P d
  unfolding run
  run-load [] d v = refl
  run-load (o ∷ os) d v = run-load os (apply o d) (apply-Change o d v).ids ∙ apply-load o d v
