-- ===== src/Store/Moves.antt =====
-- What one transaction of internal/store/store.go may do to a row, and to the database: the
-- specification that Store/Changes.antt proves of every transaction.
use shardman.Prelude.{◌<◌, ◌≡◌, refl, ◌⊎◌, inl, Bool, true, none, some, All, arith}
use shardman.Prelude.Text.{Text}
use shardman.Fsm.{
  State, data_role, error_role, standby, active, draining, sealed, cleaning, can_transition,
}
use shardman.Store.Shard.{Shard}
use shardman.Store.Db.{Db, bump_config}
use shardman.Store.Table.{Increasing, Evolves, Evolves-refl}

-- What never changes in a row.
pub record SameId (s t : Shard) : Type 0 where
  pub same_id : t.id ≡ s.id
  pub same_uuid : t.shard_uuid ≡ s.shard_uuid
  pub same_role : t.role ≡ s.role

-- The row stands for the same place in the cluster: bucket and state.
pub record SamePlace (s t : Shard) : Type 0 where
  pub same : SameId s t
  pub open same use *
  pub same_bucket : t.bucket_id ≡ s.bucket_id
  pub same_state : t.state ≡ s.state

-- A client routes to the row as before.
pub record SameRoute (s t : Shard) : Type 0 where
  pub place : SamePlace s t
  pub open place use *
  pub same_dsn : t.dsn ≡ s.dsn
  pub same_url : t.advertise_url ≡ s.advertise_url

-- A data shard goes from one state to another, and its bucket stays.
pub record Moves (source target : State) (s t : Shard) : Type 0 where
  pub same : SameId s t
  pub open same use *
  pub is_data_shard : s.role ≡ data_role
  pub from_state : s.state ≡ source
  pub to_state : t.state ≡ target
  pub same_bucket : t.bucket_id ≡ s.bucket_id

pub record Promotes (b : Text) (s t : Shard) : Type 0 where
  pub same : SameId s t
  pub open same use *
  pub is_data_shard : s.role ≡ data_role
  pub from_state : s.state ≡ standby
  pub to_state : t.state ≡ active
  pub was_free : s.bucket_id ≡ none
  pub to_bucket : t.bucket_id ≡ some b

pub record Recycles (s t : Shard) : Type 0 where
  pub same : SameId s t
  pub open same use *
  pub from_state : s.state ≡ cleaning
  pub to_state : t.state ≡ standby
  pub is_free : t.bucket_id ≡ none

-- PatchState, which looks at the table of fsm.go alone.
pub record Patches (s t : Shard) : Type 0 where
  pub same : SameId s t
  pub open same use *
  pub allowed : can_transition s.role s.state t.state ≡ true
  pub same_bucket : t.bucket_id ≡ s.bucket_id

-- `admin` tells whether PatchState is among the moves.
pub data RowStep (admin : Bool) (s t : Shard) : Type 0 where
  keeps : SameRoute s t → RowStep admin s t
  readdresses : SamePlace s t → RowStep admin s t
  promotes : (b : Text) → Promotes b s t → RowStep admin s t
  drains : Moves active draining s t → RowStep admin s t
  seals : Moves active sealed s t → RowStep admin s t
  seals_drained : Moves draining sealed s t → RowStep admin s t
  cleans : Moves sealed cleaning s t → RowStep admin s t
  recycles : Recycles s t → RowStep admin s t
  patches : admin ≡ true → Patches s t → RowStep admin s t

-- A registered row: a free standby, or the error shard.
pub record NewRow (s : Shard) : Type 0 where
  pub unassigned : s.bucket_id ≡ none
  pub starts :
      ((s.role ≡ data_role) × (s.state ≡ standby)) ⊎ ((s.role ≡ error_role) × (s.state ≡ active))

-- The ids are those of the sequence: rising along the table, and below the next one.
pub record IdsOk (d : Db) : Type 0 where
  pub rising : Increasing 0 d.shards
  pub below : All (λ s. s.id < d.next_id) d.shards

-- No row is new.
abbrev pub NoRow : Shard → Type 0
NoRow s = ⊥

pub record Change (admin : Bool) (d d' : Db) : Type 0 where
  pub rows : Evolves (RowStep admin) NewRow d.shards d'.shards
  pub version :
      (Evolves SameRoute NoRow d.shards d'.shards × (d'.config ≡ d.config))
      ⊎ (d'.config ≡ bump_config d.config)
  pub ids : IdsOk d'

pub SameRoute-refl : (s : Shard) → SameRoute s s
SameRoute-refl s = ground arith

pub RowStep-refl : (admin : Bool) (s : Shard) → RowStep admin s s
RowStep-refl admin s = keeps (SameRoute-refl s)

pub Change-refl : (admin : Bool) (d : Db) → IdsOk d → Change admin d d
Change-refl admin d ids = record {
  rows = Evolves-refl (RowStep admin) NewRow d.shards (RowStep-refl admin);
  version = inl (Evolves-refl SameRoute NoRow d.shards SameRoute-refl, refl);
  ids = ids;
}
