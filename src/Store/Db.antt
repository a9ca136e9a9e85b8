-- ===== src/Store/Db.antt =====
-- The metadata database, its constraints (internal/store/migrations), and transactions: a
-- transaction runs alone from begin to commit, and an error rolls it back.
use shardman.Prelude.{
  ℕ, ◌+◌, Bool, true, false, not, ◌&&◌, ◌||◌, Option, none, some, List, [], ◌∷◌, map, if◌then◌else◌,
  any, all, find, count,
}
use shardman.Prelude.Int.{ℤ}
use shardman.Prelude.Text.{Text}
use shardman.Prelude.Results.{Result, ok, err, Error, not_found, constraint_violation}
use shardman.Bucket.Spec.{Axis}
use shardman.Bucket.Routing.{Mode}
use shardman.Fsm.{State, active, other, state_eq}
use shardman.Store.Shard.{Shard, is_data, in_bucket}

-- The one row of `cluster_config`.
pub record ConfigRow : Type 0 where
  pub mode : Mode
  pub bucket_axis : Axis
  pub bucket_spec : Text
  pub shard_max_bytes : ℤ
  pub retention_depth : Option ℤ
  pub max_future_buckets : Option ℤ
  pub topology_version : ℕ

-- A row of `shard_events`.
pub record Event : Type 0 where
  pub shard_id : ℕ
  pub bucket_id : Text
  pub event_type : Text

-- The rows of `shards` stand in the order of their ids: rows are only added, with the next id of
-- the sequence, and never deleted. So a scan of the list is ORDER BY id.
pub record Db : Type 0 where
  pub config : Option ConfigRow
  pub shards : List Shard
  pub next_id : ℕ
  pub events : List Event

-- The index shards_one_active_per_bucket, at one row and the rows after it.
unfoldable pub clashes_active : Shard → Shard → Bool
clashes_active s t = elim s.bucket_id [
  | none ↦ false
  | some b ↦ is_data s.role && state_eq s.state active && in_bucket b active t
]

unfoldable pub one_active_per_bucket : List Shard → Bool
one_active_per_bucket [] = true
one_active_per_bucket (s ∷ rest) = not (any (clashes_active s) rest) && one_active_per_bucket rest

-- The index shards_one_error.
unfoldable pub one_error : List Shard → Bool
one_error [] = true
one_error (s ∷ rest) =
    (is_data s.role || not (any (λ t. not (is_data t.role)) rest)) && one_error rest

-- The check shards_state_check of migration 002.
unfoldable pub known_state : State → Bool
known_state (other s) = false
known_state _ = true

-- What the migrations constrain. (A uuid is unique by the conflict clause of the one INSERT.)
unfoldable pub constraints_ok : List Shard → Bool
constraints_ok rows =
    one_active_per_bucket rows && one_error rows && all (λ s. known_state s.state) rows

abbrev pub Tx : Type 0 → Type 0
Tx A = Db → Result (A × Db)

infixl 5 ◌>>=◌ ◌>>◌
abbrev pub ◌>>=◌ : {A B : Type 0} → Tx A → (A → Tx B) → Tx B
◌>>=◌ m f d = elim (m d) [ ok (a, d') ↦ f a d' | err e ↦ err e ]

abbrev pub ◌>>◌ : {A B : Type 0} → Tx A → Tx B → Tx B
m >> k = m >>= λ _. k

abbrev pub return : {A : Type 0} → A → Tx A
return a d = ok (a, d)

abbrev pub throw : {A : Type 0} → Error → Tx A
throw e d = err e

-- Begin, the statements, and commit; on an error the deferred rollback restores the database.
abbrev pub commit : {A : Type 0} → Tx A → Db → Result A × Db
commit m d = elim (m d) [ ok (a, d') ↦ (ok a, d') | err e ↦ (err e, d) ]

-- UPDATE shards SET f WHERE p
unfoldable pub update_where : (Shard → Bool) → (Shard → Shard) → List Shard → List Shard
update_where p f = map (λ s. if p s then f s else s)

-- The statement, with the number of rows that it affected.
unfoldable pub update : (Shard → Bool) → (Shard → Shard) → Tx ℕ
update p f d =
    let rows = update_where p f d.shards in
    if constraints_ok rows
    then ok (count p d.shards, record d { shards = rows })
    else err constraint_violation

-- SELECT … WHERE p, the first row; `pgx.ErrNoRows` is turned into `ErrNotFound` by every caller.
unfoldable pub select_row : (Shard → Bool) → Tx Shard
select_row p d = elim (find p d.shards) [ some s ↦ ok (s, d) | none ↦ err not_found ]

-- The same where the caller goes on without a row.
unfoldable pub select_row? : (Shard → Bool) → Tx (Option Shard)
select_row? p d = ok (find p d.shards, d)

-- func bumpTopologyVersionTx; with no row it updates nothing.
unfoldable pub bump_config : Option ConfigRow → Option ConfigRow
bump_config none = none
bump_config (some c) = some (record c { topology_version = c.topology_version + 1 })

unfoldable pub bump_topology_version : Tx (Unit {0})
unfolding bump_config
bump_topology_version d = ok (tt, record d { config = bump_config d.config })

-- INSERT INTO shard_events
unfoldable pub insert_event : Event → Tx (Unit {0})
insert_event e d = ok (tt, record d { events = e ∷ d.events })
