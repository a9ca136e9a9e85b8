-- ===== src/Resolve/Histories.antt =====
-- ResolveWrite and ResolveRead of internal/resolve/resolve.go as histories of the database.
use shardman.Prelude.{◌≡◌, refl, subst, Option, none, some, List, [], ◌∷◌}
use shardman.Prelude.Int.{ℤ}
use shardman.Prelude.Text.{Text}
use shardman.Prelude.Results.{Result, ok, err}
use shardman.Bucket.Platform.{Platform}
use shardman.Bucket.Key.{ShardKey}
use shardman.Bucket.Routing.{
  RouteKind, to_bucket, to_error, RouteReason, no_reason, evicted, future_disallowed,
  future_too_far, invalid_key, WriteRoute,
}
use shardman.Store.Shard.{Shard}
use shardman.Store.Db.{Db}
use shardman.Store.Queries.{get_error_shard}
use shardman.Store.Promote.{Env}
use shardman.Store.Config.{
  ClusterConfig, Store, remember, get_config_at, get_config, load_config_from_db,
}
use shardman.Store.History.{History, History-refl}
use shardman.Resolve.Active.{ensure_active}
use shardman.Resolve.Service.{
  ReadResult, with_result, write_to, read_error, read_bucket, read_from, routed, configured,
  resolve_write, resolve_read,
}
use shardman.Resolve.Serving.{ensure_active-History}

-- The database of a store grows by a history, and its cache stays.
abbrev Grows : {A : Type 0} → Store → Result A × Store → Type 0
Grows st r = History st.db r.1.db × (r.1.config_cache ≡ st.config_cache)

with_result-Grows :
    {A B : Type 0} (f : A → B) (r : Result A × Db) (st : Store)
    → History st.db r.1
    → Grows st (with_result f r st)
unfolding with_result
with_result-Grows f (ok a, d) st h = (h, refl)
with_result-Grows f (err e, d) st h = (h, refl)

write_to-Grows :
    (env : Env) (kind : RouteKind) (route : WriteRoute) (st : Store)
    → route.kind ≡ kind
    → Grows st (write_to env route st)
unfolding write_to
write_to-Grows env to_error route st e =
    rw e (with_result-Grows _ (get_error_shard st.db, st.db) st (History-refl st.db))
write_to-Grows env to_bucket route st e = rw e (
    with_result-Grows _ (ensure_active env route.bucket st.db) st
      (ensure_active-History env route.bucket st.db))

error-Grows :
    (f : Shard → ReadResult) (st : Store)
    → Grows st (with_result f (get_error_shard st.db, st.db) st)
error-Grows f st = with_result-Grows f (get_error_shard st.db, st.db) st (History-refl st.db)

read_error-Grows : (reason : RouteReason) (st : Store) → Grows st (read_error reason st)
unfolding read_error
read_error-Grows evicted st = (History-refl st.db, refl)
read_error-Grows no_reason st = error-Grows _ st
read_error-Grows future_disallowed st = error-Grows _ st
read_error-Grows future_too_far st = error-Grows _ st
read_error-Grows invalid_key st = error-Grows _ st

read_bucket-Grows :
    (env : Env) (b : Text) (rows : List Shard) (st : Store) → Grows st (read_bucket env b rows st)
unfolding read_bucket
read_bucket-Grows env b [] st =
    with_result-Grows _ (ensure_active env b st.db) st (ensure_active-History env b st.db)
read_bucket-Grows env b (s ∷ rows) st = (History-refl st.db, refl)

read_from-Grows :
    (env : Env) (kind : RouteKind) (route : WriteRoute) (st : Store)
    → route.kind ≡ kind
    → Grows st (read_from env route st)
unfolding read_from
read_from-Grows env to_error route st e = rw e (read_error-Grows route.reason st)
read_from-Grows env to_bucket route st e = rw e (read_bucket-Grows env route.bucket _ st)

module _ (P : Platform) where
  routed-Grows :
      {A : Type 0} (use_route : WriteRoute → Store → Result A × Store) (r : Result WriteRoute)
      (st : Store)
      → ((route : WriteRoute) (st : Store) → Grows st (use_route route st))
      → Grows st (routed P use_route r st)
  unfolding routed
  routed-Grows use_route (ok r) st h = h r st
  routed-Grows use_route (err e) st h = (History-refl st.db, refl)

  remember_same : (r : Result ClusterConfig) (st : Store) → (remember P r st).1.db ≡ st.db
  unfolding remember
  remember_same (ok c) st = refl
  remember_same (err e) st = refl

  pub get_config_same :
      (cache : Option ClusterConfig) (st : Store) → (get_config_at P cache st).1.db ≡ st.db
  unfolding get_config_at
  get_config_same (some c) st = refl
  get_config_same none st = remember_same (load_config_from_db P st.db) st

  pub configured-ok :
      {A : Type 0} (use_config : ClusterConfig → Store → Result A × Store)
      (r : Result ClusterConfig) (st : Store) {c : ClusterConfig}
      → r ≡ ok c
      → configured P use_config (r, st) ≡ use_config c st
  unfolding configured
  configured-ok use_config r st e = rw e refl

  configured-Grows :
      {A : Type 0} (use_config : ClusterConfig → Store → Result A × Store)
      (r : Result ClusterConfig × Store)
      → ((c : ClusterConfig) (st : Store) → Grows st (use_config c st))
      → Grows r.1 (configured P use_config r)
  unfolding configured
  configured-Grows use_config (ok c, st) h = h c st
  configured-Grows use_config (err e, st) h = (History-refl st.db, refl)

  -- What a resolution leaves: a history of the database, and the cache that GetConfig leaves.
  abbrev pub Resolves : {A : Type 0} → Store → Result A × Store → Type 0
  Resolves st r = History st.db r.1.db × (r.1.config_cache ≡ (get_config P st).1.config_cache)

  -- Reading the configuration first leaves the database alone.
  configured-Resolves :
      {A : Type 0} (use_config : ClusterConfig → Store → Result A × Store) (st : Store)
      → ((c : ClusterConfig) (st : Store) → Grows st (use_config c st))
      → Resolves st (configured P use_config (get_config P st))
  unfolding get_config
  configured-Resolves use_config st h =
      let (grown, same) = configured-Grows use_config (get_config P st) h in
      (
        subst (λ d. History d (configured P use_config (get_config P st)).1.db)
            (get_config_same st.config_cache st) grown,
        same,
      )

  pub resolve_write-Resolves :
      (env : Env) (clock : ℤ) (key : ShardKey P) (st : Store)
      → Resolves st (resolve_write P env clock key st)
  unfolding resolve_write
  resolve_write-Resolves env clock key st = configured-Resolves _ st (λ c st.
      routed-Grows (write_to env) _ st (λ route st. write_to-Grows env route.kind route st refl))

  pub resolve_read-Resolves :
      (env : Env) (clock : ℤ) (key : ShardKey P) (st : Store)
      → Resolves st (resolve_read P env clock key st)
  unfolding resolve_read
  resolve_read-Resolves env clock key st = configured-Resolves _ st (λ c st.
      routed-Grows (read_from env) _ st (λ route st. read_from-Grows env route.kind route st refl))
