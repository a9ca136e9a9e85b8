-- ===== src/Client/Agreement.antt =====
-- The local resolution of pkg/client/local.go against the server's, of internal/resolve/resolve.go.
use shardman.Prelude.{◌≡◌, refl, sym, ap, ◌∙◌, subst, not, Option, none, some, [], map, find, All}
use shardman.Prelude.Int.{ℤ}
use shardman.Prelude.Text.{Text}
use shardman.Prelude.Results.{Result, ok, err}
use shardman.Bucket.Platform.{Platform}
use shardman.Bucket.Spec.{parse_spec}
use shardman.Bucket.Key.{ShardKey}
use shardman.Bucket.Id.{error_bucket_id}
use shardman.Bucket.Routing.{
  RouteKind, to_bucket, to_error, RouteReason, no_reason, WriteRoute, classify_write,
}
use shardman.Store.Shard.{Shard, is_data}
use shardman.Store.Db.{Db}
use shardman.Store.Queries.{
  or_not_found, get_error_shard, active_for_bucket, is_active_for, list_stale_actives, list_shards,
}
use shardman.Store.Config.{ClusterConfig, Store, load_config_from_db, get_config}
use shardman.Store.Cache.{get_config_parsed}
use shardman.Store.Described.{IsCoherent}
use shardman.Store.Promote.{Env}
use shardman.Store.Table.{All-imp, All-zip, All-intro}
use shardman.Resolve.Active.{or_go_on, ensure_active}
use shardman.Resolve.Service.{
  WriteResult, write_result, with_result, write_to, routed, resolve_write, or_zero,
}
use shardman.Resolve.Histories.{get_config_same, configured-ok}
use shardman.Server.Topology.{
  Topology, shard_to_proto, config_to_proto, proto_config, build_topology,
}
use shardman.Client.Local.{
  find_error_shard, is_active_in, find_active_for_bucket, local_write_result, with_shard,
  write_locally, local_config, cluster_config_from_proto, classify_locally, Classify, route_locally,
  then_use, try_resolve_write_local,
}
use shardman.Client.Messages.{
  FitsInt32, with_row, IsNotStale, HasBucketIn, serves_writes, wrap32?_fits, result_same,
  find-proto, none_stale, active_same, error_same,
}

pub some_injective : {A : Type 0} {a b : A} → some a ≡ some b → a ≡ b
some_injective e = cc

-- The server answers `w`, and leaves its database alone.
abbrev pub Answers : WriteResult → Db → Result WriteResult × Store → Type 0
Answers w d r = (r.0 ≡ ok w) × (r.1.db ≡ d)

found_same :
    (kind : RouteKind) (b : Text) (why : RouteReason) (o : Option Shard) (st : Store)
    {w : WriteResult}
    → with_shard (local_write_result kind b why) (with_row o) ≡ some w
    → Answers w st.db (with_result (write_result kind b why) (or_not_found o, st.db) st)
unfolding with_result or_not_found
found_same kind b why none st e = absurd (cc e)
found_same kind b why (some s) st e =
    (ap (λ (x : WriteResult). ok x) (sym (result_same kind b why s) ∙ some_injective e), refl)

ensure_active-found :
    (env : Env) (b : Text) (d : Db) {s : Shard}
    → active_for_bucket env.now env.timeout b d ≡ ok s
    → ensure_active env b d ≡ (ok s, d)
unfolding ensure_active or_go_on
ensure_active-found env b d e = rw e refl

bucket_agrees :
    (env : Env) (b : Text) (st : Store) (o : Option Shard) {w : WriteResult}
    → find (is_active_for env.now env.timeout b) st.db.shards ≡ o
    → with_shard (local_write_result to_bucket b no_reason) (with_row o) ≡ some w
    → Answers w st.db
        (with_result (write_result to_bucket b no_reason) (ensure_active env b st.db) st)
unfolding active_for_bucket or_not_found
bucket_agrees env b st none e h = absurd (cc h)
bucket_agrees env b st (some s) e h =
    rw (ensure_active-found env b st.db {s = s} (rw e refl))
      (found_same to_bucket b no_reason (some s) st h)

-- A store whose active data shards are in order for a client: they have a bucket, and no heartbeat
-- is stale.
abbrev pub IsServing : Env → Db → Type 0
IsServing env d =
    All (HasBucketIn serves_writes) d.shards × (list_stale_actives env.now env.timeout d ≡ [])

route_agrees :
    (env : Env) (kind : RouteKind) (route : WriteRoute) (topo : Topology) (st : Store)
    {w : WriteResult}
    → route.kind ≡ kind
    → topo.shards ≡ map shard_to_proto st.db.shards
    → IsServing env st.db
    → write_locally topo route ≡ some w
    → Answers w st.db (write_to env route st)
unfolding write_locally write_to find_error_shard find_active_for_bucket get_error_shard
route_agrees env to_error route topo st {w} e shards serving h =
    let local = rw e at h in
    let all_same =
      All-intro (λ s. not (is_data (shard_to_proto s).role) ≡ not (is_data s.role)) st.db.shards
        error_same in
    let found =
      find-proto (λ sh. not (is_data sh.role)) (λ s. not (is_data s.role)) st.db.shards all_same in
    rw e (
      found_same to_error error_bucket_id route.reason
        (find (λ s. not (is_data s.role)) st.db.shards) st
        (subst
          (λ o. with_shard (local_write_result to_error error_bucket_id route.reason) o ≡ some w)
          (ap (find (λ sh. not (is_data sh.role))) shards ∙ found) local))
route_agrees env to_bucket route topo st {w} e shards serving h =
    let local = rw e at h in
    let found =
      find-proto (is_active_in route.bucket) (is_active_for env.now env.timeout route.bucket)
        st.db.shards
        (All-imp (λ s. HasBucketIn serves_writes s × IsNotStale env s) _ st.db.shards
          (λ s k. active_same env route.bucket s s.bucket_id refl k.0 k.1)
          (All-zip (HasBucketIn serves_writes) (IsNotStale env) st.db.shards serving.0
            (none_stale env st.db serving.1))) in
    rw e (
      bucket_agrees env route.bucket st
        (find (is_active_for env.now env.timeout route.bucket) st.db.shards) refl
        (subst (λ o. with_shard (local_write_result to_bucket route.bucket no_reason) o ≡ some w)
          (ap (find (is_active_in route.bucket)) shards ∙ found) local))

-- The route that a classification gives, if any.
abbrev pub as_route : Result WriteRoute → Option WriteRoute
as_route (ok route) = some route
as_route (err e) = none

module _ (P : Platform) where
  pub local_route :
      (classify : Classify P) (clock : ℤ) (key : ShardKey P) (c : ClusterConfig)
      → parse_spec P c.bucket_axis c.bucket_spec_raw ≡ ok c.bucket_spec
      → FitsInt32 c.retention_depth
      → FitsInt32 c.max_future_buckets
      → route_locally P classify clock key (some (config_to_proto c))
        ≡ as_route (
            classify c.bucket_spec clock key
              (or_zero c.retention_depth)
              (or_zero c.max_future_buckets))
  unfolding route_locally cluster_config_from_proto local_config config_to_proto classify_locally
  local_route classify clock key c e depth future =
      rw (e, wrap32?_fits c.retention_depth depth, wrap32?_fits c.max_future_buckets future) refl

  routed_agrees :
      (env : Env) (r : Result WriteRoute) (topo : Topology) (st : Store) {w : WriteResult}
      → topo.shards ≡ map shard_to_proto st.db.shards
      → IsServing env st.db
      → then_use P (write_locally topo) (as_route r) ≡ some w
      → Answers w st.db (routed P (write_to env) r st)
  unfolding then_use routed
  routed_agrees env (err x) topo st shards serving h = absurd (cc h)
  routed_agrees env (ok route) topo st shards serving h =
      route_agrees env route.kind route topo st refl shards serving h

  -- Take a topology as the server builds it from a store whose cached configuration describes the
  -- database, whose GetConfig succeeds and whose depths fit into an int32, where every active data shard
  -- has a bucket and none of these has a stale heartbeat. If the client resolves a write from it locally, then at the same clock the
  -- server would return the very same answer, and would change nothing in the database to do so.
  pub try_resolve_write_local-resolve_write :
      (env : Env) (clock : ℤ) (key : ShardKey P) (st : Store) {c : ClusterConfig} {w : WriteResult}
      → IsCoherent P st
      → (get_config P st).0 ≡ ok c
      → FitsInt32 c.retention_depth
      → FitsInt32 c.max_future_buckets
      → IsServing env st.db
      → try_resolve_write_local P clock key (build_topology P st).0 ≡ some w
      → Answers w st.db (resolve_write P env clock key st)
  unfolding try_resolve_write_local build_topology proto_config resolve_write list_shards
      load_config_from_db get_config
  try_resolve_write_local-resolve_write env clock key st {c} {w} coherent e depth future serving h =
      let same = get_config_same P st.config_cache st in
      let spec = get_config_parsed P st coherent e in
      let route =
        ap
          (λ (r : Result ClusterConfig).
            route_locally P (classify_write P) clock key (proto_config r))
          e
        ∙ local_route (classify_write P) clock key c spec depth future in
      let local =
        subst (λ o. then_use P (write_locally (build_topology P st).0) o ≡ some w) route h in
      let served = subst (IsServing env) (sym same) serving in
      let answers =
        routed_agrees env
          (classify_write P c.bucket_spec clock key (or_zero c.retention_depth)
            (or_zero c.max_future_buckets))
          (build_topology P st).0 (get_config P st).1 refl served local in
      subst (λ d. Answers w d (resolve_write P env clock key st)) same
        (subst (Answers w (get_config P st).1.db)
          (sym (configured-ok P _ (get_config P st).0 (get_config P st).1 e)) answers)
