-- ===== src/Client/Reads.antt =====
-- tryResolveReadLocal of pkg/client/local.go against ResolveRead of internal/resolve/resolve.go.
use shardman.Prelude.{
  ◌≡◌, refl, sym, ap, ◌∙◌, subst, Bool, not, inl, inr, Option, none, some, List, [], ◌∷◌, map, find,
  filter, All, arith, Bool-cases,
}
use shardman.Prelude.Int.{ℤ}
use shardman.Prelude.Text.{Text}
use shardman.Prelude.Results.{Result, ok, err}
use shardman.Bucket.Platform.{Platform}
use shardman.Bucket.Key.{ShardKey}
use shardman.Bucket.Id.{error_bucket_id}
use shardman.Bucket.Routing.{
  RouteKind, to_bucket, to_error, RouteReason, no_reason, evicted, future_disallowed,
  future_too_far, invalid_key, WriteRoute, classify_read,
}
use shardman.Fsm.{state_eq}
use shardman.Store.Shard.{Shard, is_data, bucket_is}
use shardman.Store.Db.{Db}
use shardman.Store.Queries.{
  or_not_found, get_error_shard, is_readable, shards_for_bucket_read, has_bucket, list_shards,
  list_stale_actives,
}
use shardman.Store.Config.{ClusterConfig, Store, load_config_from_db, get_config}
use shardman.Store.Cache.{get_config_parsed}
use shardman.Store.Described.{IsCoherent}
use shardman.Store.Promote.{Env}
use shardman.Store.Table.{All-imp, All-zip, All-intro}
use shardman.Resolve.Service.{
  ReadResult, ReadShard, read_shard, read_result, with_result, read_error, read_bucket, read_from,
  routed, resolve_read, or_zero,
}
use shardman.Resolve.Histories.{get_config_same, configured-ok}
use shardman.Server.Topology.{
  ProtoShard, Topology, text_or_empty, shard_to_proto, proto_config, build_topology,
}
use shardman.Client.Local.{
  find_error_shard, is_readable_in, shards_for_read, local_read_shard, with_shard,
  read_error_locally, read_matches, read_locally, route_locally, then_use, try_resolve_read_local,
}
use shardman.Client.Messages.{
  FitsInt32, with_row, IsNotStale, HasBucketIn, serves_reads, endpoint_same, find-proto, none_stale,
  error_same,
}
use shardman.Client.Agreement.{as_route, some_injective, local_route}

read_shard_same : (s : Shard) → local_read_shard (shard_to_proto s) ≡ read_shard s
unfolding local_read_shard read_shard shard_to_proto
read_shard_same s =
    ap (λ (t : Text). record (read_shard s) { endpoint_of = t })
      (endpoint_same s s.advertise_url refl)

read_shards_same :
    (xs : List Shard) → map local_read_shard (map shard_to_proto xs) ≡ map read_shard xs
read_shards_same [] = refl
read_shards_same (s ∷ xs) = rw (read_shard_same s, read_shards_same xs) refl

filter-proto :
    (p : ProtoShard → Bool) (q : Shard → Bool) (xs : List Shard)
    → All (λ s. p (shard_to_proto s) ≡ q s) xs
    → filter p (map shard_to_proto xs) ≡ map shard_to_proto (filter q xs)
unfolding filter
filter-proto p q [] h = refl
filter-proto p q (s ∷ xs) h = elim (Bool-cases (q s)) [
  | inl t ↦ rw (h.0, t, filter-proto p q xs h.1) refl
  | inr f ↦ rw (h.0, f) (filter-proto p q xs h.1)
]

readable_same :
    (env : Env) (b : Text) (s : Shard) (bucket : Option Text)
    → s.bucket_id ≡ bucket
    → HasBucketIn serves_reads s
    → IsNotStale env s
    → is_readable_in b (shard_to_proto s) ≡ is_readable env.now env.timeout b s
unfolding is_readable_in shard_to_proto text_or_empty is_readable bucket_is HasBucketIn serves_reads
    IsNotStale has_bucket state_eq
readable_same env b s none e placed fresh = ground arith
readable_same env b s (some c) e placed fresh = ground arith

-- The server answers `w`, and leaves its database alone.
abbrev pub AnswersRead : ReadResult → Db → Result ReadResult × Store → Type 0
AnswersRead w d r = (r.0 ≡ ok w) × (r.1.db ≡ d)

matches_agree :
    (env : Env) (b : Text) (rows : List Shard) (st : Store) {w : ReadResult}
    → read_matches b (map shard_to_proto rows) ≡ some w
    → AnswersRead w st.db (read_bucket env b rows st)
unfolding read_matches read_bucket read_result
matches_agree env b [] st h = absurd (cc h)
matches_agree env b (s ∷ rows) st h = (
  ap (λ (x : ReadResult). ok x)
      (ap (λ (xs : List ReadShard). record (read_result b (s ∷ rows)) { shards = xs })
          (sym (read_shards_same (s ∷ rows)))
        ∙ some_injective h),
  refl,
)

abbrev error_result : RouteReason → ReadShard → ReadResult
error_result why s = record {
  routing = to_error;
  bucket_id = error_bucket_id;
  reason = why;
  shards = s ∷ [];
}

error_agrees :
    (why : RouteReason) (o : Option Shard) (st : Store) {w : ReadResult}
    → with_shard (λ sh. error_result why (local_read_shard sh)) (with_row o) ≡ some w
    → AnswersRead w st.db
        (with_result (λ s. error_result why (read_shard s)) (or_not_found o, st.db) st)
unfolding with_result or_not_found
error_agrees why none st e = absurd (cc e)
error_agrees why (some s) st e = (
  ap (λ (x : ReadResult). ok x)
      (ap (error_result why) (sym (read_shard_same s)) ∙ some_injective e),
  refl,
)

-- The search for the error shard, for any reason but `evicted`.
error_search :
    (why : RouteReason) (topo : Topology) (st : Store) {w : ReadResult}
    → topo.shards ≡ map shard_to_proto st.db.shards
    → with_shard (λ sh. error_result why (local_read_shard sh)) (find_error_shard topo.shards)
      ≡ some w
    → AnswersRead w st.db
        (with_result (λ s. error_result why (read_shard s)) (get_error_shard st.db, st.db) st)
unfolding find_error_shard get_error_shard
error_search why topo st {w} shards h =
    let found =
      find-proto (λ sh. not (is_data sh.role)) (λ s. not (is_data s.role)) st.db.shards
        (All-intro (λ s. not (is_data (shard_to_proto s).role) ≡ not (is_data s.role)) st.db.shards
          error_same) in
    error_agrees why (find (λ s. not (is_data s.role)) st.db.shards) st (
      subst (λ o. with_shard (λ sh. error_result why (local_read_shard sh)) o ≡ some w)
        (ap (find (λ sh. not (is_data sh.role))) shards ∙ found) h)

errors_agree :
    (why : RouteReason) (topo : Topology) (st : Store) {w : ReadResult}
    → topo.shards ≡ map shard_to_proto st.db.shards
    → read_error_locally topo why ≡ some w
    → AnswersRead w st.db (read_error why st)
unfolding read_error_locally read_error
errors_agree evicted topo st shards h = (ap (λ (x : ReadResult). ok x) (some_injective h), refl)
errors_agree no_reason topo st shards h = error_search no_reason topo st shards h
errors_agree future_disallowed topo st shards h = error_search future_disallowed topo st shards h
errors_agree future_too_far topo st shards h = error_search future_too_far topo st shards h
errors_agree invalid_key topo st shards h = error_search invalid_key topo st shards h

-- A store whose active and sealed data shards have a bucket, and where no heartbeat of an active
-- data shard is stale.
abbrev pub IsServingReads : Env → Db → Type 0
IsServingReads env d =
    All (HasBucketIn serves_reads) d.shards × (list_stale_actives env.now env.timeout d ≡ [])

read_route_agrees :
    (env : Env) (kind : RouteKind) (route : WriteRoute) (topo : Topology) (st : Store)
    {w : ReadResult}
    → route.kind ≡ kind
    → topo.shards ≡ map shard_to_proto st.db.shards
    → IsServingReads env st.db
    → read_locally topo route ≡ some w
    → AnswersRead w st.db (read_from env route st)
unfolding read_locally read_from shards_for_read shards_for_bucket_read
read_route_agrees env to_error route topo st e shards serving h =
    rw e (errors_agree route.reason topo st shards (rw e at h))
read_route_agrees env to_bucket route topo st {w} e shards serving h =
    let local = rw e at h in
    let rows = filter (is_readable env.now env.timeout route.bucket) st.db.shards in
    let found =
      filter-proto (is_readable_in route.bucket) (is_readable env.now env.timeout route.bucket)
        st.db.shards
        (All-imp (λ s. HasBucketIn serves_reads s × IsNotStale env s) _ st.db.shards
          (λ s k. readable_same env route.bucket s s.bucket_id refl k.0 k.1)
          (All-zip (HasBucketIn serves_reads) (IsNotStale env) st.db.shards serving.0
            (none_stale env st.db serving.1))) in
    rw e (
      matches_agree env route.bucket rows st (
        subst (λ (xs : List ProtoShard). read_matches route.bucket xs ≡ some w)
          (ap (filter (is_readable_in route.bucket)) shards ∙ found) local))

module _ (P : Platform) where
  read_routed_agrees :
      (env : Env) (r : Result WriteRoute) (topo : Topology) (st : Store) {w : ReadResult}
      → topo.shards ≡ map shard_to_proto st.db.shards
      → IsServingReads env st.db
      → then_use P (read_locally topo) (as_route r) ≡ some w
      → AnswersRead w st.db (routed P (read_from env) r st)
  unfolding then_use routed
  read_routed_agrees env (err x) topo st shards serving h = absurd (cc h)
  read_routed_agrees env (ok route) topo st shards serving h =
      read_route_agrees env route.kind route topo st refl shards serving h

  -- Take a topology as the server builds it from a store whose cached configuration describes the
  -- database, whose GetConfig succeeds and whose depths fit into an int32, where every active and every
  -- sealed data shard has a bucket and no active data shard with a bucket has a stale heartbeat. If the client resolves a read from it locally, then at the same clock the
  -- server would return the very same shards, and would change nothing in the database to do so.
  pub try_resolve_read_local-resolve_read :
      (env : Env) (clock : ℤ) (key : ShardKey P) (st : Store) {c : ClusterConfig} {w : ReadResult}
      → IsCoherent P st
      → (get_config P st).0 ≡ ok c
      → FitsInt32 c.retention_depth
      → FitsInt32 c.max_future_buckets
      → IsServingReads env st.db
      → try_resolve_read_local P clock key (build_topology P st).0 ≡ some w
      → AnswersRead w st.db (resolve_read P env clock key st)
  unfolding try_resolve_read_local build_topology proto_config resolve_read list_shards
      load_config_from_db get_config
  try_resolve_read_local-resolve_read env clock key st {c} {w} coherent e depth future serving h =
      let same = get_config_same P st.config_cache st in
      let spec = get_config_parsed P st coherent e in
      let route =
        ap
          (λ (r : Result ClusterConfig).
            route_locally P (classify_read P) clock key (proto_config r))
          e
        ∙ local_route P (classify_read P) clock key c spec depth future in
      let local =
        subst (λ o. then_use P (read_locally (build_topology P st).0) o ≡ some w) route h in
      let answers =
        read_routed_agrees env
          (classify_read P c.bucket_spec clock key (or_zero c.retention_depth)
            (or_zero c.max_future_buckets))
          (build_topology P st).0 (get_config P st).1 refl
          (subst (IsServingReads env) (sym same) serving) local in
      subst (λ d. AnswersRead w d (resolve_read P env clock key st)) same
        (subst (AnswersRead w (get_config P st).1.db)
          (sym (configured-ok P _ (get_config P st).0 (get_config P st).1 e)) answers)
