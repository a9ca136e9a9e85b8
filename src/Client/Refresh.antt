-- ===== src/Client/Refresh.antt =====
-- The topology that pkg/client/client.go fetches, against the server's shards.
use shardman.Prelude.{ℕ, ◌≡◌, refl, sym, ap, ◌∙◌, false, Option, some, List, map}
use shardman.Prelude.Int.{ℤ}
use shardman.Prelude.Text.{Text}
use shardman.Prelude.Results.{ok}
use shardman.Bucket.Platform.{Platform}
use shardman.Bucket.Key.{ShardKey}
use shardman.Store.Shard.{Shard}
use shardman.Store.Db.{ConfigRow}
use shardman.Store.Queries.{get_topology_version, list_shards}
use shardman.Store.Table.{Evolves-refl}
use shardman.Store.Moves.{SameRoute, SameRoute-refl, NoRow}
use shardman.Store.Config.{get_config}
use shardman.Store.Promote.{Env}
use shardman.Resolve.Histories.{get_config_same}
use shardman.Server.Topology.{Topology, shard_to_proto, build_topology}
use shardman.Server.Delivery.{version_read, built}
use shardman.Server.Streams.{Describe, SameRoutes-Describe}
use shardman.Server.Requests.{Request, Reply, is_failed}
use shardman.Server.Replies.{Server, Call}
use shardman.Server.Handlers.{serve, topology_reply}
use shardman.Client.Remote.{
  Client, store_topology, refresh_topology, public_call, admin_call, after_admin, admin,
}

-- The client has a topology of the version of the server's database, which describes its shards.
pub record IsFresh (c : Client) (s : Server) : Type 0 where
  pub topo : Topology
  pub has_topo : c.topo ≡ some topo
  pub has_version : c.topo_version ≡ topo.topology_version
  pub latest : get_topology_version s.store.db ≡ ok topo.topology_version
  pub describes : Describe topo.shards s.store.db.shards

shards-Describe : (xs : List Shard) → Describe (map shard_to_proto xs) xs
shards-Describe xs = SameRoutes-Describe xs xs (Evolves-refl SameRoute NoRow xs SameRoute-refl)

module _ (P : Platform) (parse_uuid : Text → Option ℕ)
    (to_value : ShardKey P → Option (ShardKey P)) where
  refresh-IsFresh :
      (call : Call) (c : Client) (s : Server) {row : ConfigRow}
      → s.store.db.config ≡ some row
      → IsFresh
          (refresh_topology P parse_uuid to_value call c s).0
          (refresh_topology P parse_uuid to_value call c s).1
  unfolding refresh_topology serve topology_reply store_topology build_topology get_config
      list_shards
  refresh-IsFresh call c s {row} e =
      let same = get_config_same P s.store.config_cache s.store in
      let version = version_read s.store.db e in
      record {
        topo = (build_topology P s.store).0;
        has_topo = refl;
        has_version = refl;
        latest =
            ap get_topology_version same
            ∙ version
            ∙ ap (λ (n : ℕ). ok n) (sym (built P s.store e).0);
        describes = shards-Describe (get_config P s.store).1.db.shards;
      }

  after_admin-IsFresh :
      (env : Env) (clock : ℤ) (c : Client) (r : Reply × Server) {row : ConfigRow}
      → is_failed r.0 ≡ false
      → r.1.store.db.config ≡ some row
      → IsFresh
          (after_admin P parse_uuid to_value env clock c r).1.0
          (after_admin P parse_uuid to_value env clock c r).1.1
  unfolding after_admin
  after_admin-IsFresh env clock c (reply, s) done e =
      rw done (refresh-IsFresh (public_call env clock) c s e)

  -- After an admin call of the client (Bootstrap, RegisterShard or SealRotate) that the server
  -- accepts, if the cluster has a configuration then, the client holds a topology of the version of
  -- the server's database, and it describes every shard as it is now. So a client sees what it did.
  pub admin-IsFresh :
      (env : Env) (clock : ℤ) (r : Request P) (c : Client) (s : Server) {row : ConfigRow}
      → is_failed (serve P parse_uuid (admin_call c env clock) r s).0 ≡ false
      → (serve P parse_uuid (admin_call c env clock) r s).1.store.db.config ≡ some row
      → IsFresh
          (admin P parse_uuid to_value env clock r c s).1.0
          (admin P parse_uuid to_value env clock r c s).1.1
  unfolding admin
  admin-IsFresh env clock r c s done e =
      after_admin-IsFresh env clock c (serve P parse_uuid (admin_call c env clock) r s) done e
