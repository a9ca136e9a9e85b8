-- ===== src/Client/Remote.antt =====
-- pkg/client/client.go: the calls of the client, and the topology that it keeps. A call that the
-- local resolution gives up goes to the server; there are no failures of the transport.
use shardman.Prelude.{ℕ, ◌&&◌, Option, none, some, List, [], ◌∷◌, map, filter, if◌then◌else◌}
use shardman.Prelude.Int.{ℤ}
use shardman.Prelude.Text.{Text}
use shardman.Bucket.Platform.{Platform}
use shardman.Bucket.Key.{ShardKey}
use shardman.Fsm.{active, state_eq}
use shardman.Store.Shard.{is_data}
use shardman.Store.Promote.{Env}
use shardman.Resolve.Service.{WriteResult, ReadResult}
use shardman.Server.Access.{Code, unavailable, internal}
use shardman.Server.Topology.{Topology}
use shardman.Server.Requests.{
  BootstrapRequest, RegisterRequest, Request, write, read, get, bootstrap_cluster, register_one,
  seal_one, Reply, failed, written, found, topology, is_failed,
}
use shardman.Server.Replies.{Server, Call}
use shardman.Server.Handlers.{serve}
use shardman.Client.Local.{shard_endpoint, try_resolve_write_local, try_resolve_read_local}

-- The type Client, less its connection.
pub record Client : Type 0 where
  pub cluster_key : Text
  pub topo : Option Topology
  pub topo_version : ℕ

-- What a call returns: a result, a status of the server, or an error of the client's own.
pub data Outcome (A : Type 0) : Type 0 where
  answer : A → Outcome A
  refused : Code → Outcome A
  unsupported_key : Outcome A

-- The topology is stored with its version.
unfoldable pub store_topology : Topology → Client → Client
store_topology t c = record c { topo = some t; topo_version = t.topology_version }

-- An event of the stream of WatchTopology.
unfoldable pub receive_event : ℕ → Option Topology → Client → Client
receive_event version none c = c
receive_event version (some t) c = record c { topo = some t; topo_version = version }

abbrev pub fetched : Client → Reply × Server → Client × Server
fetched c (topology t, s) = (store_topology t c, s)
fetched c (_, s) = (c, s)

-- adminCtx
unfoldable pub admin_metadata : Text → Option (List Text)
admin_metadata [] = some []
admin_metadata (c ∷ key) = some ((c ∷ key) ∷ [])

unfoldable pub public_call : Env → ℤ → Call
public_call env clock = record { metadata = some []; env = env; clock = clock }

unfoldable pub admin_call : Client → Env → ℤ → Call
unfolding admin_metadata
admin_call c env clock = record {
  metadata = admin_metadata c.cluster_key;
  env = env;
  clock = clock;
}

-- The endpoints that ScatterQuery asks when it is given none.
unfoldable pub scatter_endpoints : List Text → Option Topology → List Text
scatter_endpoints [] none = []
scatter_endpoints [] (some t) =
    map shard_endpoint (filter (λ sh. is_data sh.role && state_eq sh.state active) t.shards)
scatter_endpoints (e ∷ endpoints) topo = e ∷ endpoints

-- `to_value` is what a key becomes on the way to the server, by structpb.NewValue and AsInterface.
module _ (P : Platform) (parse_uuid : Text → Option ℕ)
    (to_value : ShardKey P → Option (ShardKey P)) where
  unfoldable pub refresh_topology : Call → Client → Server → Client × Server
  refresh_topology call c s = fetched c (serve P parse_uuid call get s)

  -- A resolution that was not possible refreshes the topology.
  unfoldable pub refused_with :
      {A : Type 0} → Call → Code → Client → Server → Outcome A × (Client × Server)
  refused_with call unavailable c s = (refused unavailable, refresh_topology call c s)
  refused_with call code c s = (refused code, (c, s))

  unfoldable pub write_replied :
      Call → Client → Reply × Server → Outcome WriteResult × (Client × Server)
  write_replied call c (written w, s) = (answer w, (c, s))
  write_replied call c (failed code, s) = refused_with call code c s
  write_replied call c (_, s) = (refused internal, (c, s))

  unfoldable pub read_replied :
      Call → Client → Reply × Server → Outcome ReadResult × (Client × Server)
  read_replied call c (found r, s) = (answer r, (c, s))
  read_replied call c (failed code, s) = refused_with call code c s
  read_replied call c (_, s) = (refused internal, (c, s))

  unfoldable pub write_remotely :
      Call → Option (ShardKey P) → Client → Server → Outcome WriteResult × (Client × Server)
  unfolding write_replied
  write_remotely call none c s = (unsupported_key, (c, s))
  write_remotely call (some key) c s =
      write_replied call c (serve P parse_uuid call (write (some key)) s)

  unfoldable pub read_remotely :
      Call → Option (ShardKey P) → Client → Server → Outcome ReadResult × (Client × Server)
  unfolding read_replied
  read_remotely call none c s = (unsupported_key, (c, s))
  read_remotely call (some key) c s =
      read_replied call c (serve P parse_uuid call (read (some key)) s)

  -- A local resolution needs a topology.
  abbrev pub local_try : {A : Type 0} → (Topology → Option A) → Option Topology → Option A
  local_try f none = none
  local_try f (some t) = f t

  unfoldable pub or_remotely :
      {A : Type 0}
      → Option A
      → Outcome A × (Client × Server)
      → Client
      → Server
      → Outcome A × (Client × Server)
  or_remotely (some a) remote c s = (answer a, (c, s))
  or_remotely none remote c s = remote

  -- ResolveWrite and ResolveRead of the client, at the client's clock.
  unfoldable pub client_write :
      Call → ℤ → ShardKey P → Client → Server → Outcome WriteResult × (Client × Server)
  unfolding or_remotely write_remotely
  client_write call clock key c s =
      or_remotely (local_try (try_resolve_write_local P clock key) c.topo)
        (write_remotely call (to_value key) c s) c s

  unfoldable pub client_read :
      Call → ℤ → ShardKey P → Client → Server → Outcome ReadResult × (Client × Server)
  unfolding or_remotely read_remotely
  client_read call clock key c s =
      or_remotely (local_try (try_resolve_read_local P clock key) c.topo)
        (read_remotely call (to_value key) c s) c s

  -- An admin call that succeeds refreshes the topology.
  unfoldable pub after_admin : Env → ℤ → Client → Reply × Server → Reply × (Client × Server)
  unfolding refresh_topology
  after_admin env clock c (reply, s) =
      if is_failed reply
      then (reply, (c, s))
      else (reply, refresh_topology (public_call env clock) c s)

  unfoldable pub admin : Env → ℤ → Request P → Client → Server → Reply × (Client × Server)
  unfolding after_admin
  admin env clock r c s = after_admin env clock c (serve P parse_uuid (admin_call c env clock) r s)

  -- Bootstrap, RegisterShard and SealRotate of the client.
  unfoldable pub client_bootstrap :
      Env → ℤ → BootstrapRequest → Client → Server → Reply × (Client × Server)
  unfolding admin
  client_bootstrap env clock req c s = admin env clock (bootstrap_cluster req) c s

  unfoldable pub client_register :
      Env → ℤ → RegisterRequest → Client → Server → Reply × (Client × Server)
  unfolding admin
  client_register env clock req c s = admin env clock (register_one req) c s

  unfoldable pub client_seal_rotate : Env → ℤ → Text → Client → Server → Reply × (Client × Server)
  unfolding admin
  client_seal_rotate env clock b c s = admin env clock (seal_one b) c s

  -- Dial: a client with the topology of the moment.
  unfoldable pub dial : Text → Env → ℤ → Server → Client × Server
  unfolding refresh_topology
  dial key env clock s =
      refresh_topology (public_call env clock)
        (record { cluster_key = key; topo = none; topo_version = 0 }) s
