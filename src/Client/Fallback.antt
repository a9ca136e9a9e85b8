-- ===== src/Client/Fallback.antt =====
-- ResolveWrite and ResolveRead of pkg/client/client.go, local or remote, against the server's.
use shardman.Prelude.{
  ℕ, ◌≡◌, refl, sym, ap, subst, Option, none, some, if◌then◌else◌, Bool-cases, inl, inr,
}
use shardman.Prelude.Text.{Text}
use shardman.Prelude.Results.{Result, ok, err, is_not_found}
use shardman.Bucket.Platform.{Platform}
use shardman.Bucket.Key.{ShardKey}
use shardman.Store.Db.{Db}
use shardman.Store.Config.{ClusterConfig, Store, get_config}
use shardman.Store.Described.{IsCoherent}
use shardman.Resolve.Histories.{get_config_same}
use shardman.Resolve.Service.{WriteResult, ReadResult, resolve_write, resolve_read}
use shardman.Server.Access.{internal, unavailable}
use shardman.Server.Topology.{build_topology}
use shardman.Server.Replies.{Server, Call, with_store, write_reply, read_reply, code_of_write}
use shardman.Server.Handlers.{serve, with_key, topology_reply}
use shardman.Client.Messages.{FitsInt32}
use shardman.Client.Local.{try_resolve_write_local, try_resolve_read_local}
use shardman.Client.Agreement.{IsServing, try_resolve_write_local-resolve_write}
use shardman.Client.Reads.{IsServingReads, try_resolve_read_local-resolve_read}
use shardman.Client.Remote.{
  Client, Outcome, answer, refused, refused_with, write_replied, read_replied, write_remotely,
  read_remotely, local_try, or_remotely, client_write, client_read, refresh_topology,
}

-- How the server's answer to a write reaches a client.
abbrev pub write_outcome : Result WriteResult → Outcome WriteResult
write_outcome (ok w) = answer w
write_outcome (err e) = refused (if is_not_found e then unavailable else internal)

abbrev pub read_outcome : Result ReadResult → Outcome ReadResult
read_outcome (ok r) = answer r
read_outcome (err e) = refused internal

module _ (P : Platform) (parse_uuid : Text → Option ℕ)
    (to_value : ShardKey P → Option (ShardKey P)) where
  -- The client returns `o`, and the server's database becomes `d`.
  abbrev pub Returns : {A : Type 0} → Outcome A × (Client × Server) → Outcome A → Db → Type 0
  Returns r o d = (r.0 ≡ o) × (r.1.1.store.db ≡ d)

  refreshed-db :
      (call : Call) (c : Client) (s : Server)
      → (refresh_topology P parse_uuid to_value call c s).1.store.db ≡ s.store.db
  unfolding refresh_topology serve topology_reply build_topology get_config
  refreshed-db call c s = get_config_same P s.store.config_cache s.store

  write_replied-Returns :
      (call : Call) (c : Client) (s : Server) (r : Result WriteResult × Store)
      → Returns
          (write_replied P parse_uuid to_value call c (write_reply s r))
          (write_outcome r.0)
          r.1.db
  unfolding write_replied write_reply code_of_write refused_with
  write_replied-Returns call c s (ok w, st) = (refl, refl)
  write_replied-Returns call c s (err e, st) = elim (Bool-cases (is_not_found e)) [
    | inl t ↦ rw t (refl, refreshed-db call c (with_store s st))
    | inr n ↦ rw n (refl, refl)
  ]

  read_replied-Returns :
      (call : Call) (c : Client) (s : Server) (r : Result ReadResult × Store)
      → Returns
          (read_replied P parse_uuid to_value call c (read_reply s r))
          (read_outcome r.0)
          r.1.db
  unfolding read_replied read_reply refused_with
  read_replied-Returns call c s (ok w, st) = (refl, refl)
  read_replied-Returns call c s (err e, st) = (refl, refl)

  or_remotely-Returns :
      {A : Type 0} (local : Option A) (remote : Outcome A × (Client × Server)) (c : Client)
      (s : Server) (o : Outcome A) (d : Db)
      → Returns remote o d
      → ((a : A) → local ≡ some a → (answer a ≡ o) × (s.store.db ≡ d))
      → Returns (or_remotely P parse_uuid to_value local remote c s) o d
  unfolding or_remotely
  or_remotely-Returns none remote c s o d h k = h
  or_remotely-Returns (some a) remote c s o d h k = k a refl

  -- The client has the topology that the server would build; the server's cached configuration
  -- describes its database, its GetConfig succeeds, and the depths fit into an int32; every active data
  -- shard has a bucket and none of these has a stale heartbeat; the key reaches the server as it is; and
  -- both clocks agree. Then ResolveWrite of the client returns what the server's ResolveWrite returns, an error as its status, and leaves the
  -- database as that does, whether the client asked the server or not.
  pub client_write-resolve_write :
      (call : Call) (key : ShardKey P) (c : Client) (s : Server) {cfg : ClusterConfig}
      → IsCoherent P s.store
      → (get_config P s.store).0 ≡ ok cfg
      → FitsInt32 cfg.retention_depth
      → FitsInt32 cfg.max_future_buckets
      → IsServing call.env s.store.db
      → c.topo ≡ some (build_topology P s.store).0
      → to_value key ≡ some key
      → Returns
          (client_write P parse_uuid to_value call call.clock key c s)
          (write_outcome (resolve_write P call.env call.clock key s.store).0)
          (resolve_write P call.env call.clock key s.store).1.db
  unfolding client_write write_remotely serve with_key
  client_write-resolve_write call key c s coherent loaded depth future serving topo same =
      let answered = resolve_write P call.env call.clock key s.store in
      let locally = local_try P parse_uuid to_value (try_resolve_write_local P call.clock key) in
      rw same (
        or_remotely-Returns (locally c.topo)
          (write_replied P parse_uuid to_value call c (write_reply s answered)) c s
          (write_outcome answered.0) answered.1.db (write_replied-Returns call c s answered)
          (λ w found.
            let (result, db) =
              try_resolve_write_local-resolve_write P call.env call.clock key s.store coherent
                loaded depth future serving (subst (λ o. locally o ≡ some w) topo found) in
            (ap write_outcome (sym result), sym db)))

  -- The client has the topology that the server would build; the server's cached configuration
  -- describes its database, its GetConfig succeeds, and the depths fit into an int32; every active and
  -- every sealed data shard has a bucket and no active data shard with a bucket has a stale heartbeat; the
  -- key reaches the server as it is; and both clocks agree. Then ResolveRead of the client returns what
  -- the server's ResolveRead returns, an error as the status Internal, and leaves the database as that
  -- does, whether the client asked the server or not.
  pub client_read-resolve_read :
      (call : Call) (key : ShardKey P) (c : Client) (s : Server) {cfg : ClusterConfig}
      → IsCoherent P s.store
      → (get_config P s.store).0 ≡ ok cfg
      → FitsInt32 cfg.retention_depth
      → FitsInt32 cfg.max_future_buckets
      → IsServingReads call.env s.store.db
      → c.topo ≡ some (build_topology P s.store).0
      → to_value key ≡ some key
      → Returns
          (client_read P parse_uuid to_value call call.clock key c s)
          (read_outcome (resolve_read P call.env call.clock key s.store).0)
          (resolve_read P call.env call.clock key s.store).1.db
  unfolding client_read read_remotely serve with_key
  client_read-resolve_read call key c s coherent loaded depth future serving topo same =
      let answered = resolve_read P call.env call.clock key s.store in
      let locally = local_try P parse_uuid to_value (try_resolve_read_local P call.clock key) in
      rw same (
        or_remotely-Returns (locally c.topo)
          (read_replied P parse_uuid to_value call c (read_reply s answered)) c s
          (read_outcome answered.0) answered.1.db (read_replied-Returns call c s answered)
          (λ w found.
            let (result, db) =
              try_resolve_read_local-resolve_read P call.env call.clock key s.store coherent loaded
                depth future serving (subst (λ o. locally o ≡ some w) topo found) in
            (ap read_outcome (sym result), sym db)))
