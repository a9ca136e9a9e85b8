-- ===== src/Tests/Servers.antt =====
-- The theorems on the server at the cluster of five shards.
use shardman.Prelude.{
  ℕ, refl, true, Option, none, some, List, [], ◌∷◌, find, arith, any, all, count,
}
use shardman.Prelude.Int.{pos}
use shardman.Prelude.Text.{Text, codes, text_eq}
use shardman.Fsm.{cleaning, state_eq}
use shardman.Store.Queries.{get_topology_version, version_or_error}
use shardman.Store.Config.{
  Store, get_config, get_config_at, load_config_from_db, load_row, config_with, remember,
}
use shardman.Store.Machine.{clean, apply}
use shardman.Store.Rotate.{mark_bucket_cleaning, mark_bucket_cleaning_tx, bump_if_rows, clean_row}
use shardman.Store.Shard.{in_bucket, bucket_is}
use shardman.Store.Db.{
  update, update_where, constraints_ok, one_active_per_bucket, clashes_active, one_error,
  known_state, bump_topology_version, bump_config,
}
use shardman.Server.Topology.{build_topology}
use shardman.Bucket.Spec.{parse_spec}
use shardman.Broadcast.{new_broadcast, notify, subscribe, channel_of, receive, offer_to, take_from}
use shardman.Server.Requests.{
  BootstrapRequest, Request, seal_one, patch_one, list_all, report_cleaned,
}
use shardman.Server.Replies.{Server, Call}
use shardman.Server.Handlers.{serve}
use shardman.Bucket.Routing.{no_mode}
use shardman.Bucket.Spec.{hash}
use shardman.Server.Guard.{serve-IsAuthorized, Admitted}
use shardman.Server.Failures.{serve-Unharmed}
use shardman.Server.Rollbacks.{Unharmed}
use shardman.Server.Announcements.{IsConsistent, serve_all, serve_all-IsConsistent}
use shardman.Server.Notices.{Told, serve-Told}
use shardman.Server.Watch.{
  World, Event, operation, announced, joined, delivered, open_watch, step, steps, deliver, woken_by,
  send_current, notify_topology, announce,
}
use shardman.Server.Streams.{IsCurrent, steps-IsCurrent}
use shardman.Server.Wakeups.{announced-IsCurrent}
use shardman.Tests.Cluster.{platform, today, cluster, env, cluster-IdsOk, cluster-IsSound}

abbrev store : Store
store = record { db = cluster; config_cache = none; heartbeat_timeout = pos 0 }

abbrev world : World
world = record { store = store; broadcast = new_broadcast }

-- Another stream comes, today's sealed shard is to be cleaned, and the version is announced and received.
abbrev events : List (Event platform)
events = joined ∷ operation (clean today) ∷ announced ∷ delivered ∷ []

announced-IsCurrent_example :
    IsCurrent
      (steps platform
        (announced ∷ delivered ∷ [])
        (steps platform events (open_watch platform (pos 0) world))).0
      (steps platform
        (announced ∷ delivered ∷ [])
        (steps platform events (open_watch platform (pos 0) world))).1
announced-IsCurrent_example =
    announced-IsCurrent platform world events cluster-IdsOk refl tt (omega arith) tt

steps-IsCurrent_example :
    IsCurrent
      (steps platform events (open_watch platform (pos 0) world)).0
      (steps platform events (open_watch platform (pos 0) world)).1
unfolding steps step channel_of find deliver woken_by send_current open_watch notify_topology
    announce notify offer_to subscribe receive take_from get_topology_version version_or_error apply
    mark_bucket_cleaning mark_bucket_cleaning_tx update update_where constraints_ok
    one_active_per_bucket clashes_active one_error known_state any all count bump_if_rows
    bump_topology_version bump_config in_bucket bucket_is state_eq text_eq build_topology clean_row
    get_config get_config_at load_config_from_db load_row config_with remember parse_spec
steps-IsCurrent_example =
    steps-IsCurrent platform world events cluster-IdsOk refl tt (omega arith) tt refl refl

-- Every uuid stands for the shard of today's bucket.
abbrev parse : Text → Option ℕ
parse t = some 102

abbrev server : Server
server = record {
  cluster_key = codes "key";
  has_retention = true;
  store = store;
  broadcast = some new_broadcast;
}

abbrev call_with : Text → Call
call_with key = record { metadata = some (key ∷ []); env = env; clock = pos 0 }

-- A call with the wrong key.
serve-IsAuthorized_example :
    Admitted platform parse
      (call_with (codes "no"))
      server
      (serve platform parse (call_with (codes "no")) (seal_one today) server)
serve-IsAuthorized_example =
    serve-IsAuthorized platform parse (call_with (codes "no")) (seal_one today) server refl

-- An active shard cannot be set to cleaning.
serve-Unharmed_example :
    Unharmed server (serve platform parse (call_with (codes "key")) (patch_one 2 cleaning) server)
serve-Unharmed_example =
    serve-Unharmed platform parse (call_with (codes "key")) (patch_one 2 cleaning) server refl

abbrev calls : List (Call × Request platform)
calls =
    (call_with (codes "no"), list_all)
    ∷ (call_with (codes "key"), seal_one today)
    ∷ (call_with (codes "key"), report_cleaned today)
    ∷ []

serve_all-IsConsistent_example : IsConsistent platform (serve_all platform parse calls server)
serve_all-IsConsistent_example =
    serve_all-IsConsistent platform parse calls server
      (record { sound = cluster-IsSound; coherent = tt; announced = omega arith })

serve-Told_example :
    Told server (serve platform parse (call_with (codes "key")) (seal_one today) server)
serve-Told_example =
    serve-Told platform parse (call_with (codes "key")) (seal_one today) server refl

abbrev unconfigured : Server
unconfigured = record server { store = record store { db = record cluster { config = none } } }

abbrev request : BootstrapRequest
request = record {
  mode = no_mode;
  bucket_axis = hash;
  bucket_spec_json = codes "{}";
  shard_max_bytes = pos 5;
  retention_depth = none;
  max_future_buckets = none;
}
