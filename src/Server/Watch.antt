-- ===== src/Server/Watch.antt =====
-- Watch and notifyTopology of internal/grpcapi/server.go: a stream of topologies for one client,
-- among the other things that happen at a server. The steps of the server's goroutines follow one
-- another in any order; a step of the loop of Watch receives, reads the database and sends.
use shardman.Prelude.{ℕ, ltb, Option, none, some, List, [], ◌∷◌, if◌then◌else◌}
use shardman.Prelude.Int.{ℤ, pos, ltb_ℤ}
use shardman.Prelude.Results.{Result, ok, err}
use shardman.Bucket.Platform.{Platform}
use shardman.Store.Queries.{get_topology_version}
use shardman.Store.Machine.{Op, apply}
use shardman.Store.Config.{Store}
use shardman.Broadcast.{Subscriber, Broadcast, notify, subscribe, unsubscribe, channel_of, receive}
use shardman.Server.Topology.{Topology, build_topology}

pub record World : Type 0 where
  pub store : Store
  pub broadcast : Broadcast

-- One stream: its channel, and the last topology that the client got.
pub record Stream : Type 0 where
  pub channel : ℕ
  pub held : Option Topology

-- notifyTopology; an error of the read is passed over.
unfoldable pub announce : Result ℕ → Broadcast → Broadcast
announce (err e) b = b
announce (ok v) b = notify v b

unfoldable pub notify_topology : World → World
unfolding announce
notify_topology w = record w { broadcast = announce (get_topology_version w.store.db) w.broadcast }

-- A topology that is older than the version that woke the stream is sent under that version.
unfoldable pub raise_to : ℕ → Topology → Topology
raise_to v t = if ltb t.topology_version v then record t { topology_version = v } else t

-- `req.GetSinceVersion() > 0` asks for newer topologies only.
unfoldable pub first_sent : ℤ → Topology → Option Topology
first_sent since t =
    if ltb_ℤ (pos 0) since
    then (if ltb_ℤ since (pos t.topology_version) then some t else none)
    else some t

module _ (P : Platform) where
  -- Subscribe and the first buildTopology, as one step.
  unfoldable pub open_watch : ℤ → World → Stream × World
  unfolding first_sent
  open_watch since w =
      let ((c, current), b) = subscribe w.broadcast in
      let (topo, st) = build_topology P w.store in
      (record { channel = c; held = first_sent since topo }, record { store = st; broadcast = b })

  -- `case v := <-ch`: an empty channel blocks.
  unfoldable pub send_current : Option ℕ → Stream → World → Stream × World
  send_current none s w = (s, w)
  send_current (some v) s w =
      let (topo, st) = build_topology P w.store in
      (
        record s { held = some (raise_to v topo) },
        record { store = st; broadcast = receive s.channel w.broadcast },
      )

  unfoldable pub woken_by : Option Subscriber → Option ℕ
  woken_by none = none
  woken_by (some c) = c.pending

  unfoldable pub deliver : Stream → World → Stream × World
  unfolding send_current woken_by
  deliver s w = send_current (woken_by (channel_of s.channel w.broadcast)) s w

  -- What may happen while the stream is open: the store's operations, an announcement, other
  -- streams, and a round of the stream's own loop.
  pub data Event : Type 0 where
    operation : Op → Event
    announced : Event
    joined : Event
    left : (channel : ℕ) → Event
    received : (channel : ℕ) → Event
    delivered : Event

  abbrev pub with_broadcast : World → Broadcast → World
  with_broadcast w b = record w { broadcast = b }

  unfoldable pub step : Event → Stream × World → Stream × World
  step (operation o) (s, w) = (s, record w { store = record w.store { db = apply o w.store.db } })
  step announced (s, w) = (s, notify_topology w)
  step joined (s, w) = (s, with_broadcast w (subscribe w.broadcast).1)
  step (left k) (s, w) = (s, with_broadcast w (unsubscribe k w.broadcast))
  step (received k) (s, w) = (s, with_broadcast w (receive k w.broadcast))
  step delivered (s, w) = deliver s w

  unfoldable pub steps : List Event → Stream × World → Stream × World
  steps [] sw = sw
  steps (e ∷ es) sw = steps es (step e sw)
