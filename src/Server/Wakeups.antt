-- ===== src/Server/Wakeups.antt =====
-- An announcement reaches the client of Watch.
use shardman.Prelude.{ℕ, ◌≤◌, ◌≡◌, refl, sym, ap, ◌∙◌, subst, Option, none, some, List, [], ◌∷◌}
use shardman.Prelude.Int.{pos}
use shardman.Prelude.Results.{ok}
use shardman.Bucket.Platform.{Platform}
use shardman.Store.Db.{ConfigRow}
use shardman.Store.Queries.{get_topology_version}
use shardman.Store.Moves.{IdsOk}
use shardman.Store.Config.{get_config}
use shardman.Resolve.Histories.{get_config_same}
use shardman.Broadcast.{Broadcast, offer, notify, subscribe, receive}
use shardman.Broadcast.Channels.{Holds, IsNumbered, notify-Holds, receive-Holds}
use shardman.Server.Topology.{build_topology}
use shardman.Server.Watch.{
  World, Stream, announce, notify_topology, open_watch, send_current, woken_by, deliver, Event,
  announced, delivered, step, steps,
}
use shardman.Server.Delivery.{
  IsServed, announced-IsServed, version_read, delivered-IsServed, open_watch-IsServed,
}
use shardman.Server.Streams.{IsCurrent, Alone, quiet-IsCurrent, steps-IsServed}

module _ (P : Platform) where
  -- A round of a stream that has something to receive.
  deliver-Holds :
      (s : Stream) (w : World) {v : ℕ}
      → Holds s.channel (some v) w.broadcast
      → ((deliver P s w).1.broadcast ≡ receive s.channel w.broadcast)
        × ((deliver P s w).1.store.db ≡ w.store.db)
        × ((deliver P s w).0.channel ≡ s.channel)
  unfolding deliver woken_by send_current build_topology get_config
  deliver-Holds s w h = rw h (refl, get_config_same P w.store.config_cache w.store, refl)

  offer-some : (n : ℕ) (p : Option ℕ) → (v : ℕ) × (offer n p ≡ some v)
  offer-some n none = (n, refl)
  offer-some n (some v) = (v, refl)

  notify-announced :
      (s : Stream) (w : World)
      → (v : IsServed s w)
      → (notify_topology w).broadcast ≡ notify v.config.topology_version w.broadcast
  unfolding notify_topology announce
  notify-announced s w v = rw (version_read w.store.db v.has_config) refl

  announced-delivered :
      (s : Stream) (w : World)
      → IsServed s w
      → IsCurrent (deliver P s (notify_topology w)).0 (deliver P s (notify_topology w)).1
  unfolding notify receive notify_topology
  announced-delivered s w v =
      let w' = notify_topology w in
      let n = v.config.topology_version in
      let (m, full) = offer-some n v.pending in
      let holds = subst (Holds s.channel (some m)) (sym (notify-announced s w v)) (
        subst (λ p. Holds s.channel p (notify n w.broadcast)) full
          (notify-Holds n s.channel w.broadcast v.holds)) in
      let (broadcast, db, channel) = deliver-Holds s w' holds in
      let empty =
        subst (λ c. Holds c none (receive s.channel w'.broadcast)) (sym channel)
          (receive-Holds s.channel w'.broadcast holds) in
      quiet-IsCurrent P (deliver P s w').0 (deliver P s w').1
        (delivered-IsServed P s w' (announced-IsServed s w v))
        (subst (Holds (deliver P s w').0.channel none) (sym broadcast) empty)
        (ap get_topology_version db
          ∙ version_read w.store.db v.has_config
          ∙ ap (λ (b : Broadcast). ok b.version) (sym (notify-announced s w v))
          ∙ ap (λ (b : Broadcast). ok b.version) (sym broadcast))

  -- A client opens a stream at a bootstrapped store, and then anything happens at the server in any
  -- order. If the server then announces its version and the stream's loop makes one round, the
  -- client has a topology of the database's version, and it describes every shard as it is now. So
  -- no announcement is ever lost on a stream, however slow its client was.
  pub announced-IsCurrent :
      (w : World) (es : List (Event P)) {c : ConfigRow}
      → IdsOk w.store.db
      → w.store.db.config ≡ some c
      → IsNumbered w.broadcast
      → w.broadcast.version ≤ c.topology_version
      → Alone P w.broadcast.next_channel es
      → IsCurrent
          (steps P (announced ∷ delivered ∷ []) (steps P es (open_watch P (pos 0) w))).0
          (steps P (announced ∷ delivered ∷ []) (steps P es (open_watch P (pos 0) w))).1
  unfolding open_watch subscribe steps step
  announced-IsCurrent w es ids e numbered le alone =
      let (s, w₀) = open_watch P (pos 0) w in
      let (s', w') = steps P es (s, w₀) in
      announced-delivered s' w'
        (steps-IsServed P es s w₀ alone (open_watch-IsServed P w ids e numbered le))
