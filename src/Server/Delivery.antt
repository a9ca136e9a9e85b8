-- ===== src/Server/Delivery.antt =====
-- What a client of Watch has, at any time while the stream is open.
use shardman.Prelude.{
  ℕ, ◌≤◌, ◌≡◌, refl, sym, ap, ◌∙◌, subst, inl, inr, Option, none, some, map, arith,
}
use shardman.Prelude.Int.{pos}
use shardman.Prelude.Results.{ok}
use shardman.Bucket.Platform.{Platform}
use shardman.Store.Db.{Db, ConfigRow}
use shardman.Store.Queries.{list_shards, get_topology_version}
use shardman.Store.Machine.{Op, apply}
use shardman.Store.Table.{Evolves-refl}
use shardman.Store.Moves.{IdsOk, SameRoute, SameRoute-refl, NoRow}
use shardman.Store.Conformance.{apply-Change}
use shardman.Store.Topology.{Versioned, Versioned-trans, apply-Versioned}
use shardman.Store.Config.{Store, get_config}
use shardman.Resolve.Histories.{get_config_same}
use shardman.Broadcast.{Broadcast, offer, notify, subscribe, receive}
use shardman.Broadcast.Channels.{Holds, IsNumbered, notify-Holds, subscribe-Holds, receive-Holds}
use shardman.Server.Topology.{Topology, shard_to_proto, version_or_zero, build_topology}
use shardman.Server.Watch.{
  World, Stream, announce, notify_topology, raise_to, first_sent, open_watch, send_current,
  woken_by, deliver,
}

-- No number that waits in the channel, and none that the broadcast has, is newer than `n`.
abbrev pub AtMost : Option ℕ → ℕ → Type 0
AtMost none n = Unit {0}
AtMost (some v) n = v ≤ n

-- With an empty channel, the client's topology is as new as the last announcement.
abbrev pub Caught : Option ℕ → (version held : ℕ) → Type 0
Caught none version held = version ≤ held
Caught (some v) version held = Unit {0}

pub record IsServed (s : Stream) (w : World) : Type 0 where
  pub ids : IdsOk w.store.db
  pub config : ConfigRow
  pub has_config : w.store.db.config ≡ some config
  pub topo : Topology
  pub has_topo : s.held ≡ some topo
  pub source : Db
  pub from_source : topo.shards ≡ map shard_to_proto source.shards
  pub since : Versioned source topo.topology_version w.store.db config.topology_version
  pub pending : Option ℕ
  pub holds : Holds s.channel pending w.broadcast
  pub pending_le : AtMost pending config.topology_version
  pub announced_le : w.broadcast.version ≤ config.topology_version
  pub caught : Caught pending w.broadcast.version topo.topology_version

pub Versioned-refl : (d : Db) (n : ℕ) → Versioned d n d n
Versioned-refl d n = inr (refl, Evolves-refl SameRoute NoRow d.shards SameRoute-refl)

Versioned-le : (d d' : Db) (n n' : ℕ) → Versioned d n d' n' → n ≤ n'
Versioned-le d d' n n' (inl h) = omega arith
Versioned-le d d' n n' (inr h) = omega arith

AtMost-le : (p : Option ℕ) {n m : ℕ} → AtMost p n → n ≤ m → AtMost p m
AtMost-le none h k = tt
AtMost-le (some v) h k = omega arith

-- An operation of the store.
pub operation-IsServed :
    (o : Op) (s : Stream) (w : World)
    → IsServed s w
    → IsServed s (record w { store = record w.store { db = apply o w.store.db } })
operation-IsServed o s w v =
    let (config', e, moved) = apply-Versioned o w.store.db v.ids v.has_config in
    let risen = Versioned-le w.store.db (apply o w.store.db) _ _ moved in
    record {
      ids = (apply-Change o w.store.db v.ids).ids;
      config = config';
      has_config = e;
      topo = v.topo;
      has_topo = v.has_topo;
      source = v.source;
      from_source = v.from_source;
      since = Versioned-trans v.source w.store.db (apply o w.store.db) _ _ _ v.since moved;
      pending = v.pending;
      holds = v.holds;
      pending_le = AtMost-le v.pending v.pending_le risen;
      announced_le = omega (arith, risen);
      caught = v.caught;
    }

-- Another goroutine uses the broadcast, and leaves this channel and the version alone.
pub broadcast-IsServed :
    (b : Broadcast) (s : Stream) (w : World)
    → (v : IsServed s w) → Holds s.channel v.pending b
    → b.version ≡ w.broadcast.version
    → IsServed s (record w { broadcast = b })
broadcast-IsServed b s w v holds e = record {
  ids = v.ids;
  config = v.config;
  has_config = v.has_config;
  topo = v.topo;
  has_topo = v.has_topo;
  source = v.source;
  from_source = v.from_source;
  since = v.since;
  pending = v.pending;
  holds = holds;
  pending_le = v.pending_le;
  announced_le = rw e v.announced_le;
  caught = rw e v.caught;
}

pub version_read :
    (d : Db) {c : ConfigRow} → d.config ≡ some c → get_topology_version d ≡ ok c.topology_version
unfolding get_topology_version
version_read d e = rw e refl

offer-AtMost : (v : ℕ) (p : Option ℕ) → AtMost p v → AtMost (offer v p) v
offer-AtMost v none h = omega arith
offer-AtMost v (some u) h = h

offer-Caught : (v : ℕ) (p : Option ℕ) (version held : ℕ) → Caught (offer v p) version held
offer-Caught v none version held = tt
offer-Caught v (some u) version held = tt

-- An announcement fills the channel.
pub announced-IsServed : (s : Stream) (w : World) → IsServed s w → IsServed s (notify_topology w)
unfolding notify_topology announce notify
announced-IsServed s w v =
    let n = v.config.topology_version in
    rw (version_read w.store.db v.has_config) (record {
      ids = v.ids;
      config = v.config;
      has_config = v.has_config;
      topo = v.topo;
      has_topo = v.has_topo;
      source = v.source;
      from_source = v.from_source;
      since = v.since;
      pending = offer n v.pending;
      holds = notify-Holds n s.channel w.broadcast v.holds;
      pending_le = offer-AtMost n v.pending v.pending_le;
      announced_le = omega arith;
      caught = offer-Caught n v.pending n v.topo.topology_version;
    })

module _ (P : Platform) where
  -- What buildTopology makes of a bootstrapped store.
  pub built :
      (st : Store) {c : ConfigRow}
      → st.db.config ≡ some c
      → ((build_topology P st).0.topology_version ≡ c.topology_version)
        × ((build_topology P st).0.shards ≡ map shard_to_proto st.db.shards)
        × ((build_topology P st).1.db ≡ st.db)
  unfolding build_topology version_or_zero get_config list_shards
  built st e =
      let same = get_config_same P st.config_cache st in
      (rw (version_read st.db e) refl, ap (λ (d : Db). map shard_to_proto d.shards) same, same)

  pub raised : (v : ℕ) (t : Topology) → v ≤ t.topology_version → raise_to v t ≡ t
  unfolding raise_to
  raised v t h = ground arith

  -- A topology that was just built serves its client.
  IsServed-by :
      (w : World) (b : Broadcast) (c : ℕ) (topo : Topology) (st : Store) {config : ConfigRow}
      → IdsOk w.store.db
      → w.store.db.config ≡ some config
      → topo.topology_version ≡ config.topology_version
      → topo.shards ≡ map shard_to_proto w.store.db.shards
      → st.db ≡ w.store.db
      → Holds c none b
      → b.version ≤ config.topology_version
      → IsServed (record { channel = c; held = some topo }) (record { store = st; broadcast = b })
  IsServed-by w b c topo st {config} ids e version shards same holds announced_le = record {
    ids = subst IdsOk (sym same) ids;
    config = config;
    has_config = ap (λ (d : Db). d.config) same ∙ e;
    topo = topo;
    has_topo = refl;
    source = w.store.db;
    from_source = shards;
    since =
        subst (λ (d : Db). Versioned w.store.db topo.topology_version d config.topology_version)
          (sym same)
          (subst (λ n. Versioned w.store.db n w.store.db config.topology_version) (sym version)
            (Versioned-refl w.store.db config.topology_version));
    pending = none;
    holds = holds;
    pending_le = tt;
    announced_le = announced_le;
    caught = omega (arith, version);
  }

  -- The loop sends what the database holds.
  send-IsServed :
      (p : Option ℕ) (s : Stream) (w : World)
      → (v : IsServed s w) → v.pending ≡ p
      → IsServed (send_current P p s w).0 (send_current P p s w).1
  unfolding send_current receive
  send-IsServed none s w v e = v
  send-IsServed (some n) s w v e =
      let (version, shards, same) = built w.store v.has_config in
      let topo = (build_topology P w.store).0 in
      let le : n ≤ v.config.topology_version =
        subst (λ (p : Option ℕ). AtMost p v.config.topology_version) e v.pending_le in
      let kept = raised n topo (omega (arith, version)) in
      rw kept (
        IsServed-by w (receive s.channel w.broadcast) s.channel topo (build_topology P w.store).1
          v.ids v.has_config version shards same (receive-Holds s.channel w.broadcast v.holds)
          v.announced_le)

  pub delivered-IsServed :
      (s : Stream) (w : World) → IsServed s w → IsServed (deliver P s w).0 (deliver P s w).1
  unfolding deliver woken_by
  delivered-IsServed s w v = rw v.holds (send-IsServed v.pending s w v refl)

  pub open_watch-IsServed :
      (w : World) {c : ConfigRow}
      → IdsOk w.store.db
      → w.store.db.config ≡ some c
      → IsNumbered w.broadcast
      → w.broadcast.version ≤ c.topology_version
      → IsServed (open_watch P (pos 0) w).0 (open_watch P (pos 0) w).1
  unfolding open_watch first_sent subscribe
  open_watch-IsServed w ids e numbered le =
      let (version, shards, same) = built w.store e in
      IsServed-by w (subscribe w.broadcast).1 w.broadcast.next_channel (build_topology P w.store).0
        (build_topology P w.store).1 ids e version shards same
        (subscribe-Holds w.broadcast numbered) le
