-- ===== src/Server/Streams.antt =====
-- A stream of Watch over any sequence of events at the server.
use shardman.Prelude.{
  ℕ, ◌≤◌, ◌≡◌, ◌≢◌, refl, sym, ap, ◌∙◌, subst, inl, inr, Option, none, some, List, [], ◌∷◌, map,
  arith,
}
use shardman.Prelude.Int.{pos}
use shardman.Prelude.Results.{ok}
use shardman.Bucket.Platform.{Platform}
use shardman.Store.Shard.{Shard}
use shardman.Store.Db.{Db, ConfigRow}
use shardman.Store.Queries.{get_topology_version}
use shardman.Store.Moves.{IdsOk, SameRoute}
use shardman.Store.Topology.{Versioned, SameRoutes}
use shardman.Broadcast.{Broadcast, subscribe, unsubscribe, channel_of, receive}
use shardman.Broadcast.Channels.{
  Holds, IsNumbered, subscribe-Holds_other, unsubscribe-Holds, receive-Holds_other,
}
use shardman.Server.Topology.{ProtoShard, Topology, text_or_empty, shard_to_proto}
use shardman.Server.Watch.{
  World, Stream, open_watch, send_current, woken_by, deliver, Event, operation, announced, joined,
  left, received, delivered, step, steps,
}
use shardman.Server.Delivery.{
  IsServed, Caught, operation-IsServed, broadcast-IsServed, announced-IsServed, version_read,
  delivered-IsServed, open_watch-IsServed,
}

-- A message tells a client what the row holds, as far as clients see it.
pub record Describes (t : ProtoShard) (s : Shard) : Type 0 where
  pub id_is : t.id ≡ s.id
  pub uuid_is : t.shard_uuid ≡ s.shard_uuid
  pub role_is : t.role ≡ s.role
  pub bucket_is : t.bucket_id ≡ text_or_empty s.bucket_id
  pub state_is : t.state ≡ s.state
  pub dsn_is : t.dsn ≡ s.dsn
  pub url_is : t.advertise_url ≡ text_or_empty s.advertise_url

abbrev pub Describe : List ProtoShard → List Shard → Type 0
Describe [] [] = Unit {0}
Describe (t ∷ ts) (s ∷ ss) = Describes t s × Describe ts ss
Describe _ _ = ⊥

-- The client has a topology of the database's version, and it describes the shards of now.
pub record IsCurrent (s : Stream) (w : World) : Type 0 where
  pub topo : Topology
  pub has_topo : s.held ≡ some topo
  pub version : get_topology_version w.store.db ≡ ok topo.topology_version
  pub describes : Describe topo.shards w.store.db.shards

SameRoute-Describes : (s t : Shard) → SameRoute s t → Describes (shard_to_proto s) t
unfolding shard_to_proto
SameRoute-Describes s t r = record {
  id_is = sym r.same_id;
  uuid_is = sym r.same_uuid;
  role_is = sym r.same_role;
  bucket_is = ap text_or_empty (sym r.same_bucket);
  state_is = sym r.same_state;
  dsn_is = sym r.same_dsn;
  url_is = ap text_or_empty (sym r.same_url);
}

pub SameRoutes-Describe :
    (xs ys : List Shard) → SameRoutes xs ys → Describe (map shard_to_proto xs) ys
SameRoutes-Describe [] [] h = tt
SameRoutes-Describe [] (y ∷ ys) h = absurd h.0
SameRoutes-Describe (x ∷ xs) [] h = absurd h
SameRoutes-Describe (x ∷ xs) (y ∷ ys) h =
    (SameRoute-Describes x y h.0, SameRoutes-Describe xs ys h.1)

ok_injective : {A : Type 0} {a b : A} → ok a ≡ ok b → a ≡ b
ok_injective h = cc

-- A version that stands has kept the routes.
Versioned-same :
    (d d' : Db) (n n' : ℕ) → Versioned d n d' n' → n' ≤ n → (n' ≡ n) × SameRoutes d.shards d'.shards
Versioned-same d d' n n' (inl h) le = absurd (omega arith)
Versioned-same d d' n n' (inr h) le = h

IsServed-IsCurrent :
    (s : Stream) (w : World)
    → (v : IsServed s w) → v.config.topology_version ≤ v.topo.topology_version
    → IsCurrent s w
IsServed-IsCurrent s w v le =
    let (same, routes) =
      Versioned-same v.source w.store.db v.topo.topology_version v.config.topology_version v.since
        le in
    record {
      topo = v.topo;
      has_topo = v.has_topo;
      version = version_read w.store.db v.has_config ∙ ap (λ (n : ℕ). ok n) same;
      describes =
          subst (λ (ts : List ProtoShard). Describe ts w.store.db.shards) (sym v.from_source)
            (SameRoutes-Describe v.source.shards w.store.db.shards routes);
    }

module _ (P : Platform) where
  -- No other goroutine uses the channel of the stream.
  abbrev pub Alone : ℕ → List (Event P) → Type 0
  Alone c [] = Unit {0}
  Alone c (left k ∷ es) = (k ≢ c) × Alone c es
  Alone c (received k ∷ es) = (k ≢ c) × Alone c es
  Alone c (_ ∷ es) = Alone c es

  step-IsServed :
      (e : Event P) (es : List (Event P)) (s : Stream) (w : World)
      → Alone s.channel (e ∷ es)
      → IsServed s w
      → IsServed (step P e (s, w)).0 (step P e (s, w)).1
  unfolding step subscribe unsubscribe receive
  step-IsServed (operation o) es s w a v = operation-IsServed o s w v
  step-IsServed announced es s w a v = announced-IsServed s w v
  step-IsServed joined es s w a v =
      broadcast-IsServed (subscribe w.broadcast).1 s w v
        (subscribe-Holds_other s.channel w.broadcast v.holds) refl
  step-IsServed (left k) es s w a v =
      broadcast-IsServed (unsubscribe k w.broadcast) s w v
        (unsubscribe-Holds k s.channel w.broadcast a.0 v.holds) refl
  step-IsServed (received k) es s w a v =
      broadcast-IsServed (receive k w.broadcast) s w v
        (receive-Holds_other k s.channel w.broadcast a.0 v.holds) refl
  step-IsServed delivered es s w a v = delivered-IsServed P s w v

  send-channel :
      (p : Option ℕ) (s : Stream) (w : World) → (send_current P p s w).0.channel ≡ s.channel
  unfolding send_current
  send-channel none s w = refl
  send-channel (some v) s w = refl

  Alone-step :
      (e : Event P) (es : List (Event P)) (s : Stream) (w : World)
      → Alone s.channel (e ∷ es)
      → Alone (step P e (s, w)).0.channel es
  unfolding step deliver
  Alone-step (operation o) es s w a = a
  Alone-step announced es s w a = a
  Alone-step joined es s w a = a
  Alone-step (left k) es s w a = a.1
  Alone-step (received k) es s w a = a.1
  Alone-step delivered es s w a =
      rw (send-channel (woken_by P (channel_of s.channel w.broadcast)) s w) a

  pub steps-IsServed :
      (es : List (Event P)) (s : Stream) (w : World)
      → Alone s.channel es
      → IsServed s w
      → IsServed (steps P es (s, w)).0 (steps P es (s, w)).1
  unfolding steps
  steps-IsServed [] s w a v = v
  steps-IsServed (e ∷ es) s w a v =
      steps-IsServed es (step P e (s, w)).0 (step P e (s, w)).1 (Alone-step e es s w a)
        (step-IsServed e es s w a v)

  Caught-le :
      (p : Option ℕ) (b : Broadcast) (c version held : ℕ)
      → Holds c p b
      → Holds c none b
      → Caught p version held
      → version ≤ held
  Caught-le none b c version held h k caught = caught
  Caught-le (some v) b c version held h k caught = absurd (cc (sym h ∙ k))

  -- With an empty channel and nothing new to announce, the client is up to date.
  pub quiet-IsCurrent :
      (s : Stream) (w : World)
      → IsServed s w
      → Holds s.channel none w.broadcast
      → get_topology_version w.store.db ≡ ok w.broadcast.version
      → IsCurrent s w
  quiet-IsCurrent s w v empty latest =
      let same : w.broadcast.version ≡ v.config.topology_version =
        ok_injective (sym latest ∙ version_read w.store.db v.has_config) in
      let caught =
        Caught-le v.pending w.broadcast s.channel w.broadcast.version v.topo.topology_version
          v.holds empty v.caught in
      IsServed-IsCurrent s w v (omega arith)

  -- A client opens a stream at a bootstrapped store, and then anything happens at the server in any
  -- order: operations of the store, announcements, other streams that come, receive and go, and
  -- rounds of this stream. Whenever the stream's channel is empty and the version announced last is
  -- the database's, the client has a topology of that version, and it describes every shard as it
  -- is now: id, uuid, role, bucket, state, DSN and URL.
  pub steps-IsCurrent :
      (w : World) (es : List (Event P)) {c : ConfigRow}
      → IdsOk w.store.db
      → w.store.db.config ≡ some c
      → IsNumbered w.broadcast
      → w.broadcast.version ≤ c.topology_version
      → Alone w.broadcast.next_channel es
      → Holds
          (steps P es (open_watch P (pos 0) w)).0.channel
          none
          (steps P es (open_watch P (pos 0) w)).1.broadcast
      → get_topology_version (steps P es (open_watch P (pos 0) w)).1.store.db
        ≡ ok (steps P es (open_watch P (pos 0) w)).1.broadcast.version
      → IsCurrent (steps P es (open_watch P (pos 0) w)).0 (steps P es (open_watch P (pos 0) w)).1
  unfolding open_watch subscribe
  steps-IsCurrent w es ids e numbered le alone empty latest =
      let (s, w₀) = open_watch P (pos 0) w in
      let (s', w') = steps P es (s, w₀) in
      let v = steps-IsServed es s w₀ alone (open_watch-IsServed P w ids e numbered le) in
      quiet-IsCurrent s' w' v empty latest
