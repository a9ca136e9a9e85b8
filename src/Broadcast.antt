-- ===== src/Broadcast.antt =====
-- internal/topology/broadcast.go: the versions that the server announces to the Watch streams. A
-- method holds the lock from start to end, so each is one step. A channel has room for one number;
-- the key of a subscriber in the map is its channel, here the number under which it was made.
pub mod Channels
use shardman.Prelude.{
  ℕ, ◌+◌, ◌==◌, not, Bool, true, false, Option, none, some, List, [], ◌∷◌, ◌++◌, map, find, filter,
  if◌then◌else◌,
}

pub record Subscriber : Type 0 where
  pub channel : ℕ
  pub pending : Option ℕ

pub record Broadcast : Type 0 where
  pub version : ℕ
  pub subs : List Subscriber
  pub next_channel : ℕ

abbrev pub new_broadcast : Broadcast
new_broadcast = record { version = 0; subs = []; next_channel = 0 }

-- `select { case ch <- version: default: }`: a full channel keeps what it holds.
abbrev pub offer : ℕ → Option ℕ → Option ℕ
offer v none = some v
offer v (some w) = some w

unfoldable pub offer_to : ℕ → Subscriber → Subscriber
offer_to v s = record s { pending = offer v s.pending }

unfoldable pub notify : ℕ → Broadcast → Broadcast
unfolding offer_to
notify v b = record b { version = v; subs = map (offer_to v) b.subs }

-- The new channel and the version of the moment; unsubscribing is a method of its own here.
unfoldable pub subscribe : Broadcast → (ℕ × ℕ) × Broadcast
subscribe b = (
  (b.next_channel, b.version),
  record b {
    subs = b.subs ++ (record { channel = b.next_channel; pending = none } ∷ []);
    next_channel = b.next_channel + 1;
  },
)

unfoldable pub unsubscribe : ℕ → Broadcast → Broadcast
unsubscribe c b = record b { subs = filter (λ s. not (s.channel == c)) b.subs }

-- What a channel holds; `none` for a channel that is not subscribed.
unfoldable pub channel_of : ℕ → Broadcast → Option Subscriber
channel_of c b = find (λ s. s.channel == c) b.subs

-- `<-ch`, for a channel that holds a number: it is empty afterwards.
unfoldable pub take_from : ℕ → Subscriber → Subscriber
take_from c s = if s.channel == c then record s { pending = none } else s

unfoldable pub receive : ℕ → Broadcast → Broadcast
unfolding take_from
receive c b = record b { subs = map (take_from c) b.subs }
