-- ===== src/Client/Messages.antt =====
-- The messages of a topology against the rows that they are made of.
use shardman.Prelude.{
  ◌<◌, ◌≤◌, ◌≡◌, refl, ap, Bool, false, not, ◌&&◌, ◌||◌, inl, inr, Option, none, some, List, [],
  ◌∷◌, map, find, filter, All, arith, Bool-cases,
}
use shardman.Prelude.Int.{ℤ, pos, negsuc, pos_part, neg_part}
use shardman.Prelude.Text.{Text}
use shardman.Bucket.Routing.{RouteKind, RouteReason}
use shardman.Fsm.{State, active, sealed, state_eq}
use shardman.Store.Shard.{Shard, is_data, bucket_is, in_bucket, is_fresh}
use shardman.Store.Db.{Db}
use shardman.Store.Queries.{is_active_for, list_stale_actives, has_bucket, endpoint}
use shardman.Store.Promote.{Env}
use shardman.Resolve.Service.{write_result}
use shardman.Server.Topology.{ProtoShard, text_or_empty, shard_to_proto, wrap32, wrap32?}
use shardman.Client.Local.{is_active_in, local_write_result, shard_endpoint}

abbrev pub IsInt32 : ℤ → Type 0
IsInt32 a = (pos_part a < 2147483648) × (neg_part a ≤ 2147483648)

wrap32_fits : (a : ℤ) → IsInt32 a → wrap32 a ≡ a
unfolding wrap32
wrap32_fits (pos a) h = ground arith
wrap32_fits (negsuc a) h = ground arith

abbrev pub FitsInt32 : Option ℤ → Type 0
FitsInt32 none = Unit {0}
FitsInt32 (some a) = IsInt32 a

pub wrap32?_fits : (o : Option ℤ) → FitsInt32 o → wrap32? o ≡ o
unfolding wrap32?
wrap32?_fits none h = refl
wrap32?_fits (some a) h = rw (wrap32_fits a h) refl

-- The message about a shard gives the same answer as its row.
pub endpoint_same :
    (s : Shard) (url : Option Text)
    → s.advertise_url ≡ url
    → shard_endpoint (shard_to_proto s) ≡ endpoint s.advertise_url s.dsn
unfolding shard_endpoint shard_to_proto text_or_empty endpoint
endpoint_same s none e = rw e refl
endpoint_same s (some []) e = rw e refl
endpoint_same s (some (c ∷ u)) e = rw e refl

pub result_same :
    (kind : RouteKind) (b : Text) (reason : RouteReason) (s : Shard)
    → local_write_result kind b reason (shard_to_proto s) ≡ write_result kind b reason s
unfolding local_write_result write_result shard_to_proto
result_same kind b reason s =
    ap (λ (t : Text). record (write_result kind b reason s) { endpoint_of = t })
      (endpoint_same s s.advertise_url refl)

abbrev pub with_row : Option Shard → Option ProtoShard
with_row none = none
with_row (some s) = some (shard_to_proto s)

-- A search among the messages is a search among the rows.
pub find-proto :
    (p : ProtoShard → Bool) (q : Shard → Bool) (xs : List Shard)
    → All (λ s. p (shard_to_proto s) ≡ q s) xs
    → find p (map shard_to_proto xs) ≡ with_row (find q xs)
unfolding find
find-proto p q [] h = refl
find-proto p q (s ∷ xs) h = elim (Bool-cases (q s)) [
  | inl t ↦ rw (h.0, t) refl
  | inr f ↦ rw (h.0, f) (find-proto p q xs h.1)
]

unfoldable pub IsNotStale : Env → Shard → Type 0
unfolding has_bucket
IsNotStale env s =
    (is_data s.role
      && state_eq s.state active
      && has_bucket s.bucket_id
      && not (is_fresh env.now env.timeout s.last_seen_at))
    ≡ false

-- A data shard in one of the states has a bucket.
unfoldable pub HasBucketIn : (State → Bool) → Shard → Type 0
unfolding has_bucket
HasBucketIn p s = (is_data s.role && p s.state && not (has_bucket s.bucket_id)) ≡ false

unfoldable pub serves_writes : State → Bool
serves_writes st = state_eq st active

unfoldable pub serves_reads : State → Bool
serves_reads st = state_eq st active || state_eq st sealed

filter-empty :
    {A : Type 0} (p : A → Bool) (xs : List A) → filter p xs ≡ [] → All (λ a. p a ≡ false) xs
unfolding filter
filter-empty p [] e = tt
filter-empty p (x ∷ xs) e = elim (Bool-cases (p x)) [
  | inl t ↦ absurd (cc (rw t at e))
  | inr f ↦ (f, filter-empty p xs (rw f at e))
]

pub none_stale :
    (env : Env) (d : Db)
    → list_stale_actives env.now env.timeout d ≡ []
    → All (IsNotStale env) d.shards
unfolding list_stale_actives IsNotStale
none_stale env d e = filter-empty _ d.shards e

pub active_same :
    (env : Env) (b : Text) (s : Shard) (bucket : Option Text)
    → s.bucket_id ≡ bucket
    → HasBucketIn serves_writes s
    → IsNotStale env s
    → is_active_in b (shard_to_proto s) ≡ is_active_for env.now env.timeout b s
unfolding is_active_in shard_to_proto text_or_empty is_active_for in_bucket bucket_is HasBucketIn
    serves_writes IsNotStale has_bucket state_eq
active_same env b s none e placed fresh = ground arith
active_same env b s (some c) e placed fresh = ground arith

pub error_same : (s : Shard) → not (is_data (shard_to_proto s).role) ≡ not (is_data s.role)
unfolding shard_to_proto
error_same s = refl
