-- ===== src/Broadcast/Channels.antt =====
-- What the steps of a broadcast do to one channel.
use shardman.Prelude.{
  ℕ, ◌≡◌, ◌≢◌, ◌==◌, ◌<◌, All, refl, Bool, false, not, inl, inr, Option, none, some, List, [], ◌∷◌,
  ◌++◌, map, find, filter, Bool-cases, arith,
}
use shardman.Broadcast.{
  Subscriber, Broadcast, offer, offer_to, notify, subscribe, unsubscribe, channel_of, take_from,
  receive,
}

-- A channel is subscribed, and holds `p`.
abbrev pub Holds : ℕ → Option ℕ → Broadcast → Type 0
Holds c p b = channel_of c b ≡ some (record { channel = c; pending = p })

module _ (c : ℕ) where
  abbrev is_channel : Subscriber → Bool
  is_channel s = s.channel == c

  offered :
      (v : ℕ) (xs : List Subscriber) {p : Option ℕ}
      → find is_channel xs ≡ some (record { channel = c; pending = p })
      → find is_channel (map (offer_to v) xs) ≡ some (record { channel = c; pending = offer v p })
  unfolding find offer_to
  offered v [] h = cc
  offered v (x ∷ xs) {p} h = elim (Bool-cases (x.channel == c)) [
    | inl t ↦
        let same : x ≡ record { channel = c; pending = p } = ground arith in rw t (rw same refl)
    | inr f ↦ rw f (offered v xs (rw f at h))
  ]

  appended :
      (xs ys : List Subscriber) {s : Subscriber}
      → find is_channel xs ≡ some s
      → find is_channel (xs ++ ys) ≡ some s
  unfolding find
  appended [] ys h = cc
  appended (x ∷ xs) ys h = elim (Bool-cases (x.channel == c)) [
    | inl t ↦ rw t (rw t at h)
    | inr f ↦ rw f (appended xs ys (rw f at h))
  ]

  filtered :
      (k : ℕ) (xs : List Subscriber) {s : Subscriber}
      → k ≢ c
      → find is_channel xs ≡ some s
      → find is_channel (filter (λ x. not (x.channel == k)) xs) ≡ some s
  unfolding find filter
  filtered k [] ne h = cc
  filtered k (x ∷ xs) ne h = elim (Bool-cases (x.channel == c)) [
    | inl t ↦ let kept : (x.channel == k) ≡ false = ground arith in rw kept (rw t (rw t at h))
    | inr f ↦ ground (arith, filtered k xs ne (rw f at h))
  ]

  taken :
      (xs : List Subscriber) {p : Option ℕ}
      → find is_channel xs ≡ some (record { channel = c; pending = p })
      → find is_channel (map (take_from c) xs) ≡ some (record { channel = c; pending = none })
  unfolding find take_from
  taken [] h = cc
  taken (x ∷ xs) {p} h = elim (Bool-cases (x.channel == c)) [
    | inl t ↦ let same : x ≡ record { channel = c; pending = p } = ground arith in ground arith
    | inr f ↦ rw (f, f) (taken xs (rw f at h))
  ]

  taken_elsewhere :
      (k : ℕ) (xs : List Subscriber) {s : Subscriber}
      → k ≢ c
      → find is_channel xs ≡ some s
      → find is_channel (map (take_from k) xs) ≡ some s
  unfolding find take_from
  taken_elsewhere k [] ne h = cc
  taken_elsewhere k (x ∷ xs) ne h = elim (Bool-cases (x.channel == c)) [
    | inl t ↦ let kept : (x.channel == k) ≡ false = ground arith in rw kept (rw t (rw t at h))
    | inr f ↦ ground (arith, taken_elsewhere k xs ne (rw f at h))
  ]

  fresh :
      (xs : List Subscriber)
      → All (λ s. s.channel < c) xs
      → find is_channel (xs ++ (record { channel = c; pending = none } ∷ []))
        ≡ some (record { channel = c; pending = none })
  unfolding find
  fresh [] h = ground arith
  fresh (x ∷ xs) h = let other : (x.channel == c) ≡ false = ground arith in rw other (fresh xs h.1)

-- Every channel is older than the next one.
abbrev pub IsNumbered : Broadcast → Type 0
IsNumbered b = All (λ s. s.channel < b.next_channel) b.subs

pub notify-Holds :
    (v c : ℕ) (b : Broadcast) {p : Option ℕ} → Holds c p b → Holds c (offer v p) (notify v b)
unfolding notify channel_of
notify-Holds v c b h = offered c v b.subs h

pub subscribe-Holds : (b : Broadcast) → IsNumbered b → Holds b.next_channel none (subscribe b).1
unfolding subscribe channel_of
subscribe-Holds b h = fresh b.next_channel b.subs h

pub subscribe-Holds_other :
    (c : ℕ) (b : Broadcast) {p : Option ℕ} → Holds c p b → Holds c p (subscribe b).1
unfolding subscribe channel_of
subscribe-Holds_other c b h = appended c b.subs _ h

pub unsubscribe-Holds :
    (k c : ℕ) (b : Broadcast) {p : Option ℕ} → k ≢ c → Holds c p b → Holds c p (unsubscribe k b)
unfolding unsubscribe channel_of
unsubscribe-Holds k c b ne h = filtered c k b.subs ne h

pub receive-Holds :
    (c : ℕ) (b : Broadcast) {p : Option ℕ} → Holds c p b → Holds c none (receive c b)
unfolding receive channel_of
receive-Holds c b h = taken c b.subs h

pub receive-Holds_other :
    (k c : ℕ) (b : Broadcast) {p : Option ℕ} → k ≢ c → Holds c p b → Holds c p (receive k b)
unfolding receive channel_of
receive-Holds_other k c b ne h = taken_elsewhere c k b.subs ne h
