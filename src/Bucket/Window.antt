-- ===== src/Bucket/Window.antt =====
-- The time window of internal/bucket/routing.go: which buckets take writes, and which retention
-- clears.
use shardman.Prelude.{
  zero, suc, ◌+◌, ◌<◌, ◌≢◌, ◌≡◌, refl, sym, subst, true, false, inl, inr, arith, Bool-cases,
}
use shardman.Prelude.Int.{
  ℤ, pos, negsuc, pos_part, neg_part, ltb_ℤ, ◌+ℤ◌, ◌-ℤ◌, ◌≤ℤ◌, wrap64_fits, IsInt64, int_laws,
}
use shardman.Prelude.Text.{Text}
use shardman.Prelude.Results.{ok, ◌>>=◌}
use shardman.Bucket.Platform.{Platform}
use shardman.Bucket.Spec.{time, Spec}
use shardman.Bucket.Key.{ShardKey}
use shardman.Bucket.Id.{bucket_id, current_id, index}
use shardman.Bucket.Routing.{
  future_disallowed, future_too_far, evicted, WriteRoute, error_route, bucket_route, or_invalid,
  oldest_index, classify_ahead, classify_index, classify_for, classify_write,
}

-- The bounds of the window fit into an int64.
pub record Fits (current depth max_future : ℤ) : Type 0 where
  pub below : IsInt64 (current -ℤ depth)
  pub oldest : IsInt64 (current -ℤ depth +ℤ pos 1)
  pub newest : IsInt64 (current +ℤ max_future)

-- What the sharding model promises of a key whose bucket has the index `target`: the last `depth`
-- buckets and the next `max_future` take it, and all others go to the error shard.
pub data Routes (b : Text) (target current depth max_future : ℤ) (r : WriteRoute) : Type 0 where
  too_old :
      target +ℤ depth ≤ℤ current
      → r ≡ error_route evicted
      → Routes b target current depth max_future r
  inside :
      current +ℤ pos 1 ≤ℤ target +ℤ depth
      → target ≤ℤ current +ℤ max_future
      → r ≡ bucket_route b
      → Routes b target current depth max_future r
  no_future :
      current +ℤ pos 1 ≤ℤ target
      → max_future ≡ pos 0
      → r ≡ error_route future_disallowed
      → Routes b target current depth max_future r
  too_far :
      current +ℤ max_future +ℤ pos 1 ≤ℤ target
      → max_future ≢ pos 0
      → r ≡ error_route future_too_far
      → Routes b target current depth max_future r

oldest_index_lem :
    (current depth : ℤ)
    → IsInt64 (current -ℤ depth)
    → IsInt64 (current -ℤ depth +ℤ pos 1)
    → oldest_index current depth ≡ current -ℤ depth +ℤ pos 1
unfolding oldest_index
oldest_index_lem current depth h k = rw (wrap64_fits (current -ℤ depth) h) (wrap64_fits _ k)

ltb_ℤ-lt : (a b : ℤ) → ltb_ℤ a b ≡ true → a +ℤ pos 1 ≤ℤ b
ltb_ℤ-lt a b h =
    let k : pos_part a + neg_part b < pos_part b + neg_part a = ground arith in omega (int_laws)

ltb_ℤ-le : (a b : ℤ) → ltb_ℤ a b ≡ false → b ≤ℤ a
ltb_ℤ-le a b h = ground arith

classify_ahead-Routes :
    (b : Text) (target current depth max_future : ℤ)
    → current +ℤ pos 1 ≤ℤ target
    → current +ℤ pos 1 ≤ℤ target +ℤ depth
    → pos 0 ≤ℤ max_future
    → IsInt64 (current +ℤ max_future)
    → Routes b target current depth max_future (classify_ahead b target current max_future)
unfolding classify_ahead
classify_ahead-Routes b target current depth (pos zero) h k future fits = no_future h refl refl
classify_ahead-Routes b target current depth (pos (suc n)) h k future fits =
    rw (wrap64_fits (current +ℤ pos (suc n)) fits)
      (elim (Bool-cases (ltb_ℤ (current +ℤ pos (suc n)) target)) [
        | inl far ↦
            let j = ltb_ℤ-lt (current +ℤ pos (suc n)) target far in
            rw far (too_far j (λ e. cc) refl)
        | inr near ↦
            let j = ltb_ℤ-le (current +ℤ pos (suc n)) target near in rw near (inside k j refl)
      ])
classify_ahead-Routes b target current depth (negsuc n) h k future fits = absurd (omega arith)

classify_index-Routes :
    (b : Text) (target current depth max_future : ℤ)
    → pos 0 ≤ℤ max_future
    → Fits current depth max_future
    → Routes b target current depth max_future (classify_index b target current depth max_future)
unfolding classify_index
classify_index-Routes b target current depth max_future future fits =
    rw (oldest_index_lem current depth fits.below fits.oldest)
      (elim (Bool-cases (ltb_ℤ target (current -ℤ depth +ℤ pos 1))) [
        | inl old ↦ rw old (too_old (let k = ltb_ℤ-lt target _ old in omega int_laws) refl)
        | inr kept ↦
            let k = ltb_ℤ-le target _ kept in
            rw kept (elim (Bool-cases (ltb_ℤ current target)) [
              | inr past ↦
                  let j = ltb_ℤ-le current target past in
                  rw past (inside (omega int_laws) (omega int_laws) refl)
              | inl ahead ↦
                  let j = ltb_ℤ-lt current target ahead in
                  rw ahead (
                    classify_ahead-Routes b target current depth max_future j (omega int_laws)
                      future fits.newest)
            ])
      ])

-- ClassifyWrite on the time axis, with its four steps taken.
module _ (P : Platform) (s : Spec) (now : ℤ) (key : ShardKey P) (depth max_future : ℤ) {b cb : Text}
    {target current : ℤ} (axis : s.axis ≡ time) (target_id : bucket_id P s key ≡ ok b)
    (target_index : index s b ≡ ok target) (clock_id : current_id s now ≡ ok cb)
    (clock_index : index s cb ≡ ok current) where
  classify_time :
      classify_for P time s now key depth max_future
      ≡ ok (classify_index b target current depth max_future)
  unfolding classify_for
  classify_time = rw (target_id, or_invalid, clock_id, ◌>>=◌, target_index, clock_index) refl

  pub classify_write_time :
      classify_write P s now key depth max_future
      ≡ ok (classify_index b target current depth max_future)
  unfolding classify_write
  classify_write_time =
      subst
        (λ a.
          classify_for P a s now key depth max_future
          ≡ ok (classify_index b target current depth max_future))
        (sym axis) classify_time

  -- On the time axis, where the bucket of the key and the current bucket have an id and an index,
  -- `max_future` is not negative and the bounds of the window fit into an int64: a key is routed to
  -- its own bucket if that is one of the last `depth` buckets or of the next `max_future`, and
  -- otherwise to the error shard, for the reason that applies.
  pub classify_write-Routes :
      pos 0 ≤ℤ max_future
      → Fits current depth max_future
      → (r : WriteRoute) × (classify_write P s now key depth max_future ≡ ok r)
        × Routes b target current depth max_future r
  classify_write-Routes future fits = (
    classify_index b target current depth max_future,
    classify_write_time,
    classify_index-Routes b target current depth max_future future fits,
  )
