-- ===== src/Bucket/Id.antt =====
-- Bucket ids of internal/bucket/bucket.go: ID, CurrentID, timeID, Index, IDFromIndex, MinShards.
use shardman.Prelude.{
  ℕ, zero, suc, ◌+◌, ◌-◌, ◌/◌, ◌%◌, ◌==◌, ltb, Option, none, some, List, [], ◌∷◌, ◌++◌,
  if◌then◌else◌,
}
use shardman.Prelude.Int.{ℤ, pos, pos_part, ltb_ℤ, quot, rem, ◌+ℤ◌, ◌-ℤ◌, ◌*ℤ◌, wrap64}
use shardman.Prelude.Text.{Text, codes}
use shardman.Prelude.Results.{
  Result, ok, err, ◌>>=◌, library_error, no_current_bucket, index_only_for_time_axis,
  invalid_month_bucket_id, unsupported_unit, unsupported_axis,
}
use shardman.Bucket.Platform.{Platform}
use shardman.Bucket.Decimal.{format_int, padded, sprintf_padded, parse_int, atoi_value}
use shardman.Bucket.Calendar.{
  format_as_hour, format_as_day, format_as_month, parse_as_hour, parse_as_day,
}
use shardman.Bucket.Spec.{
  Axis, time, numeric, hash, other_axis, TimeUnit, hour, day, month, other_unit, Spec,
}
use shardman.Bucket.Key.{ShardKey, parse_time_key, parse_numeric_key, hash_key}

abbrev pub error_bucket_id : Text
error_bucket_id = codes "__error__"

unfoldable pub time_id_for : TimeUnit → ℤ → Text
time_id_for hour t = format_as_hour t
time_id_for day t = format_as_day t
time_id_for month t = format_as_month t
time_id_for (other_unit u) t = format_as_day t

unfoldable pub time_id : Spec → ℤ → Text
time_id s t = time_id_for s.time_unit t

-- The index of a number: the quotient rounded down, computed with int64 arithmetic.
unfoldable pub numeric_index : ℤ → ℤ → ℤ
numeric_index width n =
    if ltb_ℤ n (pos 0) then quot (wrap64 (wrap64 (n -ℤ width) +ℤ pos 1)) width else quot n width

unfoldable pub digit_width_loop : ℕ → ℕ → ℕ → ℕ
digit_width_loop zero n w = w
digit_width_loop (suc fuel) n w =
    let more = digit_width_loop fuel (n / 10) (w + 1) in if ltb 0 n then more else w

-- Each round divides `n` by ten, so its value is fuel enough.
unfoldable pub digit_width : ℕ → ℕ
unfolding digit_width_loop
digit_width n = if ltb n 10 then 1 else digit_width_loop n n 0

-- `count` is the bucket count, which is positive.
unfoldable pub hash_id : ℕ → ℕ → Text
hash_id h count = b'h' ∷ padded (digit_width (count - 1)) (h % count)

module _ (P : Platform) where
  unfoldable pub id_for : Axis → Spec → ShardKey P → Result Text
  id_for time s key = parse_time_key P key >>= λ t. ok (time_id s t)
  id_for numeric s key =
      parse_numeric_key P key >>= λ n. ok (b'n' ∷ format_int (numeric_index s.width n))
  id_for hash s key = hash_key P key s.hash_algo >>= λ h. ok (hash_id h (pos_part s.bucket_count))
  id_for (other_axis a) s key = err unsupported_axis

  -- Spec.ID
  unfoldable pub bucket_id : Spec → ShardKey P → Result Text
  unfolding id_for
  bucket_id s key = id_for s.axis s key

current_id_for : Axis → Spec → ℤ → Result Text
current_id_for time s now = ok (time_id s now)
current_id_for numeric s now = err no_current_bucket
current_id_for hash s now = err no_current_bucket
current_id_for (other_axis a) s now = err unsupported_axis

-- Spec.CurrentID
unfoldable pub current_id : Spec → ℤ → Result Text
unfolding current_id_for
current_id s now = current_id_for s.axis s now

-- strings.Split(s, "-"): the part in front of the first dash, and the other parts.
split_dash : Text → Text × List Text
split_dash [] = ([], [])
split_dash (c ∷ s) = let (p, ps) = split_dash s in if c == b'-' then ([], p ∷ ps) else (c ∷ p, ps)

month_index : Text × List Text → Result ℤ
month_index (y, m ∷ []) = ok (
    wrap64
      (wrap64 (wrap64 (atoi_value (parse_int y) *ℤ pos 12) +ℤ atoi_value (parse_int m)) -ℤ pos 1))
month_index _ = err invalid_month_bucket_id

-- t.Unix() / seconds
unix_index : ℕ → Option ℤ → Result ℤ
unix_index seconds none = err library_error
unix_index seconds (some t) = ok (quot t (pos seconds))

unfoldable pub index_for : TimeUnit → Text → Result ℤ
unfolding split_dash month_index unix_index
index_for hour b = unix_index 3600 (parse_as_hour b)
index_for day b = unix_index 86400 (parse_as_day b)
index_for month b = month_index (split_dash b)
index_for (other_unit u) b = err unsupported_unit

unfoldable pub index_on : Axis → Spec → Text → Result ℤ
unfolding index_for
index_on time s b = index_for s.time_unit b
index_on _ s b = err index_only_for_time_axis

-- Spec.Index
unfoldable pub index : Spec → Text → Result ℤ
unfolding index_on
index s b = index_on s.axis s b

id_of_index : TimeUnit → ℤ → Result Text
id_of_index hour i = ok (format_as_hour (wrap64 (i *ℤ pos 3600)))
id_of_index day i = ok (format_as_day (wrap64 (i *ℤ pos 86400)))
id_of_index month i =
    ok (sprintf_padded 4 (quot i (pos 12)) ++ (b'-' ∷ sprintf_padded 2 (rem i (pos 12) +ℤ pos 1)))
id_of_index (other_unit u) i = err unsupported_unit

id_of_index_on : Axis → Spec → ℤ → Result Text
id_of_index_on time s i = id_of_index s.time_unit i
id_of_index_on _ s i = err index_only_for_time_axis

-- Spec.IDFromIndex
unfoldable id_from_index : Spec → ℤ → Result Text
unfolding id_of_index id_of_index_on
id_from_index s i = id_of_index_on s.axis s i

unfoldable pub min_shards : ℤ → ℤ → ℤ
min_shards retention_depth max_future = retention_depth +ℤ pos 1 +ℤ max_future +ℤ pos 1
