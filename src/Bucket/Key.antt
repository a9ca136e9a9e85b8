-- ===== src/Bucket/Key.antt =====
-- Shard keys of internal/bucket/bucket.go: parseTimeKey, parseNumericKey, stringifyKey, hashKey.
use shardman.Prelude.{ℕ, Option, none, some, if◌then◌else◌}
use shardman.Prelude.Int.{ℤ, pos, ltb_ℤ, div_floor}
use shardman.Prelude.Text.{Text, text_eq}
use shardman.Prelude.Results.{
  Result, ok, err, ◌>>=◌, library_error, unsupported_shard_key, invalid_time_shard_key,
  unsupported_hash_algo,
}
use shardman.Bucket.Platform.{Platform}
use shardman.Bucket.Decimal.{format_int, parse_int, exact_value}
use shardman.Bucket.Calendar.{parse_as_day, parse_as_month}
use shardman.Bucket.Spec.{xxhash64}

-- unixSecondsYear3000
abbrev pub unix_seconds_year_3000 : ℤ
unix_seconds_year_3000 = pos 32536800000

-- time.UnixMilli, as whole seconds since 1970.
pub unix_milli : ℤ → ℤ
unix_milli ms = div_floor ms 1000

-- time.Unix(v, 0) or time.UnixMilli(v), by the size of the number.
unfoldable pub seconds_or_millis : ℤ → ℤ
unfolding unix_milli
seconds_or_millis v = if ltb_ℤ unix_seconds_year_3000 v then unix_milli v else v

or_invalid : Option ℤ → Result ℤ
or_invalid none = err invalid_time_shard_key
or_invalid (some v) = ok (seconds_or_millis v)

-- A parse that falls through to the next one.
abbrev or_else : Option ℤ → Result ℤ → Result ℤ
or_else none next = next
or_else (some t) next = ok t

module _ (P : Platform) where
  open P use {
    Float, float_to_int64, float_is_int64, float_exceeds, format_float, to_lower, parse_rfc3339,
    sum64,
  }

  -- The dynamic types of `any` that the switches name.
  pub data ShardKey : Type 0 where
    string : Text → ShardKey
    float64 : Float → ShardKey
    int64 int : ℤ → ShardKey
    json_number : Text → ShardKey
    other_type : ShardKey

  unfoldable pub parse_time_key : ShardKey → Result ℤ
  unfolding or_invalid
  parse_time_key (string v) = or_else (parse_rfc3339 v) (
      or_else (parse_as_day v)
        (or_else (parse_as_month v) (or_invalid (exact_value (parse_int v)))))
  parse_time_key (float64 v) =
      if float_exceeds v unix_seconds_year_3000
      then ok (unix_milli (float_to_int64 v))
      else ok (float_to_int64 v)
  parse_time_key (int64 v) = ok (seconds_or_millis v)
  parse_time_key (int v) = ok (seconds_or_millis v)
  parse_time_key (json_number v) = err unsupported_shard_key
  parse_time_key other_type = err unsupported_shard_key

  or_library_error : Option ℤ → Result ℤ
  or_library_error none = err library_error
  or_library_error (some n) = ok n

  unfoldable pub parse_numeric_key : ShardKey → Result ℤ
  unfolding or_library_error
  parse_numeric_key (float64 v) = ok (float_to_int64 v)
  parse_numeric_key (int64 v) = ok v
  parse_numeric_key (int v) = ok v
  parse_numeric_key (string v) = or_library_error (exact_value (parse_int v))
  parse_numeric_key (json_number v) = err unsupported_shard_key
  parse_numeric_key other_type = err unsupported_shard_key

  unfoldable pub stringify_key : ShardKey → Result Text
  stringify_key (string v) = ok (to_lower v)
  stringify_key (float64 v) =
      if float_is_int64 v then ok (format_int (float_to_int64 v)) else ok (format_float v)
  stringify_key (int64 v) = ok (format_int v)
  stringify_key (int v) = ok (format_int v)
  stringify_key (json_number v) = ok v
  stringify_key other_type = err unsupported_shard_key

  unfoldable pub hash_key : ShardKey → Text → Result ℕ
  hash_key key algo =
      if text_eq algo xxhash64
      then (stringify_key key >>= λ s. ok (sum64 s))
      else err unsupported_hash_algo
