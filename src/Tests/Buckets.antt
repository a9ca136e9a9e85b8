-- ===== src/Tests/Buckets.antt =====
-- The theorems on buckets at concrete keys.
use shardman.Prelude.{
  ℕ, ◌+◌, ◌-◌, ◌%◌, length, ◌≡◌, refl, ◌↔◌, true, some, List, [], ◌∷◌, any, arith,
}
use shardman.Prelude.Int.{ℤ, ◌-ℤ◌, ◌+ℤ◌, pos, pos_part, negsuc, div_floor}
use shardman.Prelude.Text.{Text, codes, text_eq}
use shardman.Prelude.Results.{ok}
use shardman.Bucket.Spec.{
  Spec, other_unit, parse_spec-is_usable, xxhash64, parse_spec, is_usable, numeric, time,
}
use shardman.Bucket.Decimal.{padded, digits, is_digit}
use shardman.Bucket.Calendar.{
  format_as_day, format_date, format_month, format_year, civil_from_days, day_number, parse_as_day,
  days_in, days_from_civil,
}
use shardman.Bucket.Key.{
  parse_time_key, seconds_or_millis, ShardKey, int64, string, parse_numeric_key, stringify_key,
}
use shardman.Bucket.Id.{
  time_id, time_id_for, bucket_id, index, current_id, numeric_index, digit_width, hash_id,
}
use shardman.Bucket.Routing.Accepted.{IsAccepted, validate_bootstrap-IsAccepted}
use shardman.Bucket.Routing.{
  range_mode, validate_bootstrap, WriteRoute, evicted, error_route, classify_write,
  buckets_outside_retention,
}
use shardman.Bucket.Width.{IsWidth, digit_width-IsWidth, hash_id-length}
use shardman.Bucket.Window.{Routes, classify_write-Routes}
use shardman.Bucket.Eviction.{outside-evicted}
use shardman.Bucket.Partition.{
  numeric_index-floor, numeric_index-wraps, bucket_id_numeric, bucket_id_hash,
}
use shardman.Tests.Cluster.{platform, spec_of_days, spec_of_hundreds, spec_of_hashes, today}

abbrev noon : ℤ
noon = pos 1704456000

abbrev noon_key : ShardKey platform
noon_key = int64 noon

-- A month before.
abbrev old_key : ShardKey platform
old_key = int64 (pos 1701777600)

abbrev old_day : Text
old_day = codes "2023-12-05"

old_id : bucket_id platform spec_of_days old_key ≡ ok old_day
unfolding bucket_id parse_time_key seconds_or_millis time_id time_id_for format_as_day format_date
    format_month format_year civil_from_days day_number padded digits
old_id = refl

old_index : index spec_of_days old_day ≡ ok (pos 19696)
unfolding index parse_as_day is_digit days_in days_from_civil
old_index = refl

today_id : bucket_id platform spec_of_days noon_key ≡ ok today
unfolding bucket_id parse_time_key seconds_or_millis time_id time_id_for format_as_day format_date
    format_month format_year civil_from_days day_number padded digits
today_id = refl

current_today : current_id spec_of_days noon ≡ ok today
unfolding current_id time_id time_id_for format_as_day format_date format_month format_year
    civil_from_days day_number padded digits
current_today = refl

indexed_today : index spec_of_days today ≡ ok (pos 19727)
unfolding index parse_as_day is_digit days_in days_from_civil
indexed_today = refl

-- Today's window of three buckets back and one ahead.
classify_write-Routes_example :
    (r : WriteRoute) × (classify_write platform spec_of_days noon old_key (pos 3) (pos 1) ≡ ok r)
    × Routes old_day (pos 19696) (pos 19727) (pos 3) (pos 1) r
unfolding ◌-ℤ◌ ◌+ℤ◌
classify_write-Routes_example =
    classify_write-Routes platform spec_of_days noon old_key (pos 3) (pos 1) refl old_id old_index
      current_today indexed_today (omega arith)
      (record {
        below = (omega arith, omega arith);
        oldest = (omega arith, omega arith);
        newest = (omega arith, omega arith);
      })

outside-evicted_example :
    (bs : List Text) × (buckets_outside_retention spec_of_days noon (pos 3) (today ∷ old_day ∷ [])
      ≡ ok bs)
    × ((any (text_eq old_day) bs ≡ true) ↔ (
        (any (text_eq old_day) (today ∷ old_day ∷ []) ≡ true)
        × (classify_write platform spec_of_days noon old_key (pos 3) (pos 1)
            ≡ ok (error_route evicted))))
outside-evicted_example =
    outside-evicted platform spec_of_days noon old_key (pos 3) (pos 1) (today ∷ old_day ∷ []) refl
      old_id old_index current_today indexed_today

abbrev low_key : ShardKey platform
low_key = int64 (negsuc 0)

abbrev lower_key : ShardKey platform
lower_key = int64 (negsuc 99)

low_number : parse_numeric_key platform low_key ≡ ok (negsuc 0)
unfolding parse_numeric_key
low_number = refl

lower_number : parse_numeric_key platform lower_key ≡ ok (negsuc 99)
unfolding parse_numeric_key
lower_number = refl

bucket_id_numeric_example :
    (bucket_id platform spec_of_hundreds low_key ≡ bucket_id platform spec_of_hundreds lower_key)
    ↔ (div_floor (negsuc 0) 100 ≡ div_floor (negsuc 99) 100)
bucket_id_numeric_example =
    bucket_id_numeric platform spec_of_hundreds 99 low_key lower_key (negsuc 0) (negsuc 99) refl
      refl (low_number, (omega arith, omega arith), omega arith)
      (lower_number, (omega arith, omega arith), omega arith)

abbrev short_key : ShardKey platform
short_key = string (codes "a")

abbrev long_key : ShardKey platform
long_key = string (codes "abcdefghi")

short_text : stringify_key platform short_key ≡ ok (codes "a")
unfolding stringify_key
short_text = refl

long_text : stringify_key platform long_key ≡ ok (codes "abcdefghi")
unfolding stringify_key
long_text = refl

same_algo : text_eq spec_of_hashes.hash_algo xxhash64 ≡ true
unfolding text_eq
same_algo = refl

bucket_id_hash_example :
    (bucket_id platform spec_of_hashes short_key ≡ bucket_id platform spec_of_hashes long_key) ↔ (
      platform.sum64 (codes "a") % pos_part spec_of_hashes.bucket_count
      ≡ platform.sum64 (codes "abcdefghi") % pos_part spec_of_hashes.bucket_count)
bucket_id_hash_example =
    bucket_id_hash platform spec_of_hashes short_key long_key refl same_algo short_text long_text

numeric_index-floor_example : numeric_index (pos 100) (negsuc 99) ≡ div_floor (negsuc 99) 100
numeric_index-floor_example = numeric_index-floor 99 (negsuc 99) (omega arith)

-- The least int64 with a width of two.
numeric_index-wraps_example : (i : ℕ) × (numeric_index (pos 2) (negsuc 9223372036854775807) ≡ pos i)
numeric_index-wraps_example =
    numeric_index-wraps 1 9223372036854775807 (omega arith) (omega arith) (omega arith)

abbrev parsed : Spec
parsed = record {
  axis = numeric;
  time_unit = other_unit [];
  width = pos 100;
  bucket_count = pos 0;
  hash_algo = [];
  raw = codes "{}";
}

parses : parse_spec platform numeric (codes "{}") ≡ ok parsed
unfolding parse_spec
parses = refl

parse_spec-is_usable_example : (is_usable parsed ≡ true) × (parsed.axis ≡ numeric)
parse_spec-is_usable_example = parse_spec-is_usable platform numeric (codes "{}") parses

digit_width-IsWidth_example : IsWidth 1023 (digit_width 1023)
digit_width-IsWidth_example = digit_width-IsWidth 1023

hash_id-length_example : length (hash_id 77 1024) ≡ 1 + digit_width (1024 - 1)
hash_id-length_example = hash_id-length 77 1024 (omega arith)

validate_bootstrap-IsAccepted_example :
    (validate_bootstrap range_mode time (some (pos 3)) (some (pos 1)) ≡ ok tt)
    ↔ IsAccepted range_mode time (some (pos 3)) (some (pos 1))
validate_bootstrap-IsAccepted_example =
    validate_bootstrap-IsAccepted range_mode time (some (pos 3)) (some (pos 1))
