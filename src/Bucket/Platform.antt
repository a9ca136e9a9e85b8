-- ===== src/Bucket/Platform.antt =====
-- What internal/bucket takes from packages outside the repository, and from the parts of the Go
-- library that it passes values through unseen: floating point, Unicode case, JSON, the RFC 3339
-- grammar, and the hash; and PostgreSQL's JSONB.
use shardman.Prelude.{ℕ, Bool, Option}
use shardman.Prelude.Int.{ℤ}
use shardman.Prelude.Text.{Text}

pub record Platform : Type 1 where
  -- float64, int64(v), v == float64(int64(v)), v > n and FormatFloat(v, 'g', -1, 64)
  pub Float : Type 0
  pub float_to_int64 : Float → ℤ
  pub float_is_int64 : Float → Bool
  pub float_exceeds : Float → ℤ → Bool
  pub format_float : Float → Text
  -- strings.ToLower
  pub to_lower : Text → Text
  -- time.Parse(time.RFC3339, s), as seconds since 1970
  pub parse_rfc3339 : Text → Option ℤ
  -- xxhash.Sum64String
  pub sum64 : Text → ℕ
  -- json.Unmarshal into the three bodies of ParseSpec
  pub unmarshal_unit : Text → Option Text
  pub unmarshal_width : Text → Option ℤ
  pub unmarshal_hash : Text → Option (ℤ × Text)
  -- what a JSONB column gives back of a text that is written to it; PostgreSQL may refuse the text
  pub jsonb : Text → Option Text
