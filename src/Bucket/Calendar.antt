-- ===== src/Bucket/Calendar.antt =====
-- The calendar of Go's time package, as far as internal/bucket/bucket.go formats and parses
-- instants: seconds since 1970 in UTC, over the proleptic Gregorian calendar.
use shardman.Prelude.{
  ℕ, zero, suc, ◌+◌, ◌-◌, ◌*◌, ◌/◌, ◌%◌, ◌==◌, ltb, leb, Bool, true, false, not, ◌&&◌, ◌||◌, Option,
  none, some, [], ◌∷◌, ◌++◌, if◌then◌else◌,
}
use shardman.Prelude.Int.{ℤ, pos, negsuc, ◌+ℤ◌, ◌-ℤ◌, ◌*ℤ◌, div_floor, mod_floor}
use shardman.Prelude.Text.{Text}
use shardman.Bucket.Decimal.{padded, is_digit}

pub record Date : Type 0 where
  pub year : ℤ
  pub month : ℕ
  pub day : ℕ

-- Years here begin in March, so that a leap day is the last of its year: the day of an era of 400
-- years, then the year of the era, the day of the year, and the month.
year_of_era : ℕ → ℕ
year_of_era doe = (doe - doe / 1460 + doe / 36524 - doe / 146096) / 365

day_of_year : ℕ → ℕ → ℕ
day_of_year doe yoe = doe - (365 * yoe + yoe / 4 - yoe / 100)

march_month : ℕ → ℕ
march_month doy = (5 * doy + 2) / 153

calendar_month : ℕ → ℕ
calendar_month mp = if ltb mp 10 then mp + 3 else mp - 9

-- The date of a day, counted from 1 January 1970.
unfoldable pub civil_from_days : ℤ → Date
unfolding year_of_era day_of_year march_month calendar_month ◌+ℤ◌ ◌*ℤ◌
civil_from_days days =
    let shifted = days +ℤ pos 719468 in
    let doe = mod_floor shifted 146097 in
    let yoe = year_of_era doe in
    let doy = day_of_year doe yoe in
    let mp = march_month doy in
    let month = calendar_month mp in
    let year = div_floor shifted 146097 *ℤ pos 400 +ℤ pos yoe in
    record {
      year = if leb month 2 then year +ℤ pos 1 else year;
      month = month;
      day = doy - (153 * mp + 2) / 5 + 1;
    }

unfoldable pub days_from_civil : Date → ℤ
unfolding ◌+ℤ◌ ◌-ℤ◌ ◌*ℤ◌
days_from_civil d =
    let year = if leb d.month 2 then d.year -ℤ pos 1 else d.year in
    let yoe = mod_floor year 400 in
    let mp = if ltb 2 d.month then d.month - 3 else d.month + 9 in
    let doy = (153 * mp + 2) / 5 + d.day - 1 in
    let doe = yoe * 365 + yoe / 4 - yoe / 100 + doy in
    div_floor year 400 *ℤ pos 146097 +ℤ pos doe -ℤ pos 719468

is_leap : ℕ → Bool
is_leap y = (y % 4 == 0) && (not (y % 100 == 0) || (y % 400 == 0))

unfoldable pub days_in : ℕ → ℕ → Bool → ℕ
days_in month year leap =
    if month == 2
    then (if leap then 29 else 28)
    else (if month == 4 || month == 6 || month == 9 || month == 11 then 30 else 31)

-- Go prints a year with four digits at least, behind its sign.
unfoldable pub format_year : ℤ → Text
format_year (pos n) = padded 4 n
format_year (negsuc n) = b'-' ∷ padded 4 (suc n)

unfoldable pub format_month : Date → Text
format_month d = format_year d.year ++ (b'-' ∷ padded 2 d.month)

unfoldable pub format_date : Date → Text
format_date d = format_month d ++ (b'-' ∷ padded 2 d.day)

-- The day and the hour of an instant.
unfoldable pub day_number : ℤ → ℤ
day_number t = div_floor t 86400

hour_of : ℤ → ℕ
hour_of t = mod_floor t 86400 / 3600

-- t.Format("2006-01"), t.Format("2006-01-02") and t.Format("2006-01-02T15").
pub format_as_month : ℤ → Text
format_as_month t = format_month (civil_from_days (day_number t))

unfoldable pub format_as_day : ℤ → Text
format_as_day t = format_date (civil_from_days (day_number t))

pub format_as_hour : ℤ → Text
format_as_hour t = format_as_day t ++ (b'T' ∷ padded 2 (hour_of t))

-- A number of exactly so many digits, and the rest.
take_digits : ℕ → ℕ → Text → Option (ℕ × Text)
take_digits zero acc s = some (acc, s)
take_digits (suc n) acc [] = none
take_digits (suc n) acc (c ∷ s) =
    let rest = take_digits n (acc * 10 + (c - 48)) s in if is_digit c then rest else none

take_char : ℕ → Text → Option Text
take_char c [] = none
take_char c (x ∷ s) = if x == c then some s else none

infixl 5 ◌>>=◌ ◌>>◌
abbrev ◌>>=◌ {ℓ κ} : {A : Type ℓ} {B : Type κ} → Option A → (A → Option B) → Option B
none >>= f = none
some a >>= f = f a

abbrev require : Bool → Option (Unit {0})
require true = some tt
require false = none

abbrev ◌>>◌ {ℓ} : {B : Type ℓ} → Option (Unit {0}) → Option B → Option B
m >> k = m >>= λ _. k

-- The month of a text that begins with "2006-01".
parse_month_prefix : Text → Option (ℕ × ℕ × Text)
unfolding take_digits take_char
parse_month_prefix s = do
  (year, s₁) ← take_digits 4 0 s
  s₂ ← take_char b'-' s₁
  (month, s₃) ← take_digits 2 0 s₂
  require (ltb 0 month && leb month 12)
  some (year, month, s₃)

parse_date_prefix : Text → Option (ℤ × Text)
unfolding parse_month_prefix take_digits take_char is_leap
parse_date_prefix s = do
  (year, month, s₁) ← parse_month_prefix s
  s₂ ← take_char b'-' s₁
  (day, s₃) ← take_digits 2 0 s₂
  require (ltb 0 day && leb day (days_in month year (is_leap year)))
  some (days_from_civil (record { year = pos year; month = month; day = day }), s₃)

-- "15": one digit or two.
parse_hour : Text → Option ℕ
parse_hour [] = none
parse_hour (a ∷ []) = if is_digit a then some (a - 48) else none
parse_hour (a ∷ b ∷ []) =
    let h = (a - 48) * 10 + (b - 48) in
    if is_digit a && is_digit b && ltb h 24 then some h else none
parse_hour (a ∷ b ∷ c ∷ s) = none

at_end : Text → Option (Unit {0})
at_end [] = some tt
at_end (c ∷ s) = none

-- time.Parse with the layouts "2006-01", "2006-01-02" and "2006-01-02T15": seconds since 1970.
pub parse_as_month : Text → Option ℤ
unfolding parse_month_prefix at_end ◌*ℤ◌
parse_as_month s = do
  (year, month, s₁) ← parse_month_prefix s
  at_end s₁
  some (days_from_civil (record { year = pos year; month = month; day = 1 }) *ℤ pos 86400)

unfoldable pub parse_as_day : Text → Option ℤ
unfolding parse_date_prefix at_end ◌*ℤ◌
parse_as_day s = do (days, s₁) ← parse_date_prefix s; at_end s₁; some (days *ℤ pos 86400)

unfoldable pub parse_as_hour : Text → Option ℤ
unfolding parse_date_prefix parse_hour ◌*ℤ◌ ◌+ℤ◌
parse_as_hour s = do
  (days, s₁) ← parse_date_prefix s
  s₂ ← take_char b'T' s₁
  hour ← parse_hour s₂
  some (days *ℤ pos 86400 +ℤ pos (hour * 3600))
