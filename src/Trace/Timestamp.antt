-- ===== src/Trace/Timestamp.antt =====
-- atasks/trace.py, `_format_ts`: what `datetime.fromtimestamp` in UTC and `strftime` do with a
-- timestamp, for which the years after 9999 are out of range.
pub mod Calendar
use Prim.Native.Nat.{◌/◌, ◌%◌}
use atasks.Prelude.{
  ℕ, zero, suc, ◌+◌, ◌-◌, String, ◌<>◌, Bool, not, ◌&&◌, ◌||◌, List, [], ◌∷◌, ltb, nat_eq,
  if◌then◌else◌,
}
use atasks.Prelude.Text.{drop_end}
use atasks.Errors.{Outcome, returned, raised, refuse}
use atasks.Prelude.Text.Decimal.{padded}

unfoldable pub is_leap : ℕ → Bool
is_leap y = nat_eq (y % 4) 0 && (not (nat_eq (y % 100) 0) || nat_eq (y % 400) 0)

unfoldable pub year_length : ℕ → ℕ
year_length y = if is_leap y then 366 else 365

unfoldable pub month_lengths : ℕ → List ℕ
month_lengths y =
    31 ∷ (if is_leap y then 29 else 28) ∷ 31 ∷ 30 ∷ 31 ∷ 30 ∷ 31 ∷ 31 ∷ 30 ∷ 31 ∷ 30 ∷ 31 ∷ []

-- The year of a day counted from the first of January of a year, and its number in that year.
unfoldable pub find_year : ℕ → ℕ → ℕ → ℕ × ℕ
find_year zero y d = (y, d)
find_year (suc fuel) y d =
    let later = find_year fuel (suc y) (d - year_length y) in
    if ltb d (year_length y) then (y, d) else later

unfoldable pub find_month : List ℕ → ℕ → ℕ → ℕ × ℕ
find_month [] m d = (m, d)
find_month (len ∷ lens) m d =
    let later = find_month lens (suc m) (d - len) in if ltb d len then (m, d) else later

pub record Datetime : Type 0 where
  pub year : ℕ
  pub month : ℕ
  pub day : ℕ
  pub hour : ℕ
  pub minute : ℕ
  pub second : ℕ
  pub microsecond : ℕ

-- The microseconds from the beginning of 1970 to the end of the year 9999.
abbrev pub timestamp_limit : ℕ
timestamp_limit = 253402300800000000

-- The date and the time in UTC. A year has 365 days at least.
unfoldable pub utc : ℕ → Datetime
utc ts =
    let seconds = ts / 1000000 in
    let days = seconds / 86400 in
    let year_day = find_year (suc (days / 365)) 1970 days in
    let month_day = find_month (month_lengths year_day.0) 1 year_day.1 in
    record {
      year = year_day.0;
      month = month_day.0;
      day = suc month_day.1;
      hour = seconds / 3600 % 24;
      minute = seconds / 60 % 60;
      second = seconds % 60;
      microsecond = ts % 1000000;
    }

-- `datetime.fromtimestamp(ts, tz=timezone.utc)`
unfoldable pub fromtimestamp : ℕ → Outcome Datetime
fromtimestamp ts =
    if ltb ts timestamp_limit then returned (utc ts) else refuse "year is out of range"

abbrev pub to_seconds : Datetime → String
to_seconds t =
    padded 4 t.year
    <> ("-"
        <> (padded 2 t.month
            <> ("-"
                <> (padded 2 t.day
                    <> (" "
                        <> (padded 2 t.hour
                            <> (":"
                                <> (padded 2 t.minute <> (":" <> (padded 2 t.second <> "."))))))))))

-- `t.strftime('%Y-%m-%d %H:%M:%S.%f')`
unfoldable pub strftime : Datetime → String
strftime t = to_seconds t <> padded 6 t.microsecond

unfoldable pub to_milliseconds : Datetime → String
to_milliseconds t = drop_end 3 (strftime t) <> "Z"

unfoldable pub format_ts : ℕ → Outcome String
format_ts ts = elim (fromtimestamp ts) [
  | raised e ↦ raised e
  | returned t ↦ returned (to_milliseconds t)
]
