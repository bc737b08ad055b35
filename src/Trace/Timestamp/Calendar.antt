-- ===== src/Trace/Timestamp/Calendar.antt =====
-- The timestamps that are rendered against the calendar: days counted from the first of January of
-- the year 1.
use Prim.Native.Nat.{◌/◌, ◌%◌}
use text.Mathlib.TextLemmas.{append_assoc}
use atasks.Prelude.{
  ℕ, zero, suc, ◌+◌, ◌-◌, ◌*◌, ◌≤◌, ◌<◌, ◌<>◌, ◌≡◌, ap, sym, ◌∙◌, List, [], ◌∷◌, arith,
}
use atasks.Prelude.Text.{drop_end, drop_end-append}
use atasks.Prelude.Text.Decimal.{padded, padded-add, count-padded}
use atasks.Errors.{returned}
use atasks.Trace.Timestamp.{
  month_lengths, Datetime, fromtimestamp, to_seconds, strftime, format_ts, utc, timestamp_limit,
  to_milliseconds,
}

-- The days of all years before a year, and those of a year before one of its months.
unfoldable pub days_before_year : ℕ → ℕ
days_before_year y = 365 * (y - 1) + ((y - 1) / 4 + (y - 1) / 400 - (y - 1) / 100)

abbrev pub days_before_month : List ℕ → ℕ → ℕ
days_before_month [] m = 0
days_before_month (len ∷ lens) zero = 0
days_before_month (len ∷ lens) (suc m) = len + days_before_month lens m

abbrev pub total : List ℕ → ℕ
total [] = 0
total (len ∷ lens) = len + total lens

-- The length of a month, counted from 0.
abbrev pub month_length : List ℕ → ℕ → ℕ
month_length [] m = 0
month_length (len ∷ lens) zero = len
month_length (len ∷ lens) (suc m) = month_length lens m

-- A date and a time that there are.
pub record IsDatetime (t : Datetime) : Type 0 where
  since_1970 : 1970 ≤ t.year
  in_year : (1 ≤ t.month) × (t.month ≤ 12)
  in_month : (1 ≤ t.day) × (t.day ≤ month_length (month_lengths t.year) (t.month - 1))
  in_day : (t.hour < 24) × (t.minute < 60) × (t.second < 60) × (t.microsecond < 1000000)

-- The microseconds from the beginning of the year 1970.
unfoldable pub timestamp : Datetime → ℕ
timestamp t =
    let days =
      days_before_year t.year
      + days_before_month (month_lengths t.year) (t.month - 1)
      + (t.day - 1)
      - days_before_year 1970 in
    (((days * 24 + t.hour) * 60 + t.minute) * 60 + t.second) * 1000000 + t.microsecond

module _ (ts : ℕ) where
  pub to_milliseconds-utc :
      let t = utc ts in to_milliseconds t ≡ to_seconds t <> (padded 3 (t.microsecond / 1000) <> "Z")
  unfolding to_milliseconds strftime
  to_milliseconds-utc =
      let t = utc ts in
      let ms = t.microsecond / 1000 in
      let rest = padded 3 (t.microsecond % 1000) in
      let cut : drop_end 3 ((to_seconds t <> padded 3 ms) <> rest) ≡ to_seconds t <> padded 3 ms =
        ap (λ k. drop_end k ((to_seconds t <> padded 3 ms) <> rest))
          (sym (count-padded 3 (t.microsecond % 1000)))
        ∙ drop_end-append (to_seconds t <> padded 3 ms) rest in
      ap (λ s. drop_end 3 (to_seconds t <> s) <> "Z") (padded-add 3 t.microsecond)
      ∙ ap (λ s. drop_end 3 s <> "Z") (sym (append_assoc (to_seconds t) (padded 3 ms) rest))
      ∙ ap (λ s. s <> "Z") cut
      ∙ append_assoc (to_seconds t) (padded 3 ms) "Z"

  pub format_ts-utc : ts < timestamp_limit → format_ts ts ≡ returned (to_milliseconds (utc ts))
  unfolding format_ts fromtimestamp
  format_ts-utc l = ground arith
