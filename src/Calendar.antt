-- ===== src/Calendar.antt =====
-- Dates as the backend passes them around: `time.Parse("2006-01-02", s)` and `Format("2006-01-02")`
-- of Go's time package, in the year, month and day that the code reads off a date.
pub mod Format
pub mod Days
mod Examples
use ocm.Prelude.{
  ℕ, suc, ◌+◌, ◌-◌, ◌*◌, ◌/◌, ◌%◌, Bool, true, false, not, ◌&&◌, ◌||◌, List, [], ◌∷◌, ◌++◌, Option,
  some, none, leb, ltb, ◌==◌, if◌then◌else◌,
}
use ocm.Prelude.Text.{Text, decimal}

pub record Date : Type 0 where
  pub year : ℕ
  pub month : ℕ
  pub day : ℕ

abbrev pub is_leap : ℕ → Bool
is_leap y = y % 4 == 0 && (not (y % 100 == 0) || y % 400 == 0)

unfoldable pub days_in : ℕ → ℕ → ℕ
days_in y m =
    if m == 2
    then (if is_leap y then 29 else 28)
    else if m == 4 || m == 6 || m == 9 || m == 11
    then 30
    else 31

abbrev pub is_digit : ℕ → Bool
is_digit c = leb b'0' c && leb c b'9'

unfoldable pub is_date : Date → Bool
unfolding days_in
is_date d = leb 1 d.month && leb d.month 12 && leb 1 d.day && leb d.day (days_in d.year d.month)

abbrev pub dash : ℕ
dash = 45

-- Ten characters, digits but for two dashes, that name a day of the calendar.
unfoldable pub parse_date : Text → Option Date
parse_date (a ∷ b ∷ c ∷ d ∷ p ∷ e ∷ f ∷ q ∷ g ∷ h ∷ []) =
    let date : Date = record {
      year = (a - 48) * 1000 + (b - 48) * 100 + (c - 48) * 10 + (d - 48);
      month = (e - 48) * 10 + (f - 48);
      day = (g - 48) * 10 + (h - 48);
    } in
    if is_digit a
      && is_digit b
      && is_digit c
      && is_digit d
      && p == dash
      && is_digit e
      && is_digit f
      && q == dash
      && is_digit g
      && is_digit h
      && is_date date
    then some date
    else none
parse_date _ = none

abbrev pub digit : ℕ → ℕ
digit n = n % 10 + 48

-- Four digits of a year, or as many as a later one has.
abbrev pub year_text : ℕ → Text
year_text y =
    if ltb y 10000
    then digit (y / 1000) ∷ digit (y / 100) ∷ digit (y / 10) ∷ digit y ∷ []
    else decimal y

unfoldable pub format_date : Date → Text
format_date d =
    year_text d.year
    ++ dash ∷ digit (d.month / 10) ∷ digit d.month ∷ dash ∷ digit (d.day / 10) ∷ digit d.day ∷ []

-- The number yyyymmdd stands for a DATE column in the tables.
abbrev pub date_key : Date → ℕ
date_key d = (d.year * 100 + d.month) * 100 + d.day

-- The number mmdd by which bell-time regimes are compared.
abbrev pub month_day : Date → ℕ
month_day d = d.month * 100 + d.day
