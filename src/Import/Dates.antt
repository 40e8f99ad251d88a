-- ===== src/Import/Dates.antt =====
-- backend/internal/importer/jwc/expand.go: the dated sessions of a weekly slot, and of Go's time
-- package what becomes of a day that many weeks on, where its integers of 64 bits wrap around.
use ocm.Prelude.{
  ℕ, ◌+◌, ◌-◌, ◌*◌, ◌/◌, ◌%◌, ◌^◌, ◌≤◌, ◌<◌, ◌≡◌, zero, suc, true, List, [], ◌∷◌, leb, refl, arith,
  if◌then◌else◌,
}
use ocm.Prelude.Text.{Text}
use ocm.Calendar.{Date, is_date, format_date, days_in, dash}
use ocm.Calendar.Days.{
  add_days, day_number, weekday, year_start, month_start, add_days_lem, add_days-is_date,
}

-- The package counts days and seconds from the first of March of the year -292277022400 on, which is
-- whole rounds of 400 years, and so of 146097 days, before the year 0.
abbrev pub first_year : ℕ
first_year = 292277022400

abbrev pub absolute_day : Date → ℕ
absolute_day d = first_year / 400 * 146097 + day_number d - 60

-- A day of the calendar, in the years from 0 on or with its year counted from the first one.
pub data Time : Type 0 where
  recent early : Date → Time

-- `t.AddDate(0, 0, n)` at midnight: the number of the day goes through a number of seconds of 64
-- bits. `n` is an integer in two's complement.
unfoldable pub add_date : Date → ℕ → Time
add_date d n =
    let day = ((absolute_day d + n) * 86400) % 2 ^ 64 / 86400 in
    if leb (absolute_day d) day
    then recent (add_days (day - absolute_day d) d)
    else early (add_days day (record { year = 0; month = 3; day = 1 }))

-- `t.Format("2006-01-02")`.
unfoldable pub format_time : Time → Text
format_time (recent d) = format_date d
format_time (early d) =
    if leb first_year d.year
    then format_date (record d { year = d.year - first_year })
    else dash ∷ format_date (record d { year = first_year - d.year })

-- The days from the first Monday on, as an integer of 64 bits in two's complement. The readers of the
-- cells give a week and a weekday of at least one.
abbrev pub week_offset : ℕ → ℕ → ℕ
week_offset week day = ((week - 1) * 7 + (day - 1)) % 2 ^ 64

unfoldable pub week_date : Date → ℕ → ℕ → Time
week_date week1_monday week day = add_date week1_monday (week_offset week day)

pub record SessionCell : Type 0 where
  pub date : Text
  pub period_start : ℕ
  pub period_end : ℕ
  pub classroom : Text

unfoldable pub expand_slot : Text → ℕ → ℕ → ℕ → List ℕ → Date → List SessionCell
expand_slot classroom day period_start period_end [] week1_monday = []
expand_slot classroom day period_start period_end (w ∷ weeks) week1_monday =
    record {
      date = format_time (week_date week1_monday w day);
      period_start = period_start;
      period_end = period_end;
      classroom = classroom;
    }
    ∷ expand_slot classroom day period_start period_end weeks week1_monday

year_start-most : (y : ℕ) → year_start y ≤ 366 * y
unfolding year_start
year_start-most zero = omega arith
year_start-most (suc y) = ground (arith, year_start-most y)

month_start-most : (y m : ℕ) → month_start y m ≤ 31 * m
unfolding month_start days_in
month_start-most y zero = omega arith
month_start-most y (suc zero) = omega arith
month_start-most y (suc (suc m)) = ground (arith, month_start-most y (suc m))

-- A day of a year of four digits is not far from the year 0.
day_number-most : (d : Date) → is_date d ≡ true → d.year < 10000 → day_number d ≤ 3661000
unfolding is_date days_in
day_number-most d h y =
    let month : d.month ≤ 12 = ground (arith, h) in
    let day : d.day ≤ 31 = ground (arith, h) in
    omega (arith, year_start-most d.year, month_start-most d.year d.month, month, day, y)

-- So few days on, nothing wraps around.
add_date-near :
    (d : Date) (n : ℕ)
    → day_number d ≤ 3661000
    → n < 10000000000000
    → add_date d n ≡ recent (add_days n d)
unfolding add_date
add_date-near d n h k =
    let exact : ((absolute_day d + n) * 86400) % 2 ^ 64 / 86400 ≡ absolute_day d + n =
      omega (arith, h, k) in
    let onward : leb (absolute_day d) (absolute_day d + n) ≡ true = ground arith in
    let rest : (absolute_day d + n) - absolute_day d ≡ n = omega arith in
    rw (add_date, exact, onward, rest) refl

-- The weeks of which the theorems speak.
abbrev pub last_week : ℕ
last_week = 1000000000000

week_date-recent :
    (monday : Date) (week day : ℕ)
    → is_date monday ≡ true
    → monday.year < 10000
    → week ≤ last_week
    → day ≤ 7
    → week_date monday week day ≡ recent (add_days ((week - 1) * 7 + (day - 1)) monday)
unfolding week_date
week_date-recent monday week day valid year near e =
    let exact : week_offset week day ≡ (week - 1) * 7 + (day - 1) = omega (arith, near, e) in
    rw exact (
      add_date-near monday ((week - 1) * 7 + (day - 1)) (day_number-most monday valid year)
        (omega (arith, near, e)))

-- A week and a weekday of a term that begins on a Monday: they are dated by a day that lies in the
-- week asked for, counted from that Monday in sevens, and on the weekday asked for.
pub week_date-weekday :
    (monday : Date) (week day : ℕ)
    → is_date monday ≡ true
    → monday.year < 10000
    → weekday monday ≡ 1
    → 1 ≤ week
    → week ≤ last_week
    → 1 ≤ day
    → day ≤ 7
    → (on : Date) × (week_date monday week day ≡ recent on)
      × (weekday on ≡ day)
      × (day_number on ≡ day_number monday + (week - 1) * 7 + (day - 1))
      × (is_date on ≡ true)
week_date-weekday monday week day valid year first w near d e =
    let n = (week - 1) * 7 + (day - 1) in
    let number = add_days_lem n monday valid in
    (
      add_days n monday,
      week_date-recent monday week day valid year near e,
      omega (arith, number, first, w, d, e),
      omega (arith, number),
      add_days-is_date n monday valid,
    )
