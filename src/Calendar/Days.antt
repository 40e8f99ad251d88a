-- ===== src/Calendar/Days.antt =====
-- `AddDate` by days and `Weekday` of Go's time package, in the Gregorian calendar from the year 0 on.
use ocm.Prelude.{
  ℕ, zero, suc, ◌+◌, ◌-◌, ◌%◌, ◌≤◌, ◌≡◌, refl, ap, ◌∙◌, inl, inr, true, ltb, if◌then◌else◌,
  Bool-cases, arith,
}
use ocm.Calendar.{Date, is_leap, days_in, is_date}

unfoldable pub next_day : Date → Date
next_day d =
    if ltb d.day (days_in d.year d.month)
    then record { year = d.year; month = d.month; day = suc d.day }
    else if ltb d.month 12
    then record { year = d.year; month = suc d.month; day = 1 }
    else record { year = suc d.year; month = 1; day = 1 }

-- `d.AddDate(0, 0, n)`.
unfoldable pub add_days : ℕ → Date → Date
add_days zero d = d
add_days (suc n) d = add_days n (next_day d)

-- The days of the years before one.
unfoldable pub year_start : ℕ → ℕ
year_start zero = 0
year_start (suc y) = year_start y + (if is_leap y then 366 else 365)

-- The days of a year before a month.
unfoldable pub month_start : ℕ → ℕ → ℕ
month_start y zero = 0
month_start y (suc zero) = 0
month_start y (suc (suc m)) = month_start y (suc m) + days_in y (suc m)

-- The days from the first of January of the year 0 on.
abbrev pub day_number : Date → ℕ
day_number d = year_start d.year + month_start d.year d.month + (d.day - 1)

-- 1 is Monday, 7 is Sunday; the calendar begins with a Saturday.
abbrev pub weekday : Date → ℕ
weekday d = (day_number d + 5) % 7 + 1

record Valid (d : Date) : Type 0 where
  pub month_least : 1 ≤ d.month
  pub month_most : d.month ≤ 12
  pub day_least : 1 ≤ d.day
  pub day_most : d.day ≤ days_in d.year d.month

is_date-Valid : (d : Date) → is_date d ≡ true → Valid d
unfolding is_date
is_date-Valid d h = record {
  month_least = ground (arith, h);
  month_most = ground (arith, h);
  day_least = ground (arith, h);
  day_most = ground (arith, h);
}

days_in-least : (y m : ℕ) → 1 ≤ days_in y m
unfolding days_in
days_in-least y m = ground arith

next_day-Valid : (d : Date) → Valid d → Valid (next_day d)
unfolding next_day
next_day-Valid d v = elim (Bool-cases (ltb d.day (days_in d.year d.month))) [
  | inl e ↦
      rw (next_day, e)
        (record {
          month_least = v.month_least;
          month_most = v.month_most;
          day_least = omega arith;
          day_most = ground (arith, e);
        })
  | inr e ↦ elim (Bool-cases (ltb d.month 12)) [
    | inl g ↦
        rw (next_day, e, g)
          (record {
            month_least = omega arith;
            month_most = ground (arith, g);
            day_least = omega arith;
            day_most = days_in-least d.year (suc d.month);
          })
    | inr g ↦
        rw (next_day, e, g)
          (record {
            month_least = omega arith;
            month_most = omega arith;
            day_least = omega arith;
            day_most = days_in-least (suc d.year) 1;
          })
  ]
]

month_start-suc : (y m : ℕ) → 1 ≤ m → month_start y (suc m) ≡ month_start y m + days_in y m
unfolding month_start
month_start-suc y zero h = absurd (omega (arith, h))
month_start-suc y (suc m) h = refl

year_length : (y : ℕ) → month_start y 12 + 31 ≡ (if is_leap y then 366 else 365)
unfolding month_start days_in
year_length y = elim (Bool-cases (is_leap y)) [ inl e ↦ rw e refl | inr e ↦ rw e refl ]

december_length : (y : ℕ) → days_in y 12 ≡ 31
unfolding days_in
december_length y = refl

january : (y : ℕ) → month_start (suc y) 1 ≡ 0
unfolding month_start
january y = refl

next_day-number : (d : Date) → Valid d → day_number (next_day d) ≡ suc (day_number d)
unfolding next_day year_start
next_day-number d v = elim (Bool-cases (ltb d.day (days_in d.year d.month))) [
  | inl e ↦ rw (next_day, e) (omega (arith, v.day_least))
  | inr e ↦ elim (Bool-cases (ltb d.month 12)) [
    | inl g ↦
        let end : d.day ≡ days_in d.year d.month = ground (arith, e, v.day_most) in
        rw (next_day, e, g)
          (omega (arith, end, v.day_least, month_start-suc d.year d.month v.month_least))
    | inr g ↦
        let december : d.month ≡ 12 = ground (arith, g, v.month_most) in
        let length : days_in d.year d.month ≡ 31 =
          ap (days_in d.year) december ∙ december_length d.year in
        let end : d.day ≡ 31 = ground (arith, e, v.day_most, length) in
        rw (next_day, e, g)
          (omega (arith, end, year_length d.year, ap (month_start d.year) december, january d.year))
  ]
]

add_days-Valid : (n : ℕ) (d : Date) → Valid d → Valid (add_days n d)
unfolding add_days
add_days-Valid zero d v = v
add_days-Valid (suc n) d v = add_days-Valid n (next_day d) (next_day-Valid d v)

add_days-number : (n : ℕ) (d : Date) → Valid d → day_number (add_days n d) ≡ n + day_number d
unfolding add_days
add_days-number zero d v = omega arith
add_days-number (suc n) d v =
    omega (arith, add_days-number n (next_day d) (next_day-Valid d v), next_day-number d v)

-- So many days later, for a day of the calendar.
pub add_days_lem :
    (n : ℕ) (d : Date) → is_date d ≡ true → day_number (add_days n d) ≡ n + day_number d
add_days_lem n d h = add_days-number n d (is_date-Valid d h)

pub add_days-is_date : (n : ℕ) (d : Date) → is_date d ≡ true → is_date (add_days n d) ≡ true
unfolding is_date
add_days-is_date n d h =
    let v = add_days-Valid n d (is_date-Valid d h) in
    ground (arith, v.month_least, v.month_most, v.day_least, v.day_most)
