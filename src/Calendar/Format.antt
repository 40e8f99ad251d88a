-- ===== src/Calendar/Format.antt =====
-- What is formatted is read back.
use ocm.Prelude.{ℕ, ◌+◌, ◌-◌, ◌*◌, ◌/◌, ◌≤◌, ◌<◌, ◌≡◌, true, ltb, some, arith}
use ocm.Calendar.{Date, is_date, is_digit, digit, days_in, parse_date, format_date}

days_in-le : (y m : ℕ) → days_in y m ≤ 31
unfolding days_in
days_in-le y m = ground arith

digit-is_digit : (n : ℕ) → is_digit (digit n) ≡ true
digit-is_digit n = ground arith

is_date-bounds : (d : Date) → is_date d ≡ true → (d.month ≤ 12) × (d.day ≤ 31)
unfolding is_date
is_date-bounds d h = ground (arith, days_in-le d.year d.month)

four :
    (y : ℕ)
    → y < 10000
    → (digit (y / 1000) - 48) * 1000
        + (digit (y / 100) - 48) * 100
        + (digit (y / 10) - 48) * 10
        + (digit y - 48)
      ≡ y
four y h = omega arith

two : (y : ℕ) → y < 100 → (digit (y / 10) - 48) * 10 + (digit y - 48) ≡ y
two y h = omega arith

-- A day of the calendar with a year of four digits is read back from its text.
pub parse_date-format_date :
    (d : Date) → is_date d ≡ true → d.year < 10000 → parse_date (format_date d) ≡ some d
unfolding parse_date format_date
parse_date-format_date d h y =
    let (m, n) = is_date-bounds d h in
    let short : ltb d.year 10000 ≡ true = ground (arith, y) in
    rw (short, four d.year y, two d.month (omega arith), two d.day (omega arith))
      (simp digit-is_digit (rw h))
