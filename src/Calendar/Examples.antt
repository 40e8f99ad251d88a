-- ===== src/Calendar/Examples.antt =====
-- The theorem on dates at a leap day, and tests of the parser.
use ocm.Prelude.{◌≡◌, refl, some, none, arith}
use ocm.Prelude.Text.{codes}
use ocm.Calendar.{Date, is_date, parse_date, format_date}
use ocm.Calendar.Format.{parse_date-format_date}

abbrev leap_day : Date
leap_day = record { year = 2024; month = 2; day = 29 }

parse_date-format_date_example : parse_date (format_date leap_day) ≡ some leap_day
unfolding is_date
parse_date-format_date_example = parse_date-format_date leap_day refl (omega arith)

leap_day_text : format_date leap_day ≡ codes "2024-02-29"
unfolding format_date
leap_day_text = refl

no_such_day : parse_date (codes "2025-02-29") ≡ none
unfolding parse_date is_date
no_such_day = refl

bad_separator : parse_date (codes "2025/02/28") ≡ none
unfolding parse_date is_date
bad_separator = refl
