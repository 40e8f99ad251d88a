-- ===== src/Import/Examples.antt =====
-- The theorems on the weekly plan at a sheet of one row, and tests of the readers.
use mathlib.Core.List.{Memᴰ}
use ocm.Prelude.{ℕ, ◌≡◌, refl, ap, ◌∙◌, err, true, false, List, [], ◌∷◌, none, some, ok, arith}
use ocm.Prelude.Ordered.{sort, insert, dedup, sort_by, insert_by}
use ocm.Prelude.Text.{
  Text, codes, split_on, trim_space, trim_left, is_space, join, decimal, decimal_on,
}
use ocm.Calendar.{Date, days_in, parse_date, format_date}
use ocm.Calendar.Days.{add_days, year_start, month_start, weekday}
use ocm.Schedule.{Period, Regime}
use ocm.Import.Cells.{
  atoi, natural, digits_after, cut_dash, parse_range, parse_periods, parse_weekday, expand_weeks,
  parse_segment, split_parity, trim_brackets, drop_brackets, weeks_from, collect_weeks,
}
use ocm.Import.Print.{Part, all_weeks, odd_weeks, even_weeks}
use ocm.Import.Named.{WeeksOf, expand_weeks-print}
use ocm.Import.Dates.{recent, add_date, week_date}
use ocm.Import.Classes.{collect_members, parse_admin_set, admin_set_key}
use ocm.Import.Names.{split-panic}
use ocm.Import.Groups.{
  Row, SeqGroup, new_seq_group, add_teacher, read_slot, add_slot, put_row, group_by_seq, put_pair,
  collect_pairs, mark_parallel,
}
use ocm.Import.Parallel.{mark_parallel-both}
use ocm.Import.Regimes.{SessionRec}
use ocm.Import.Split.{Plan, Orders, split, panicked}

abbrev monday : Date
monday = record { year = 2025; month = 9; day = 1 }

monday-weekday : weekday monday ≡ 1
unfolding year_start month_start days_in
monday-weekday = refl

odd_weeks_cell : expand_weeks (codes "[1-3]单, 5") ≡ ok (1 ∷ 3 ∷ 5 ∷ [])
unfolding expand_weeks collect_weeks parse_segment split_parity trim_brackets drop_brackets cut_dash
    parse_range atoi natural digits_after weeks_from sort insert dedup split_on trim_space trim_left
    is_space
odd_weeks_cell = refl

abbrev three_parts : List Part
three_parts =
    record { first = 1; last = 3; mark = odd_weeks }
    ∷ record { first = 4; last = 6; mark = even_weeks }
    ∷ record { first = 7; last = 9; mark = all_weeks }
    ∷ []

expand_weeks-print_example : WeeksOf three_parts (expand_weeks (codes "[1-3]单,[4-6]双,[7-9]"))
unfolding join decimal decimal_on
expand_weeks-print_example =
    expand_weeks-print (record { first = 1; last = 3; mark = odd_weeks })
      (record { first = 4; last = 6; mark = even_weeks }
        ∷ record { first = 7; last = 9; mark = all_weeks }
        ∷ [])
      (
        record { from_one = omega arith; in_order = omega arith; small = omega arith },
        (
          record { from_one = omega arith; in_order = omega arith; small = omega arith },
          (record { from_one = omega arith; in_order = omega arith; small = omega arith }, tt),
        ),
      )

-- A row of a course of one class, on the Tuesdays of two weeks.
abbrev row : Row
row = record {
  building = codes "B";
  classroom = codes "A1";
  room_type = [];
  floor = [];
  weekday_str = codes "2";
  period_str = codes "3-4";
  week_str = codes "[1-3]单";
  course_seq = codes "s1";
  course_code = codes "c1";
  course_name = codes "Logic";
  admin_classes = codes "x1";
  teacher_name = codes "T";
  teacher_title = [];
  teacher_id = codes "9";
  max_students = [];
  college = [];
  requirement = [];
  category = [];
  total_hours = [];
  weekly_hours = [];
  credits = [];
  exam_type = [];
  grade = codes "2024";
  campus = [];
  room_capacity = [];
  row_num = 2;
}

abbrev course : Text → SeqGroup
course seq = record {
  seq = seq;
  course_code = codes "c1";
  course_name = codes "Logic";
  members = codes "x1" ∷ [];
  admin_key = codes "x1";
  college = [];
  max_students = [];
  requirement = [];
  weekly_hours = [];
  slots = [];
  slot_seen = [];
  teachers = [];
  skipped = false;
}

abbrev courses : List SeqGroup
courses = course (codes "s1") ∷ course (codes "s2") ∷ []

abbrev skipped : Text → SeqGroup
skipped seq = record (course seq) { skipped = true }

mark_parallel-both_example :
    ((skipped (codes "s1")).skipped ≡ true) × ((skipped (codes "s2")).skipped ≡ true)
unfolding mark_parallel collect_pairs put_pair
mark_parallel-both_example =
    mark_parallel-both courses (skipped (codes "s1")) (skipped (codes "s2")) (Memᴰ.head refl)
      (Memᴰ.tail (Memᴰ.head refl)) refl refl refl

abbrev two_classes : List Text
two_classes = codes "x2" ∷ codes "x1" ∷ []

-- A name that is 65 characters long.
abbrev long_class : Text
long_class = codes "class-0123456789-0123456789-0123456789-0123456789-0123456789-0123"

abbrev period : ℕ → Period
period n = record { id = n; regime_id = 1; period_index = n; start_time = []; end_time = [] }

abbrev regime : Regime
regime = record {
  id = 1;
  name = [];
  effective_month = 5;
  effective_day = 1;
  periods = period 3 ∷ period 4 ∷ [];
}

abbrev first_session : SessionRec
first_session = record {
  date = codes "2025-09-02";
  period_start = 3;
  period_end = 4;
  classroom = codes "A1";
  course = codes "Logic";
  code = codes "c1";
  teaching_class = codes "x1";
  semester = codes "t";
}

abbrev same_orders : Orders
same_orders = record { first = λ gs. gs; second = λ gs. gs }

abbrev plan : Plan
plan = record {
  rooms =
      record {
        name = codes "A1";
        building = codes "B";
        capacity = [];
        type = codes "standard";
        floor = [];
        campus = [];
      }
      ∷ [];
  catalog =
      record {
        key = codes "c1";
        name = codes "Logic";
        code = codes "c1";
        credits = [];
        total_hours = [];
        category = [];
        exam_type = [];
      }
      ∷ [];
  admin_grades = record { name = codes "x1"; grade = codes "2024" } ∷ [];
  teaching_classes =
      record { key = codes "x1"; name = codes "x1"; note = []; members = codes "x1" ∷ [] } ∷ [];
  offerings =
      record {
        course = codes "Logic";
        code = codes "c1";
        teaching_class = codes "x1";
        semester = codes "t";
        teacher = codes "T";
        course_seq = codes "s1";
        teacher_id = codes "9";
        teacher_title = [];
        college = [];
        max_students = [];
        requirement = [];
        weekly_hours = [];
        note = codes "s1";
      }
      ∷ [];
  sessions = first_session ∷ record first_session { date = codes "2025-09-16" } ∷ [];
  row_count = 1;
  skipped_empty_admin = 0;
  skipped_parallel = 0;
  no_teacher_filled = 0;
  warnings = [];
}

abbrev long_row : Row
long_row = record row { admin_classes = long_class }

abbrev long_course : SeqGroup
long_course = record (course (codes "s1")) {
  members = long_class ∷ [];
  admin_key = long_class;
  slots =
      record {
        classroom = codes "A1";
        weekday = 2;
        period_start = 3;
        period_end = 4;
        weeks = 1 ∷ 3 ∷ [];
      }
      ∷ [];
  slot_seen = codes "A1|2|3-4|[1-3]单" ∷ [];
  teachers = record { key = codes "9"; id = codes "9"; name = codes "T"; title = [] } ∷ [];
}

-- The members of the courses of a list of one.
only_member :
    (g h : SeqGroup) (m : Text) → g.members ≡ m ∷ [] → Memᴰ h (g ∷ []) → h.members ≡ m ∷ []
only_member g h m e (Memᴰ.head same) = ap (λ x. x.members) same ∙ e
only_member g h m e (Memᴰ.tail t) = elim t [ ]

split-panic_example :
    split same_orders true (long_row ∷ []) (codes "t") (some monday) (regime ∷ []) ≡ err panicked
unfolding digits_after natural atoi cut_dash parse_range parse_periods parse_weekday split_parity
    drop_brackets trim_brackets parse_segment weeks_from collect_weeks expand_weeks new_seq_group
    add_teacher read_slot add_slot put_row group_by_seq put_pair collect_pairs mark_parallel
    collect_members parse_admin_set admin_set_key trim_space trim_left is_space split_on join sort
    insert dedup sort_by insert_by year_start month_start days_in
split-panic_example =
    split-panic same_orders true (long_row ∷ []) (codes "t") monday (regime ∷ []) long_course
      long_class refl refl refl (omega arith) (Memᴰ.head refl)
      (λ h m e. only_member long_course h long_class refl m)

-- A week number that wraps around: its Monday is taken for the Saturday of the first week.
wrapped_week : week_date monday 2635249153387078804 1 ≡ recent (add_days 5 monday)
unfolding week_date add_date add_days year_start month_start days_in
wrapped_week = refl

-- A date after the year 9999 is written with five digits, and is not read back.
late_date : parse_date (format_date (record { year = 10000; month = 1; day = 1 })) ≡ none
unfolding parse_date format_date decimal decimal_on
late_date = refl
