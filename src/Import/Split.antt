-- ===== src/Import/Split.antt =====
-- backend/internal/importer/jwc/split.go: Split, on the rows that were read.
use ocm.Prelude.{
  ℕ, Bool, not, List, [], ◌++◌, Option, none, some, length, ◌==◌, Result, ok, err, ◌>>=◌, ◌>>◌,
  fail_if,
}
use ocm.Prelude.Text.{Text, text_eq, trim_space}
use ocm.Calendar.{Date}
use ocm.Calendar.Days.{weekday}
use ocm.Schedule.{Regime}
use ocm.Import.Groups.{Row, SeqGroup, Warning, group_by_seq, mark_parallel}
use ocm.Import.Records.{
  ClassroomRec, CatalogRec, AdminGrade, TeachingClass, OfferingRec, Outcome, build_classrooms,
  build_catalog, build_admin_grades, build_teaching_classes, build_offerings_sessions,
}
use ocm.Import.Regimes.{SessionRec, Violation, validate_regimes}

pub data SplitError : Type 0 where
  no_semester no_week1_monday not_a_monday no_rows not_built panicked : SplitError
  not_covered : List Violation → SplitError

-- The records of the six sheets, and the counts that are not their lengths.
pub record Plan : Type 0 where
  pub rooms : List ClassroomRec
  pub catalog : List CatalogRec
  pub admin_grades : List AdminGrade
  pub teaching_classes : List TeachingClass
  pub offerings : List OfferingRec
  pub sessions : List SessionRec
  pub row_count : ℕ
  pub skipped_empty_admin : ℕ
  pub skipped_parallel : ℕ
  pub no_teacher_filled : ℕ
  pub warnings : List Warning

-- The orders in which the two loops over the map of courses go.
pub record Orders : Type 0 where
  pub first : List SeqGroup → List SeqGroup
  pub second : List SeqGroup → List SeqGroup

abbrev pub from_panic : {A : Type 0} → Option A → Result SplitError A
from_panic none = err panicked
from_panic (some a) = ok a

abbrev pub from_check : Result (List Violation) Unit → Result SplitError Unit
from_check (ok done) = ok done
from_check (err bad) = err (not_covered bad)

-- The courses as they stand after the grouping and the marking.
abbrev pub marked : List Row → List SeqGroup
marked rows = (mark_parallel (group_by_seq rows [] []).0).0

abbrev pub plan_of : List Row → List TeachingClass → Outcome → Plan
plan_of rows classes out =
    let (groups, read) = group_by_seq rows [] [] in
    let (all, parallel, found) = mark_parallel groups in
    record {
      rooms = build_classrooms rows;
      catalog = build_catalog rows;
      admin_grades = build_admin_grades rows [];
      teaching_classes = classes;
      offerings = out.offerings;
      sessions = out.sessions;
      row_count = length rows;
      skipped_empty_admin = out.skipped_empty_admin;
      skipped_parallel = parallel;
      no_teacher_filled = out.no_teacher_filled;
      warnings = read ++ found ++ out.warnings;
    }

-- The checks before anything is built.
abbrev pub guards : List Row → Text → Date → Result SplitError Unit
guards rows semester monday =
    fail_if (text_eq (trim_space semester) []) no_semester
    >> fail_if (not (weekday monday == 1)) not_a_monday
    >> fail_if (length rows == 0) no_rows

-- The check of the sessions and the writing of the sheets.
abbrev pub finish :
    Bool → List Row → List Regime → List TeachingClass → Outcome → Result SplitError Plan
finish built rows regimes classes out =
    from_check (validate_regimes out.sessions regimes)
    >> (fail_if (not built) not_built >> ok (plan_of rows classes out))

-- `week1_monday` is `none` for the zero time, and `built` says whether the sheets could be encoded.
unfoldable pub split :
    Orders → Bool → List Row → Text → Option Date → List Regime → Result SplitError Plan
split orders built rows semester none regimes =
    fail_if (text_eq (trim_space semester) []) no_semester >> err no_week1_monday
split orders built rows semester (some monday) regimes =
    guards rows semester monday
    >> (from_panic (build_teaching_classes (orders.first (marked rows))) >>= λ classes.
        from_panic (
          build_offerings_sessions (orders.second (marked rows)) (marked rows) (trim_space semester)
            monday)
        >>= finish built rows regimes classes)
