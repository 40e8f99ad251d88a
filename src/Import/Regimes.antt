-- ===== src/Import/Regimes.antt =====
-- backend/internal/importer/jwc/split.go: the check of the dated sessions against the bell-time
-- regimes. The code ranges over a map, in any order; the order here is that of the first sessions, and
-- another order changes only which of the violations are listed first.
use ocm.Prelude.{
  ℕ, suc, ◌-◌, not, List, [], ◌∷◌, ◌++◌, Option, none, some, elem, find, length, leb, if◌then◌else◌,
  Result, ok, err,
}
use ocm.Prelude.Ordered.{dedup}
use ocm.Prelude.Text.{Text, text_eq}
use ocm.Calendar.{parse_date}
use ocm.Schedule.{Regime, active_for, period_index_set}
use ocm.Import.Cells.{weeks_from}

pub record SessionRec : Type 0 where
  pub date : Text
  pub period_start : ℕ
  pub period_end : ℕ
  pub classroom : Text
  pub course : Text
  pub code : Text
  pub teaching_class : Text
  pub semester : Text

pub record DayPeriods : Type 0 where
  pub date : Text
  pub periods : List ℕ

-- The numbers from the first period to the last.
abbrev pub periods_of : SessionRec → List ℕ
periods_of s = weeks_from (suc s.period_end - s.period_start) s.period_start

unfoldable pub put_day : Text → List ℕ → List DayPeriods → List DayPeriods
put_day date ps [] = record { date = date; periods = dedup ps [] } ∷ []
put_day date ps (d ∷ days) =
    let rest = put_day date ps days in
    if text_eq d.date date
    then record { date = d.date; periods = dedup ps d.periods } ∷ days
    else d ∷ rest

unfoldable pub periods_by_date : List SessionRec → List DayPeriods → List DayPeriods
periods_by_date [] days = days
periods_by_date (s ∷ sessions) days = periods_by_date sessions (put_day s.date (periods_of s) days)

pub data Violation : Type 0 where
  no_regime : Text → Violation
  bad_period : Text → ℕ → Text → Violation

-- The first period that the regime does not have.
abbrev pub bad_of : Text → Regime → Option ℕ → List Violation
bad_of date r none = []
bad_of date r (some p) = bad_period date p r.name ∷ []

unfoldable pub collect_bad : List Regime → List DayPeriods → List Violation → List Violation
collect_bad regimes [] bad = bad
collect_bad regimes (d ∷ days) bad =
    let rest = collect_bad regimes days in
    elim (parse_date d.date) [
      | none ↦ rest bad
      | some date ↦ elim (active_for regimes date) [
        | none ↦ rest (bad ++ no_regime d.date ∷ [])
        | some r ↦
            let more =
              bad ++ bad_of d.date r (find (λ p. not (elem p (period_index_set r))) d.periods) in
            if leb 5 (length more) then more else rest more
      ]
    ]

abbrev pub verdict : List Violation → Result (List Violation) Unit
verdict [] = ok tt
verdict (v ∷ bad) = err (v ∷ bad)

unfoldable pub validate_regimes : List SessionRec → List Regime → Result (List Violation) Unit
validate_regimes sessions regimes = verdict (collect_bad regimes (periods_by_date sessions []) [])
