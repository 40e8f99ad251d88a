-- ===== src/Schedule.antt =====
-- Bell-time regimes: `ActiveFor` and `PeriodIndexSet` of backend/internal/schedule/store.go, over the
-- types of backend/internal/schedule/model.go.
pub mod Active
mod Examples
use ocm.Prelude.{
  ℕ, ◌+◌, ◌*◌, Bool, true, false, ◌&&◌, List, [], ◌∷◌, Option, some, none, leb, ltb, if◌then◌else◌,
  map, elem,
}
use ocm.Prelude.Text.{Text}
use ocm.Calendar.{Date, month_day}

pub record Period : Type 0 where
  pub id : ℕ
  pub regime_id : ℕ
  pub period_index : ℕ
  pub start_time : Text
  pub end_time : Text

pub record Regime : Type 0 where
  pub id : ℕ
  pub name : Text
  pub effective_month : ℕ
  pub effective_day : ℕ
  pub periods : List Period

abbrev pub effective : Regime → ℕ
effective r = r.effective_month * 100 + r.effective_day

-- The variables of the loop: `none` is the regime not found yet, whose number is -1 in the code.
pub record Scan : Type 0 where
  pub active : Option Regime
  pub latest : Option Regime

abbrev pub above : ℕ → Option Regime → Bool
above md none = true
above md (some r) = ltb (effective r) md

-- One round of the loop.
unfoldable pub visit : ℕ → Regime → Scan → Scan
visit today r s =
    let md = effective r in
    record {
      active = if leb md today && above md s.active then some r else s.active;
      latest = if above md s.latest then some r else s.latest;
    }

unfoldable pub scan : ℕ → List Regime → Scan → Scan
scan today [] s = s
scan today (r ∷ rs) s = scan today rs (visit today r s)

unfoldable pub or_else : Option Regime → Option Regime → Option Regime
or_else (some r) other = some r
or_else none other = other

-- `none` is the `false` result, for an empty list.
unfoldable pub active_for : List Regime → Date → Option Regime
unfolding visit scan or_else
active_for rs date =
    let s = scan (month_day date) rs (record { active = none; latest = none }) in
    or_else s.active s.latest

-- The set of valid period indices, and the test of a whole range that the validators make.
abbrev pub period_index_set : Regime → List ℕ
period_index_set r = map (λ p. p.period_index) r.periods
