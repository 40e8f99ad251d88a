-- ===== src/Import/Sessions.antt =====
-- Where the sessions of a plan come from, and that each can take place.
use mathlib.Core.List.{Memᴰ}
use ocm.Prelude.{◌+◌, ◌-◌, ◌*◌, ℕ, ◌≤◌, ◌≡◌, true, false, List, All, elem}
use ocm.Prelude.Text.{Text}
use ocm.Calendar.{Date, is_date, format_date}
use ocm.Calendar.Days.{weekday, day_number}
use ocm.Import.Dates.{last_week}
use ocm.Import.Groups.{Slot, SeqGroup}
use ocm.Import.Regimes.{SessionRec}

-- A session is the one of a course that is kept, in a week of one of its slots: in the slot's room and
-- periods, on a day of the calendar that is the slot's weekday in that week of the term.
pub record Origin (groups : List SeqGroup) (monday : Date) (s : SessionRec) : Type 0 where
  pub group : SeqGroup
  pub slot : Slot
  pub week : ℕ
  pub in_groups : Memᴰ group groups
  pub kept : group.skipped ≡ false
  pub in_group : Memᴰ slot group.slots
  pub in_slot : elem week slot.weeks ≡ true
  pub day : Date
  pub on_date : s.date ≡ format_date day
  pub on_weekday : weekday day ≡ slot.weekday
  pub in_week : day_number day ≡ day_number monday + (week - 1) * 7 + (slot.weekday - 1)
  pub valid : is_date day ≡ true
  pub same_start : s.period_start ≡ slot.period_start
  pub same_end : s.period_end ≡ slot.period_end
  pub in_order : s.period_start ≤ s.period_end
  pub same_room : s.classroom ≡ slot.classroom
  pub same_course : s.code ≡ group.course_code

-- The weeks of the slots are not so many that a date wraps around.
abbrev pub SlotNear : Slot → Type 0
SlotNear s = All (λ w. w ≤ last_week) s.weeks

abbrev pub Near : SeqGroup → Type 0
Near g = All SlotNear g.slots
