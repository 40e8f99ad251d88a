-- ===== src/Attendance.antt =====
-- Attendance: the rows of `checkins` and `checkin_records` and the tables they are joined with
-- (backend/internal/attendance/model.go), and the view of a checkin with its counts
-- (backend/internal/attendance/store.go). An instant is a number of nanoseconds.
pub mod Writes
pub mod Create
pub mod Rows
pub mod History
pub mod Handler
pub mod Refusal
pub mod Codes
pub mod Totals
mod Examples
use ocm.Prelude.{
  ℕ, suc, ◌+◌, ◌-◌, ◌*◌, ◌%◌, Bool, true, false, not, ◌&&◌, List, [], ◌∷◌, Option, some, none, ltb,
  ◌==◌, find, any, Faults, Result, ok, err, ◌>>=◌, ◌>>◌, fail_if, if◌then◌else◌, update_where,
  count_where,
}
use ocm.Prelude.Int.{ℤ, pos, negsuc, ltb_ℤ}
use ocm.Prelude.Text.{Text, text_eq}

pub data CheckinStatus : Type 0 where
  active closed : CheckinStatus

pub data RecordStatus : Type 0 where
  present absent late leave : RecordStatus

abbrev pub is_active : CheckinStatus → Bool
is_active active = true
is_active closed = false

pub record Checkin : Type 0 where
  pub id : ℕ
  pub offering_id : Option ℤ
  pub session_id : Option ℤ
  pub title : Text
  pub code : Text
  pub late_minutes : ℕ
  pub status : CheckinStatus
  pub starts_at : ℕ
  pub expires_at : Option ℕ
  pub created_by : ℕ
  pub closed_at : Option ℕ

pub record Record : Type 0 where
  pub checkin_id : ℕ
  pub user_id : ℕ
  pub status : RecordStatus
  pub checked_at : Option ℕ
  pub modified_by : Option ℕ
  pub modified_at : Option ℕ

-- A row of `course_sessions` and of `course_offerings`, joined with the names of the course and of
-- the teaching class.
pub record Session : Type 0 where
  pub id : ℕ
  pub offering_id : ℕ
  pub date : ℕ
  pub period_start : ℕ
  pub period_end : ℕ

pub record Offering : Type 0 where
  pub id : ℕ
  pub teaching_class : ℕ
  pub course_name : Text
  pub class_name : Text

-- `student_profiles` and `teaching_class_members`.
pub record Profile : Type 0 where
  pub user_id : ℕ
  pub admin_class : ℕ

pub record Member : Type 0 where
  pub teaching_class : ℕ
  pub admin_class : ℕ

pub record Db : Type 0 where
  pub users : List ℕ
  pub offerings : List Offering
  pub sessions : List Session
  pub profiles : List Profile
  pub members : List Member
  pub checkins : List Checkin
  pub records : List Record
  pub next_id : ℕ

-- `session_mismatch` is the source's ErrOfferingMismatch.
pub data Error : Type 0 where
  checkin_not_found checkin_not_active checkin_expired code_not_found : Error
  session_mismatch title_required student_not_found database : Error

-- Whether an administrative class attends an offering: the joins from `teaching_class_members` to
-- `course_offerings`.
unfoldable pub attends : Db → ℤ → ℕ → Bool
attends db (negsuc n) class = false
attends db (pos offering) class =
    any
      (λ m.
        m.admin_class == class
        && any (λ o. o.teaching_class == m.teaching_class && o.id == offering) db.offerings)
      db.members

-- `rosterExistsSQL`.
unfoldable pub in_roster : Db → ℤ → ℕ → Bool
in_roster db offering user =
    any (λ p. p.user_id == user && attends db offering p.admin_class) db.profiles

-- `rosterCountSQL`; a user has one profile, so that the distinct users are the profiles.
unfoldable pub roster_count : Db → ℤ → ℕ
roster_count db offering = count_where (λ p. attends db offering p.admin_class) db.profiles

abbrev pub same_status : RecordStatus → RecordStatus → Bool
same_status present present = true
same_status absent absent = true
same_status late late = true
same_status leave leave = true
same_status _ _ = false

abbrev pub of_checkin : ℕ → RecordStatus → Record → Bool
of_checkin id s r = r.checkin_id == id && same_status r.status s

-- `SELECT checkin_id, status, COUNT(*) … GROUP BY checkin_id, status`, at one checkin and one status.
abbrev pub marked : Db → ℕ → RecordStatus → ℕ
marked db id s = count_where (of_checkin id s) db.records

pub record Counts : Type 0 where
  pub expected : ℕ
  pub present : ℕ
  pub late : ℕ
  pub absent : ℕ
  pub leave : ℕ

abbrev pub in_checkin_roster : Db → ℕ → ℤ → Record → Bool
in_checkin_roster db id offering r = r.checkin_id == id && in_roster db offering r.user_id

-- The size of the roster, and how many of its users have a record; none for a standalone checkin.
-- The profile, the class membership and the offering of a record are unique, so that the join of the
-- second query has at most one row for a record.
unfoldable pub roster_sizes : Db → ℕ → Option ℤ → ℕ × ℕ
roster_sizes db id none = (0, 0)
roster_sizes db id (some o) =
    if ltb_ℤ (pos 0) o
    then (roster_count db o, count_where (in_checkin_roster db id o) db.records)
    else (0, 0)

-- `backfillCounts` for one checkin.
unfoldable pub counts_of : Db → ℕ → Option ℤ → Counts
counts_of db id offering =
    let (expected, roster_rows) = roster_sizes db id offering in
    record {
      expected = expected;
      present = marked db id present;
      late = marked db id late;
      absent = marked db id absent + expected - roster_rows;
      leave = marked db id leave;
    }

abbrev pub is_after : Option ℕ → ℕ → Bool
is_after none now = false
is_after (some t) now = ltb t now

-- The effective status: an active checkin past its expiry reads as closed.
abbrev pub effective_status : ℕ → Checkin → CheckinStatus
effective_status now c =
    if is_active c.status && is_after c.expires_at now then closed else c.status

pub record CheckinView : Type 0 where
  pub checkin : Checkin
  pub counts : Counts

-- `GetCheckin`: one query, and those of the counts.
unfoldable pub get_checkin : Faults → ℕ → ℕ → Db → ℕ → Result Error CheckinView
get_checkin fails at now db id = do
  fail_if (fails at) database
  elim (find (λ c. c.id == id) db.checkins) [
    | none ↦ err checkin_not_found
    | some c ↦ do
      fail_if (fails (suc at)) database
      ok (record {
        checkin = record c { status = effective_status now c };
        counts = counts_of db id c.offering_id;
      })
  ]
