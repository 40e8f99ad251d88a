-- ===== src/Occupancy/Model.antt =====
-- The rows of `classroom_bookings`, `course_sessions`, `classrooms` and `users`
-- (backend/internal/booking/model.go, backend/internal/course/model.go), and the conflict checks.
-- A DATE column is the number of its day.
use ocm.Prelude.{
  ℕ, Bool, true, false, not, ◌&&◌, ◌||◌, Option, List, leb, ◌==◌, any, Faults, Result, ok, ◌>>◌,
  fail_if, if◌then◌else◌, suc,
}
use ocm.Prelude.Text.{Text}

pub data Status : Type 0 where
  pending approved rejected cancelled : Status

pub record Booking : Type 0 where
  pub id : ℕ
  pub classroom_id : ℕ
  pub user_id : ℕ
  pub date : ℕ
  pub period_start : ℕ
  pub period_end : ℕ
  pub status : Status
  pub purpose : Text
  pub reviewed_at : Option ℕ

pub record Session : Type 0 where
  pub id : ℕ
  pub offering_id : ℕ
  pub classroom_id : ℕ
  pub date : ℕ
  pub period_start : ℕ
  pub period_end : ℕ
  pub note : Text

pub record Classroom : Type 0 where
  pub id : ℕ
  pub name : Text
  pub available : Bool

pub record User : Type 0 where
  pub id : ℕ
  pub username : Text
  pub display_name : Text

pub record Offering : Type 0 where
  pub id : ℕ
  pub course_name : Text
  pub teacher : Text

-- Rows are newest first; the identity columns hand out `next_booking` and `next_session`.
pub record Db : Type 0 where
  pub classrooms : List Classroom
  pub users : List User
  pub offerings : List Offering
  pub bookings : List Booking
  pub sessions : List Session
  pub next_booking : ℕ
  pub next_session : ℕ

pub data Error : Type 0 where
  not_found classroom_conflict invalid_transition forbidden database : Error

-- `status IN ('pending','approved')`.
abbrev pub is_active : Status → Bool
is_active pending = true
is_active approved = true
is_active rejected = false
is_active cancelled = false

abbrev pub is_pending : Status → Bool
is_pending pending = true
is_pending _ = false

-- A classroom, a date and a period range that a request asks for.
pub record Slot : Type 0 where
  pub room : ℕ
  pub day : ℕ
  pub first : ℕ
  pub last : ℕ

-- The WHERE clause of the session check: `classroom_id = $1 AND date = $2 AND
-- period_start <= $3 AND period_end >= $4`.
abbrev pub session_clash : Slot → Session → Bool
session_clash w s =
    s.classroom_id == w.room
    && s.date == w.day
    && leb s.period_start w.last
    && leb w.first s.period_end

-- The WHERE clause of the booking check, which reads active bookings only.
abbrev pub booking_clash : Slot → Booking → Bool
booking_clash w b =
    b.classroom_id == w.room
    && b.date == w.day
    && is_active b.status
    && leb b.period_start w.last
    && leb w.first b.period_end

-- `AND id <> $5`, which is left out when the excluded id is not positive.
abbrev pub not_excluded : ℕ → ℕ → Bool
not_excluded exclude id = exclude == 0 || not (id == exclude)

-- `conflicts` of the booking store. Statements `at` and `at + 1` of the call.
unfoldable pub conflicts : Faults → ℕ → Db → Slot → ℕ → Result Error Bool
conflicts fails at db w exclude = do
  fail_if (fails at) database
  if any (session_clash w) db.sessions then ok true else do
    fail_if (fails (suc at)) database
    ok (any (λ b. booking_clash w b && not_excluded exclude b.id) db.bookings)

-- `sessionConflict` of the course store: here a session is excluded.
unfoldable pub session_conflict : Faults → ℕ → Db → Slot → ℕ → Result Error Bool
session_conflict fails at db w exclude = do
  fail_if (fails at) database
  if any (λ s. session_clash w s && not_excluded exclude s.id) db.sessions
      then ok true
      else do fail_if (fails (suc at)) database; ok (any (booking_clash w) db.bookings)

-- The statement `SELECT id FROM classrooms WHERE id = $1 FOR UPDATE` finds its row. The lock that it
-- takes is held until the transaction ends, so that the rest of the call is one step.
abbrev pub room_exists : Db → ℕ → Bool
room_exists db id = any (λ r. r.id == id) db.classrooms
