-- ===== src/Occupancy/Sessions.antt =====
-- backend/internal/course/sessions.go: `CreateSession`, `UpdateSession`, `DeleteSession` and
-- `GetSession`. The first two run under the lock of the classroom that the session is put in.
use ocm.Prelude.{
  ℕ, suc, Bool, not, none, some, ◌∷◌, ◌==◌, find, Faults, Result, ok, err, ◌>>=◌, ◌>>◌, fail_if,
  if◌then◌else◌, update_where, count_where, delete_where,
}
use ocm.Prelude.Text.{Text}
use ocm.Occupancy.Model.{
  Session, Db, Error, not_found, classroom_conflict, database, Slot, session_conflict, room_exists,
}

pub record SessionInput : Type 0 where
  pub offering_id : ℕ
  pub classroom_id : ℕ
  pub date : ℕ
  pub period_start : ℕ
  pub period_end : ℕ
  pub note : Text

pub record SessionView : Type 0 where
  pub session : Session
  pub course_name : Text
  pub teacher : Text
  pub classroom_name : Text

abbrev pub session_input_slot : SessionInput → Slot
session_input_slot i = record {
  room = i.classroom_id;
  day = i.date;
  first = i.period_start;
  last = i.period_end;
}

abbrev pub row_of : ℕ → SessionInput → Session
row_of id i = record {
  id = id;
  offering_id = i.offering_id;
  classroom_id = i.classroom_id;
  date = i.date;
  period_start = i.period_start;
  period_end = i.period_end;
  note = i.note;
}

-- The joins on the offering and the classroom are inner.
unfoldable pub get_session : Bool → Db → ℕ → Result Error SessionView
get_session failed db id = do
  fail_if failed database
  elim (find (λ s. s.id == id) db.sessions) [
    | none ↦ err not_found
    | some s ↦ elim (find (λ o. o.id == s.offering_id) db.offerings) [
      | none ↦ err not_found
      | some o ↦ elim (find (λ r. r.id == s.classroom_id) db.classrooms) [
        | none ↦ err not_found
        | some r ↦ ok (record {
          session = s;
          course_name = o.course_name;
          teacher = o.teacher;
          classroom_name = r.name;
        })
      ]
    ]
  ]

unfoldable pub create_session_tx : Faults → SessionInput → Db → Result Error (Db × ℕ)
create_session_tx fails i db = do
  fail_if (fails 0) database
  fail_if (fails 1) database
  fail_if (not (room_exists db i.classroom_id)) database
  conflict ← session_conflict fails 2 db (session_input_slot i) 0
  fail_if conflict classroom_conflict
  fail_if (fails 4) database
  fail_if (fails 5) database
  ok (
    record db {
      sessions = row_of db.next_session i ∷ db.sessions;
      next_session = suc db.next_session;
    },
    db.next_session,
  )

unfoldable pub create_session : Faults → SessionInput → Db → Db × Result Error SessionView
create_session fails i db = elim (create_session_tx fails i db) [
  | err e ↦ (db, err e)
  | ok (db', id) ↦ (db', get_session (fails 6) db' id)
]

abbrev pub has_id : ℕ → Session → Bool
has_id id s = s.id == id

unfoldable pub update_session_tx : Faults → ℕ → SessionInput → Db → Result Error Db
update_session_tx fails id i db = do
  fail_if (fails 0) database
  fail_if (fails 1) database
  fail_if (not (room_exists db i.classroom_id)) database
  conflict ← session_conflict fails 2 db (session_input_slot i) id
  fail_if conflict classroom_conflict
  fail_if (fails 4) database
  fail_if (fails 5) database
  fail_if (count_where (has_id id) db.sessions == 0) not_found
  fail_if (fails 6) database
  ok (record db { sessions = update_where (has_id id) (λ s. row_of s.id i) db.sessions })

unfoldable pub update_session : Faults → ℕ → SessionInput → Db → Db × Result Error SessionView
update_session fails id i db = elim (update_session_tx fails id i db) [
  | err e ↦ (db, err e)
  | ok db' ↦ (db', get_session (fails 7) db' id)
]

-- A DELETE of its own: it stands also where the count of its rows cannot be read.
unfoldable pub delete_session : Faults → ℕ → Db → Db × Result Error (Unit {0})
delete_session fails id db = if fails 0 then (db, err database) else (
  record db { sessions = delete_where (has_id id) db.sessions },
  do fail_if (fails 1) database; fail_if (count_where (has_id id) db.sessions == 0) not_found,
)
