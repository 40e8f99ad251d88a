-- ===== src/Occupancy/Bookings.antt =====
-- backend/internal/booking/store.go: `Create`, `Cancel`, `Review` and `GetByID`.
-- `Create` runs under the classroom's lock and is one step on the database. `Cancel` and `Review`
-- take no lock: they are given the database as their reads found it (`seen`, `checked`) and the
-- database that their UPDATE meets (`db`), which other calls may have changed in between.
use ocm.Prelude.{
  ℕ, suc, Bool, not, ◌&&◌, Option, none, some, ◌∷◌, ◌==◌, find, Faults, Result, ok, err, ◌>>=◌,
  ◌>>◌, fail_if, if◌then◌else◌, update_where, count_where,
}
use ocm.Prelude.Text.{Text}
use ocm.Occupancy.Model.{
  Status, pending, approved, rejected, cancelled, Booking, Db, Error, not_found, classroom_conflict,
  invalid_transition, forbidden, database, is_active, is_pending, Slot, conflicts, room_exists,
}

pub record BookingView : Type 0 where
  pub booking : Booking
  pub classroom_name : Text
  pub username : Text
  pub display_name : Text

-- The fields of a create request, as `validateBooking` leaves them.
pub record BookingInput : Type 0 where
  pub classroom_id : ℕ
  pub date : ℕ
  pub period_start : ℕ
  pub period_end : ℕ
  pub purpose : Text

abbrev pub input_slot : BookingInput → Slot
input_slot i = record {
  room = i.classroom_id;
  day = i.date;
  first = i.period_start;
  last = i.period_end;
}

abbrev pub booking_slot : Booking → Slot
booking_slot b = record {
  room = b.classroom_id;
  day = b.date;
  first = b.period_start;
  last = b.period_end;
}

-- The joins on `classrooms` and `users` are inner: a booking whose room or booker is gone is none.
abbrev join_view : Db → Booking → Option BookingView
join_view db b = elim (find (λ r. r.id == b.classroom_id) db.classrooms) [
  | none ↦ none
  | some r ↦ elim (find (λ u. u.id == b.user_id) db.users) [
    | none ↦ none
    | some u ↦ some (record {
      booking = b;
      classroom_name = r.name;
      username = u.username;
      display_name = u.display_name;
    })
  ]
]

-- `GetByID`; `failed` tells that the database refuses the query.
unfoldable pub get_by_id : Bool → Db → ℕ → Result Error BookingView
get_by_id failed db id = do
  fail_if failed database
  elim (find (λ b. b.id == id) db.bookings) [
    | none ↦ err not_found
    | some b ↦ elim (join_view db b) [ none ↦ err not_found | some v ↦ ok v ]
  ]

-- The row that `Create` inserts.
abbrev pub new_booking : Db → BookingInput → ℕ → Booking
new_booking db i user = record {
  id = db.next_booking;
  classroom_id = i.classroom_id;
  user_id = user;
  date = i.date;
  period_start = i.period_start;
  period_end = i.period_end;
  status = pending;
  purpose = i.purpose;
  reviewed_at = none;
}

-- `INSERT INTO classroom_bookings … RETURNING id`.
abbrev pub insert_booking : Db → BookingInput → ℕ → Db
insert_booking db i user = record db {
  bookings = new_booking db i user ∷ db.bookings;
  next_booking = suc db.next_booking;
}

-- The transaction of `Create`: the database that its commit leaves, and the id of the new row.
unfoldable pub create_tx : Faults → BookingInput → ℕ → Db → Result Error (Db × ℕ)
create_tx fails i user db = do
  fail_if (fails 0) database
  fail_if (fails 1) database
  fail_if (not (room_exists db i.classroom_id)) database
  conflict ← conflicts fails 2 db (input_slot i) 0
  fail_if conflict classroom_conflict
  fail_if (fails 4) database
  fail_if (fails 5) database
  ok (insert_booking db i user, db.next_booking)

-- An error rolls the transaction back. The view is read after the commit.
unfoldable pub create : Faults → BookingInput → ℕ → Db → Db × Result Error BookingView
create fails i user db = elim (create_tx fails i user db) [
  | err e ↦ (db, err e)
  | ok (db', id) ↦ (db', get_by_id (fails 6) db' id)
]

-- `UPDATE classroom_bookings SET status = … WHERE id = $2 AND status IN (…)`.
abbrev pub set_booking : (Booking → Bool) → (Booking → Booking) → Db → Db
set_booking p f db = record db { bookings = update_where p f db.bookings }

abbrev pub to_cancel : ℕ → Booking → Bool
to_cancel id b = b.id == id && is_active b.status

abbrev pub to_review : ℕ → Booking → Bool
to_review id b = b.id == id && is_pending b.status

-- The reads of `Cancel`.
unfoldable pub cancel_check : Bool → Db → ℕ → ℕ → Bool → Result Error (Unit {0})
cancel_check failed seen id user is_admin = do
  v ← get_by_id failed seen id
  fail_if (not is_admin && not (v.booking.user_id == user)) forbidden
  fail_if (not (is_active v.booking.status)) invalid_transition

unfoldable pub cancel : Faults → ℕ → ℕ → Bool → Db → Db → Db × Result Error BookingView
cancel fails id user is_admin seen db =
    let db' = set_booking (to_cancel id) (λ b. record b { status = cancelled }) db in
    elim (cancel_check (fails 0) seen id user is_admin) [
      | err e ↦ (db, err e)
      | ok _ ↦ if fails 1 then (db, err database) else (
        db',
        do
          fail_if (fails 2) database
          fail_if (count_where (to_cancel id) db.bookings == 0) invalid_transition
          get_by_id (fails 3) db' id,
      )
    ]

pub data Decision : Type 0 where
  approve reject : Decision

abbrev pub decided : Decision → Status
decided approve = approved
decided reject = rejected

abbrev pub review_row : Decision → ℕ → Booking → Booking
review_row d now b = record b { status = decided d; reviewed_at = some now }

-- The first read of `Review`, of a pending booking.
unfoldable pub review_check : Bool → Db → ℕ → Result Error Booking
review_check failed seen id = do
  v ← get_by_id failed seen id
  fail_if (not (is_pending v.booking.status)) invalid_transition
  ok v.booking

-- The transaction of an approval: the conflict check on `checked`, then the guarded UPDATE on `db`.
unfoldable pub approve_tx : Faults → ℕ → ℕ → Booking → Db → Db → Result Error Db
approve_tx fails now id b checked db = do
  fail_if (fails 1) database
  conflict ← conflicts fails 2 checked (booking_slot b) id
  fail_if conflict classroom_conflict
  fail_if (fails 4) database
  fail_if (fails 5) database
  fail_if (count_where (to_review id) db.bookings == 0) invalid_transition
  fail_if (fails 6) database
  ok (set_booking (to_review id) (review_row approve now) db)

-- A rejection is an UPDATE outside any transaction: it stands also where a later step fails.
unfoldable pub reject_now : Faults → ℕ → ℕ → Db → Db × Result Error (Unit {0})
reject_now fails now id db = if fails 1 then (db, err database) else (
  set_booking (to_review id) (review_row reject now) db,
  do
    fail_if (fails 2) database
    fail_if (count_where (to_review id) db.bookings == 0) invalid_transition,
)

unfoldable pub review : Faults → ℕ → ℕ → Decision → Db → Db → Db → Db × Result Error BookingView
review fails now id d seen checked db = elim (review_check (fails 0) seen id) [
  | err e ↦ (db, err e)
  | ok b ↦ elim d [
    | approve ↦ elim (approve_tx fails now id b checked db) [
      | err e ↦ (db, err e)
      | ok db' ↦ (db', get_by_id (fails 7) db' id)
    ]
    | reject ↦ let (db', r) = reject_now fails now id db in (db', do r; get_by_id (fails 3) db' id)
  ]
]
