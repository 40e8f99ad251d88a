-- ===== src/Occupancy/Handler.antt =====
-- backend/internal/booking/handler.go: `create`, `cancel`, `review` and `validateBooking`. A decoded
-- body is `none` where the JSON decoder fails; a path id is `none` where it is no number.
use Prim.Native.String.{String}
use ocm.Prelude.{
  ℕ, zero, suc, ◌+◌, ◌-◌, Bool, true, not, ◌&&◌, ◌||◌, List, [], Option, some, none, map, leb, ◌==◌,
  elem, find, Faults, Result, ok, err, ◌>>◌, fail_if, if◌then◌else◌,
}
use ocm.Prelude.Int.{ℤ, pos, pos_part, leb_ℤ, ltb_ℤ}
use ocm.Prelude.Text.{Text, codes, text_eq, trim_space}
use ocm.Calendar.{Date, parse_date, date_key}
use ocm.Schedule.{Regime, active_for, period_index_set}
use ocm.Http.{Response, json, error}
use ocm.Authz.{Subject, has, booking_approve}
use ocm.Occupancy.Model.{Db, Error, not_found, classroom_conflict, invalid_transition, forbidden}
use ocm.Occupancy.Bookings.{
  BookingInput, BookingView, Decision, approve, reject, create, cancel, review,
}

pub record BookingBody : Type 0 where
  pub classroom_id : ℤ
  pub date : Text
  pub period_start : ℤ
  pub period_end : ℤ
  pub purpose : Text

-- `for i := start; i <= end; i++`, over the number of rounds.
unfoldable pub all_valid : List ℕ → ℕ → ℕ → Bool
all_valid valid zero i = true
all_valid valid (suc n) i = elem i valid && all_valid valid n (suc i)

-- The checks of the period range against the regime in force. `refused` tells that the list of
-- regimes cannot be read.
unfoldable pub check_regime : Bool → List Regime → Date → ℕ → ℕ → Result String (Unit {0})
check_regime refused regimes date first last = do
  fail_if refused "could not validate against schedule regime"
  elim (active_for regimes date) [
    | none ↦ err "no schedule regime configured for this date"
    | some r ↦
        fail_if (not (all_valid (period_index_set r) (last + 1 - first) first))
          "period range is not valid for the active regime on this date"
  ]

unfoldable pub check_classroom : Bool → Db → ℕ → Result String (Unit {0})
check_classroom refused db id = do
  fail_if refused "could not load classroom"
  elim (find (λ r. r.id == id) db.classrooms) [
    | none ↦ err "classroom not found"
    | some r ↦ fail_if (not r.available) "classroom is not available for booking"
  ]

-- `validateBooking`, with the fields as it leaves them. Statements 10 and 11 are its queries.
unfoldable pub validate_booking :
    Faults → Db → List Regime → BookingBody → Result String BookingInput
validate_booking fails db regimes b = do
  fail_if (leb_ℤ b.classroom_id (pos 0)) "classroomId is required"
  fail_if (ltb_ℤ b.period_start (pos 1) || ltb_ℤ b.period_end (pos 1))
      "periodStart and periodEnd must be >= 1"
  fail_if (ltb_ℤ b.period_end b.period_start) "periodStart must be <= periodEnd"
  elim (parse_date b.date) [
    | none ↦ err "invalid date (use YYYY-MM-DD)"
    | some date ↦ do
      fail_if (text_eq (trim_space b.purpose) []) "purpose is required"
      check_classroom (fails 10) db (pos_part b.classroom_id)
      check_regime (fails 11) regimes date (pos_part b.period_start) (pos_part b.period_end)
      ok (record {
        classroom_id = pos_part b.classroom_id;
        date = date_key date;
        period_start = pos_part b.period_start;
        period_end = pos_part b.period_end;
        purpose = trim_space b.purpose;
      })
  ]

abbrev pub create_answer : Result Error BookingView → Response BookingView
create_answer (ok v) = json 201 v
create_answer (err classroom_conflict) =
    error 409 "classroom already booked for this date and period"
create_answer (err e) = error 500 "could not create booking"

-- The checks read the tables without a lock, before the transaction: `seen` is what they see.
unfoldable pub handle_create :
    Faults → List Regime → Option BookingBody → Option Subject → Db → Db → Db × Response BookingView
handle_create fails regimes none subject seen db = (db, error 400 "invalid request body")
handle_create fails regimes (some b) subject seen db =
    elim (validate_booking fails seen regimes b) [
      | err msg ↦ (db, error 400 msg)
      | ok i ↦ elim subject [
        | none ↦ (db, error 401 "not authenticated")
        | some s ↦ let (db', r) = create fails i s.id db in (db', create_answer r)
      ]
    ]

abbrev pub cancel_answer : Result Error BookingView → Response BookingView
cancel_answer (ok v) = json 200 v
cancel_answer (err not_found) = error 404 "booking not found"
cancel_answer (err forbidden) = error 403 "you can only cancel your own bookings"
cancel_answer (err invalid_transition) =
    error 409 "booking cannot be cancelled in its current status"
cancel_answer (err e) = error 500 "could not cancel booking"

unfoldable pub handle_cancel :
    Faults → Option ℕ → Option Subject → Db → Db → Db × Response BookingView
handle_cancel fails none subject seen db = (db, error 400 "invalid booking id")
handle_cancel fails (some id) none seen db = (db, error 401 "not authenticated")
handle_cancel fails (some id) (some s) seen db =
    let (db', r) = cancel fails id s.id (has s booking_approve) seen db in (db', cancel_answer r)

abbrev pub review_answer : Result Error BookingView → Response BookingView
review_answer (ok v) = json 200 v
review_answer (err not_found) = error 404 "booking not found"
review_answer (err invalid_transition) = error 409 "booking is no longer pending"
review_answer (err classroom_conflict) = error 409 "classroom is no longer free for this period"
review_answer (err e) = error 500 "could not review booking"

-- `strings.ToLower`, as far as the two words can tell: no letter outside ASCII has one of theirs as
-- its lower case.
abbrev pub to_lower : Text → Text
to_lower = map (λ c. if leb b'A' c && leb c b'Z' then c + 32 else c)

unfoldable pub parse_decision : Text → Option Decision
parse_decision s =
    let word = to_lower (trim_space s) in
    if text_eq word (codes "approve")
    then some approve
    else if text_eq word (codes "reject")
    then some reject
    else none

unfoldable pub handle_review :
    Faults → ℕ → Option ℕ → Option Text → Db → Db → Db → Db × Response BookingView
handle_review fails now none body seen checked db = (db, error 400 "invalid booking id")
handle_review fails now (some id) none seen checked db = (db, error 400 "invalid request body")
handle_review fails now (some id) (some word) seen checked db = elim (parse_decision word) [
  | none ↦ (db, error 400 "decision must be 'approve' or 'reject'")
  | some d ↦ let (db', r) = review fails now id d seen checked db in (db', review_answer r)
]
