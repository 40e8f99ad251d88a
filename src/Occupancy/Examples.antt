-- ===== src/Occupancy/Examples.antt =====
-- The theorems on occupancy at one classroom, two users and one offering, and tests of the calls.
use mathlib.Core.List.{Memᴰ}
use ocm.Prelude.{ℕ, ◌≡◌, ◌↔◌, refl, true, false, List, [], ◌∷◌, some, none, no_faults, ok, arith}
use ocm.Prelude.Int.{pos, negsuc}
use ocm.Prelude.Text.{codes, trim_space}
use ocm.Calendar.{parse_date, is_date}
use ocm.Schedule.{Regime, Period, active_for}
use ocm.Http.{error}
use ocm.Authz.{Subject}
use ocm.Occupancy.Model.{
  Booking, Session, Classroom, User, Offering, Db, Status, pending, cancelled, conflicts,
}
use ocm.Occupancy.Bookings.{
  BookingInput, BookingView, input_slot, new_booking, insert_booking, create_tx, create, cancel,
  cancel_check, approve, get_by_id,
}
use ocm.Occupancy.Disjoint.{Inv}
use ocm.Occupancy.History.{
  Call, creates, cancels, reviews, run, step, Holds, one_booking, no_booking_of_session,
}
use ocm.Occupancy.Occupied.{Occupied, conflicts-Occupied}
use ocm.Occupancy.Edges.{Origin, step-Origin, settled_for_good}
use ocm.Occupancy.Release.{again, create-cancel}
use ocm.Occupancy.Handler.{
  BookingBody, handle_create, validate_booking, check_classroom, check_regime, all_valid,
}
use ocm.Occupancy.Requests.{Valid, created}

abbrev room : Classroom
room = record { id = 5; name = codes "A101"; available = true }

abbrev booker : User
booker = record { id = 8; username = codes "li"; display_name = codes "Li" }

abbrev taken : Status → Booking
taken s = record {
  id = 1;
  classroom_id = 5;
  user_id = 8;
  date = 20250615;
  period_start = 3;
  period_end = 4;
  status = s;
  purpose = codes "club";
  reviewed_at = none;
}

abbrev lecture : Session
lecture = record {
  id = 1;
  offering_id = 2;
  classroom_id = 5;
  date = 20250615;
  period_start = 1;
  period_end = 2;
  note = [];
}

abbrev course : Offering
course = record { id = 2; course_name = codes "Algebra"; teacher = codes "Wu" }

abbrev campus : Status → Db
campus s = record {
  classrooms = room ∷ [];
  users = booker ∷ [];
  offerings = course ∷ [];
  bookings = taken s ∷ [];
  sessions = lecture ∷ [];
  next_booking = 2;
  next_session = 2;
}

campus-Inv : Inv (campus pending)
campus-Inv = record {
  booking_ids = omega arith;
  session_ids = omega arith;
  bookings_apart = (tt, tt);
  sessions_apart = (tt, tt);
  crossed = ((refl, tt), tt);
}

abbrev wanted : ℕ → ℕ → BookingInput
wanted first last = record {
  classroom_id = 5;
  date = 20250615;
  period_start = first;
  period_end = last;
  purpose = codes "exam";
}

abbrev history : List Call
history =
    creates no_faults (wanted 5 6) 8
    ∷ creates no_faults (wanted 6 7) 8
    ∷ reviews no_faults 100 1 approve (campus pending) (campus pending)
    ∷ []

-- The second request overlaps the first and is refused; the review goes through.
two_bookings :
    (run
      (creates no_faults (wanted 5 6) 8 ∷ creates no_faults (wanted 6 7) 8 ∷ [])
      (campus pending)).bookings
    ≡ new_booking (campus pending) (wanted 5 6) 8 ∷ taken pending ∷ []
unfolding run step create create_tx conflicts get_by_id
two_bookings = refl

Holds-pending : Holds (taken pending) 5 20250615 3
Holds-pending = record {
  active = refl;
  in_room = refl;
  on_day = refl;
  from = omega arith;
  until = omega arith;
}

abbrev requests : List Call
requests = creates no_faults (wanted 5 6) 8 ∷ creates no_faults (wanted 6 7) 8 ∷ []

one_booking_example : (taken pending).id ≡ (taken pending).id
unfolding run step create create_tx conflicts get_by_id
one_booking_example =
    one_booking requests (campus pending) (taken pending) (taken pending) 5 20250615 3 campus-Inv
      (Memᴰ.tail (Memᴰ.head refl)) (Memᴰ.tail (Memᴰ.head refl)) Holds-pending Holds-pending

no_booking_of_session_example : ¬ Holds (taken pending) 5 20250615 2
unfolding run step create create_tx conflicts get_by_id
no_booking_of_session_example =
    no_booking_of_session requests (campus pending) lecture (taken pending) 5 20250615 2 campus-Inv
      (Memᴰ.head refl) (Memᴰ.tail (Memᴰ.head refl))
      (record { in_room = refl; on_day = refl; from = omega arith; until = omega arith })

conflicts-Occupied_example :
    (conflicts no_faults 2 (campus pending) (input_slot (wanted 4 5)) 0 ≡ ok true)
    ↔ Occupied (campus pending) (input_slot (wanted 4 5))
conflicts-Occupied_example =
    conflicts-Occupied 2 (campus pending) (input_slot (wanted 4 5))
      (record { sessions_ranged = omega arith; bookings_ranged = omega arith }) (omega arith)

step-Origin_example : Origin (campus pending) (record (taken pending) { status = cancelled })
unfolding step cancel cancel_check get_by_id
step-Origin_example =
    step-Origin (cancels no_faults 1 8 false (campus pending)) (campus pending) _ (Memᴰ.head refl)

settled_for_good_example : Memᴰ (taken cancelled) (run history (campus cancelled)).bookings
settled_for_good_example =
    settled_for_good history (campus cancelled) (taken cancelled) (Memᴰ.head refl) refl

abbrev view : Booking → BookingView
view b = record {
  booking = b;
  classroom_name = codes "A101";
  username = codes "li";
  display_name = codes "Li";
}

create-cancel_example :
    let db' = (cancel no_faults 1 8 true (campus pending) (campus pending)).0 in
    create_tx no_faults (again (taken pending)) 8 db'
    ≡ ok (insert_booking db' (again (taken pending)) 8, db'.next_booking)
unfolding get_by_id
create-cancel_example =
    create-cancel 1 8 8 (campus pending) (view (taken pending)) campus-Inv refl refl

abbrev period : ℕ → Period
period n = record { id = n; regime_id = 1; period_index = n; start_time = []; end_time = [] }

abbrev regime : Regime
regime = record {
  id = 1;
  name = [];
  effective_month = 5;
  effective_day = 1;
  periods = period 1 ∷ period 2 ∷ period 5 ∷ period 6 ∷ [];
}

abbrev somebody : Subject
somebody = record { id = 8; username = []; permissions = []; roles = []; groups = [] }

abbrev body : ℕ → ℕ → BookingBody
body first last = record {
  classroom_id = pos 5;
  date = codes "2025-06-15";
  period_start = pos first;
  period_end = pos last;
  purpose = codes " exam ";
}

created_example :
    ◌≡◌ {A = ℕ} 201 201
    × ((s : Subject) × (i : BookingInput) × (some somebody ≡ some s)
        × Valid (campus pending) (regime ∷ []) (body 5 6) i
        × (conflicts no_faults 2 (campus pending) (input_slot i) 0 ≡ ok false)
        × (new_booking (campus pending) (wanted 5 6) 8 ≡ new_booking (campus pending) i s.id)
        × ((handle_create no_faults
              (regime ∷ [])
              (some (body 5 6))
              (some somebody)
              (campus pending)
              (campus pending)).0
            ≡ insert_booking (campus pending) i s.id))
unfolding handle_create validate_booking check_classroom check_regime all_valid parse_date is_date
    trim_space active_for create create_tx conflicts get_by_id
created_example =
    created no_faults (regime ∷ []) (body 5 6) (some somebody) (campus pending) (campus pending) 201
      (view (new_booking (campus pending) (wanted 5 6) 8)) refl

negative_room :
    (handle_create no_faults
      (regime ∷ [])
      (some (record (body 5 6) { classroom_id = negsuc 0 }))
      (some somebody)
      (campus pending)
      (campus pending)).1
    ≡ error 400 "classroomId is required"
unfolding handle_create validate_booking
negative_room = refl
