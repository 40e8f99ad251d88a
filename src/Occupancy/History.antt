-- ===== src/Occupancy/History.antt =====
-- Histories of calls on the shared tables. The calls that take no lock carry the databases that
-- their reads saw, which may be any: what other calls did in between needs no modelling of its own.
use mathlib.Core.List.{Memᴰ}
use native.Mathlib.Decide.{ℕ_discrete}
use ocm.Prelude.{
  ℕ, ◌≤◌, ◌≡◌, ◌≢◌, sym, ap, Bool, true, List, [], ◌∷◌, All, All-mem, ◌∙◌, arith, Faults,
}
use ocm.Occupancy.Model.{Booking, Session, Db, is_active}
use ocm.Occupancy.Bookings.{BookingInput, Decision, create, cancel, review}
use ocm.Occupancy.Sessions.{SessionInput, create_session, update_session, delete_session}
use ocm.Occupancy.Rows.{ApartMixed, ApartActive, Pairs}
use ocm.Occupancy.Disjoint.{
  Inv, create-Inv, cancel-Inv, review-Inv, create_session-Inv, update_session-Inv,
  delete_session-Inv,
}

pub data Call : Type 0 where
  creates : Faults → BookingInput → ℕ → Call
  cancels : Faults → ℕ → ℕ → Bool → Db → Call
  reviews : Faults → ℕ → ℕ → Decision → Db → Db → Call
  creates_session : Faults → SessionInput → Call
  updates_session : Faults → ℕ → SessionInput → Call
  deletes_session : Faults → ℕ → Call

unfoldable pub step : Call → Db → Db
step (creates f i user) db = (create f i user db).0
step (cancels f id user admin seen) db = (cancel f id user admin seen db).0
step (reviews f now id d seen checked) db = (review f now id d seen checked db).0
step (creates_session f i) db = (create_session f i db).0
step (updates_session f id i) db = (update_session f id i db).0
step (deletes_session f id) db = (delete_session f id db).0

unfoldable pub run : List Call → Db → Db
run [] db = db
run (c ∷ cs) db = run cs (step c db)

pub step-Inv : (c : Call) (db : Db) → Inv db → Inv (step c db)
unfolding step
step-Inv (creates f i user) db v = create-Inv f i user db v
step-Inv (cancels f id user admin seen) db v = cancel-Inv f id user admin seen db v
step-Inv (reviews f now id d seen checked) db v = review-Inv f now id d seen checked db v
step-Inv (creates_session f i) db v = create_session-Inv f i db v
step-Inv (updates_session f id i) db v = update_session-Inv f id i db v
step-Inv (deletes_session f id) db v = delete_session-Inv f id db v

-- Whatever calls the stores serve, in whatever order, with whatever faults and stale reads, the
-- invariant holds after them if it held before them.
pub run-Inv : (cs : List Call) (db : Db) → Inv db → Inv (run cs db)
unfolding run
run-Inv [] db v = v
run-Inv (c ∷ cs) db v = run-Inv cs (step c db) (step-Inv c db v)

ApartActive-symm : (a b : Booking) → ApartActive a b → ApartActive b a
ApartActive-symm a b h = ground arith

-- The two rows are one, or they are apart.
Pairs-at :
    (a b : Booking) (bs : List Booking)
    → Memᴰ a bs
    → Memᴰ b bs
    → a.id ≢ b.id
    → Pairs ApartActive bs
    → ApartActive a b
Pairs-at a b [] m k ne h = elim m [ ]
Pairs-at a b (c ∷ bs) (Memᴰ.head e) (Memᴰ.head f) ne h = absurd (ne (ap (λ x. x.id) (e ∙ sym f)))
Pairs-at a b (c ∷ bs) (Memᴰ.head e) (Memᴰ.tail m) ne h = rw e (All-mem (ApartActive c) bs m h.0)
Pairs-at a b (c ∷ bs) (Memᴰ.tail m) (Memᴰ.head f) ne h =
    rw f (ApartActive-symm c a (All-mem (ApartActive c) bs m h.0))
Pairs-at a b (c ∷ bs) (Memᴰ.tail m) (Memᴰ.tail k) ne h = Pairs-at a b bs m k ne h.1

-- A booking that stands for a period of a classroom's day.
pub record Holds (b : Booking) (room day period : ℕ) : Type 0 where
  pub active : is_active b.status ≡ true
  pub in_room : b.classroom_id ≡ room
  pub on_day : b.date ≡ day
  pub from : b.period_start ≤ period
  pub until : period ≤ b.period_end

pub record Taught (s : Session) (room day period : ℕ) : Type 0 where
  pub in_room : s.classroom_id ≡ room
  pub on_day : s.date ≡ day
  pub from : s.period_start ≤ period
  pub until : period ≤ s.period_end

Holds-apart :
    (a b : Booking) (room day period : ℕ)
    → Holds a room day period
    → Holds b room day period
    → ApartActive a b
    → ⊥
Holds-apart a b room day period h k e = ground arith

Taught-apart :
    (s : Session) (b : Booking) (room day period : ℕ)
    → Taught s room day period
    → Holds b room day period
    → ApartMixed s b
    → ⊥
Taught-apart s b room day period h k e = ground arith

-- After any history of calls from a database that satisfies the invariant, two bookings that hold one
-- period of one classroom on one day are the same booking.
pub one_booking :
    (cs : List Call) (db : Db) (a b : Booking) (room day period : ℕ)
    → Inv db
    → Memᴰ a (run cs db).bookings
    → Memᴰ b (run cs db).bookings
    → Holds a room day period
    → Holds b room day period
    → a.id ≡ b.id
one_booking cs db a b room day period v m k h g = elim (ℕ_discrete a.id b.id) [
  | yes e ↦ e
  | no ne ↦ absurd (
      Holds-apart a b room day period h g
        (Pairs-at a b (run cs db).bookings m k ne (run-Inv cs db v).bookings_apart))
]

-- And no booking holds a period in which a course session is taught in that classroom.
pub no_booking_of_session :
    (cs : List Call) (db : Db) (s : Session) (b : Booking) (room day period : ℕ)
    → Inv db
    → Memᴰ s (run cs db).sessions
    → Memᴰ b (run cs db).bookings
    → Taught s room day period
    → ¬ Holds b room day period
no_booking_of_session cs db s b room day period v m k h g = Taught-apart s b room day period h g (
    All-mem (ApartMixed s) (run cs db).bookings k (
      All-mem (λ t. All (ApartMixed t) (run cs db).bookings) (run cs db).sessions m
        (run-Inv cs db v).crossed))
