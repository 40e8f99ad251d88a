-- ===== src/Occupancy/Rows.antt =====
-- What keeps a classroom from being taken twice, on the rows alone: the relations between rows, and
-- how inserting, rewriting and deleting a row keep them.
use ocm.Prelude.{ℕ, ◌<◌, ◌≡◌, Bool, false, ◌&&◌, List, [], ◌∷◌, leb, ◌==◌, any, All, arith}
use ocm.Occupancy.Model.{
  Booking, Session, Slot, session_clash, booking_clash, not_excluded, is_active,
}
use ocm.Occupancy.Bookings.{booking_slot}

abbrev pub session_slot : Session → Slot
session_slot s = record {
  room = s.classroom_id;
  day = s.date;
  first = s.period_start;
  last = s.period_end;
}

-- Some period of one date is in both ranges, in one classroom.
abbrev pub overlap : Slot → Slot → Bool
overlap v w = v.room == w.room && v.day == w.day && leb v.first w.last && leb w.first v.last

-- Two sessions that do not meet; a session and a booking, and two bookings, that do not meet while
-- the bookings are active.
abbrev pub Apart : Session → Session → Type 0
Apart s t = overlap (session_slot s) (session_slot t) ≡ false

abbrev pub ApartMixed : Session → Booking → Type 0
ApartMixed s b = (is_active b.status && overlap (session_slot s) (booking_slot b)) ≡ false

abbrev pub ApartActive : Booking → Booking → Type 0
ApartActive a b =
    (is_active a.status && is_active b.status && overlap (booking_slot a) (booking_slot b)) ≡ false

-- Every two rows of a list, the first of them above the second.
abbrev pub Pairs {ℓ κ} : {A : Type ℓ} → (A → A → Type κ) → List A → Type κ
Pairs R [] = Unit
Pairs R (x ∷ xs) = All (R x) xs × Pairs R xs

-- Identity columns: newest first, so ids fall and stay below the next one.
abbrev pub SessionIds : ℕ → List Session → Type 0
SessionIds n [] = Unit
SessionIds n (s ∷ ss) = (s.id < n) × SessionIds s.id ss

abbrev pub BookingIds : ℕ → List Booking → Type 0
BookingIds n [] = Unit
BookingIds n (b ∷ bs) = (b.id < n) × BookingIds b.id bs

abbrev pub Crossed : List Session → List Booking → Type 0
Crossed ss bs = All (λ s. All (ApartMixed s) bs) ss

-- A request that the check of the sessions passes is apart from every session.
pub free_of_sessions :
    (s : Session) (ss : List Session)
    → any (session_clash (session_slot s)) ss ≡ false
    → All (Apart s) ss
free_of_sessions s [] h = tt
free_of_sessions s (t ∷ ss) h = (ground arith, free_of_sessions s ss (ground arith))

pub free_mixed :
    (b : Booking) (ss : List Session)
    → any (session_clash (booking_slot b)) ss ≡ false
    → All (λ s. ApartMixed s b) ss
free_mixed b [] h = tt
free_mixed b (s ∷ ss) h = (ground arith, free_mixed b ss (ground arith))

pub free_of_bookings :
    (b : Booking) (bs : List Booking)
    → any (λ c. booking_clash (booking_slot b) c && not_excluded 0 c.id) bs ≡ false
    → All (ApartActive b) bs
free_of_bookings b [] h = tt
free_of_bookings b (c ∷ bs) h = (ground arith, free_of_bookings b bs (ground arith))

pub free_session_of_bookings :
    (s : Session) (bs : List Booking)
    → any (booking_clash (session_slot s)) bs ≡ false
    → All (ApartMixed s) bs
free_session_of_bookings s [] h = tt
free_session_of_bookings s (b ∷ bs) h = (ground arith, free_session_of_bookings s bs (ground arith))

-- A new booking below every session.
pub Crossed-cons :
    (b : Booking) (ss : List Session) (bs : List Booking)
    → All (λ s. ApartMixed s b) ss
    → Crossed ss bs
    → Crossed ss (b ∷ bs)
Crossed-cons b [] bs h c = tt
Crossed-cons b (s ∷ ss) bs h c = ((h.0, c.0), Crossed-cons b ss bs h.1 c.1)
