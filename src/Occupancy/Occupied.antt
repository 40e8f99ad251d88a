-- ===== src/Occupancy/Occupied.antt =====
-- The conflict checks against the plain meaning of an occupied slot, and what a cancellation frees.
use mathlib.Core.List.{Memᴰ}
use ocm.Prelude.{
  ℕ, ◌≤◌, ◌≡◌, ◌↔◌, ◌⊎◌, inl, inr, true, ◌&&◌, leb, any, All, All-mem, any_of_mem, mem_of_any,
  arith, no_faults, ok, if◌then◌else◌,
}
use ocm.Occupancy.Model.{
  Booking, Session, Db, Slot, session_clash, booking_clash, not_excluded, conflicts,
}
use ocm.Occupancy.History.{Holds, Taught}

-- A session is taught, or a booking holds, in some period of the slot.
pub data Occupied (db : Db) (w : Slot) : Type 0 where
  by_session :
      (s : Session) (p : ℕ)
      → Memᴰ s db.sessions
      → w.first ≤ p
      → p ≤ w.last
      → Taught s w.room w.day p
      → Occupied db w
  by_booking :
      (b : Booking) (p : ℕ)
      → Memᴰ b db.bookings
      → w.first ≤ p
      → p ≤ w.last
      → Holds b w.room w.day p
      → Occupied db w

-- The handlers let in only ranges that are not empty.
pub record Ranged (db : Db) : Type 0 where
  pub sessions_ranged : All (λ s. s.period_start ≤ s.period_end) db.sessions
  pub bookings_ranged : All (λ b. b.period_start ≤ b.period_end) db.bookings

abbrev larger : ℕ → ℕ → ℕ
larger a b = if leb a b then b else a

session_meets :
    (w : Slot) (s : Session)
    → w.first ≤ w.last
    → s.period_start ≤ s.period_end
    → session_clash w s ≡ true
    → let p = larger w.first s.period_start in
      (w.first ≤ p) × (p ≤ w.last) × Taught s w.room w.day p
session_meets w s h k e = (ground arith, ground arith, ground arith)

booking_meets :
    (w : Slot) (b : Booking)
    → w.first ≤ w.last
    → b.period_start ≤ b.period_end
    → booking_clash w b ≡ true
    → let p = larger w.first b.period_start in (w.first ≤ p) × (p ≤ w.last) × Holds b w.room w.day p
booking_meets w b h k e = (ground arith, ground arith, ground arith)

session_clash_of :
    (w : Slot) (s : Session) (p : ℕ)
    → w.first ≤ p
    → p ≤ w.last
    → Taught s w.room w.day p
    → session_clash w s ≡ true
session_clash_of w s p h k t = ground arith

booking_clash_of :
    (w : Slot) (b : Booking) (p : ℕ)
    → w.first ≤ p
    → p ≤ w.last
    → Holds b w.room w.day p
    → (booking_clash w b && not_excluded 0 b.id) ≡ true
booking_clash_of w b p h k t = ground arith

conflicts_of_session :
    (at : ℕ) (db : Db) (w : Slot)
    → any (session_clash w) db.sessions ≡ true
    → conflicts no_faults at db w 0 ≡ ok true
unfolding conflicts
conflicts_of_session at db w h = rw h

conflicts_of_booking :
    (at : ℕ) (db : Db) (w : Slot)
    → any (λ b. booking_clash w b && not_excluded 0 b.id) db.bookings ≡ true
    → conflicts no_faults at db w 0 ≡ ok true
unfolding conflicts
conflicts_of_booking at db w h = ground arith

conflicts_found :
    (at : ℕ) (db : Db) (w : Slot)
    → conflicts no_faults at db w 0 ≡ ok true
    → (any (session_clash w) db.sessions ≡ true)
      ⊎ (any (λ b. booking_clash w b && not_excluded 0 b.id) db.bookings ≡ true)
unfolding conflicts
conflicts_found at db w h = ground arith

-- With a database that answers, the check of a booking request reports a conflict exactly when some
-- period of the slot is taken by a course session or by an active booking of that classroom and
-- day. The slot and all stored ranges are not empty.
pub conflicts-Occupied :
    (at : ℕ) (db : Db) (w : Slot)
    → Ranged db
    → w.first ≤ w.last
    → (conflicts no_faults at db w 0 ≡ ok true) ↔ Occupied db w
conflicts-Occupied at db w r h = (found, clash)
  where
    found : conflicts no_faults at db w 0 ≡ ok true → Occupied db w
    found e = elim (conflicts_found at db w e) [
      | inl s ↦
          let (x, m, g) = mem_of_any (session_clash w) db.sessions s in
          let (a, b, t) = session_meets w x h (All-mem _ db.sessions m r.sessions_ranged) g in
          by_session x (larger w.first x.period_start) m a b t
      | inr s ↦
          let (x, m, g) = mem_of_any _ db.bookings s in
          let c : booking_clash w x ≡ true = ground arith in
          let (a, b, t) = booking_meets w x h (All-mem _ db.bookings m r.bookings_ranged) c in
          by_booking x (larger w.first x.period_start) m a b t
    ]

    clash : Occupied db w → conflicts no_faults at db w 0 ≡ ok true
    clash (by_session s p m a b t) =
        conflicts_of_session at db w (any_of_mem _ db.sessions m (session_clash_of w s p a b t))
    clash (by_booking x p m a b t) =
        conflicts_of_booking at db w (any_of_mem _ db.bookings m (booking_clash_of w x p a b t))
