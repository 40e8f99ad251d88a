-- ===== src/Occupancy/Moves.antt =====
-- How the UPDATE and DELETE statements act on the relations of Rows.
use ocm.Prelude.{
  ℕ, ◌≤◌, ◌≡◌, refl, Bool, false, not, ◌&&◌, List, [], ◌∷◌, ◌==◌, any, All, arith, update_where,
  delete_where, Bool-cases, inl, inr,
}
use ocm.Occupancy.Model.{Booking, Session, cancelled, session_clash, not_excluded, is_active}
use ocm.Occupancy.Bookings.{to_cancel, to_review, review_row, Decision}
use ocm.Occupancy.Sessions.{has_id, row_of, SessionInput, session_input_slot}
use ocm.Occupancy.Rows.{Apart, ApartMixed, ApartActive, Pairs, SessionIds, BookingIds, Crossed}

-- A booking that keeps its place and is active only if it was.
abbrev pub Weaker : Booking → Booking → Type 0
Weaker b' b =
    (b'.id ≡ b.id)
    × (b'.classroom_id ≡ b.classroom_id)
    × (b'.date ≡ b.date)
    × (b'.period_start ≡ b.period_start)
    × (b'.period_end ≡ b.period_end)
    × ((is_active b'.status && not (is_active b.status)) ≡ false)

abbrev pub Weakened : List Booking → List Booking → Type 0
Weakened [] [] = Unit
Weakened [] (b ∷ bs) = ⊥
Weakened (b' ∷ bs') [] = ⊥
Weakened (b' ∷ bs') (b ∷ bs) = Weaker b' b × Weakened bs' bs

pub cancel-Weakened :
    (id : ℕ) (bs : List Booking)
    → Weakened (update_where (to_cancel id) (λ b. record b { status = cancelled }) bs) bs
cancel-Weakened id [] = tt
cancel-Weakened id (b ∷ bs) = (ground arith, cancel-Weakened id bs)

pub review-Weakened :
    (d : Decision) (now id : ℕ) (bs : List Booking)
    → Weakened (update_where (to_review id) (review_row d now) bs) bs
review-Weakened d now id [] = tt
review-Weakened d now id (b ∷ bs) = (ground arith, review-Weakened d now id bs)

pub BookingIds-Weakened :
    (n : ℕ) (bs' bs : List Booking) → Weakened bs' bs → BookingIds n bs → BookingIds n bs'
BookingIds-Weakened n [] [] w h = tt
BookingIds-Weakened n [] (b ∷ bs) w h = absurd w
BookingIds-Weakened n (b' ∷ bs') [] w h = absurd w
BookingIds-Weakened n (b' ∷ bs') (b ∷ bs) w h =
    (ground arith, BookingIds-Weakened b'.id bs' bs w.1 (ground arith))

ApartActive-Weaker :
    (a' a b' b : Booking) → Weaker a' a → Weaker b' b → ApartActive a b → ApartActive a' b'
ApartActive-Weaker a' a b' b v w h = ground arith

All-Weakened :
    (a' a : Booking) (bs' bs : List Booking)
    → Weaker a' a
    → Weakened bs' bs
    → All (ApartActive a) bs
    → All (ApartActive a') bs'
All-Weakened a' a [] [] v w h = tt
All-Weakened a' a [] (b ∷ bs) v w h = absurd w
All-Weakened a' a (b' ∷ bs') [] v w h = absurd w
All-Weakened a' a (b' ∷ bs') (b ∷ bs) v w h =
    (ApartActive-Weaker a' a b' b v w.0 h.0, All-Weakened a' a bs' bs v w.1 h.1)

pub Pairs-Weakened :
    (bs' bs : List Booking) → Weakened bs' bs → Pairs ApartActive bs → Pairs ApartActive bs'
Pairs-Weakened [] [] w h = tt
Pairs-Weakened [] (b ∷ bs) w h = absurd w
Pairs-Weakened (b' ∷ bs') [] w h = absurd w
Pairs-Weakened (b' ∷ bs') (b ∷ bs) w h =
    (All-Weakened b' b bs' bs w.0 w.1 h.0, Pairs-Weakened bs' bs w.1 h.1)

mixed-Weakened :
    (s : Session) (bs' bs : List Booking)
    → Weakened bs' bs
    → All (ApartMixed s) bs
    → All (ApartMixed s) bs'
mixed-Weakened s [] [] w h = tt
mixed-Weakened s [] (b ∷ bs) w h = absurd w
mixed-Weakened s (b' ∷ bs') [] w h = absurd w
mixed-Weakened s (b' ∷ bs') (b ∷ bs) w h = (ground arith, mixed-Weakened s bs' bs w.1 h.1)

pub Crossed-Weakened :
    (ss : List Session) (bs' bs : List Booking) → Weakened bs' bs → Crossed ss bs → Crossed ss bs'
Crossed-Weakened [] bs' bs w h = tt
Crossed-Weakened (s ∷ ss) bs' bs w h =
    (mixed-Weakened s bs' bs w h.0, Crossed-Weakened ss bs' bs w h.1)

-- The rewriting of one session to the row of an input.
module _ (id : ℕ) (i : SessionInput) where
  abbrev pub moved : List Session → List Session
  moved = update_where (has_id id) (λ s. row_of s.id i)

  abbrev pub others_free : List Session → Bool
  others_free = any (λ t. session_clash (session_input_slot i) t && not_excluded id t.id)

  below_moved : (n : ℕ) (ss : List Session) → SessionIds n ss → n ≤ id → moved ss ≡ ss
  below_moved n [] h le = refl
  below_moved n (s ∷ ss) h le = ground (arith, below_moved s.id ss h.1)

  below_free :
      (k n : ℕ) (ss : List Session)
      → SessionIds n ss
      → n ≤ id
      → others_free ss ≡ false
      → All (Apart (row_of k i)) ss
  below_free k n [] h le f = tt
  below_free k n (s ∷ ss) h le f =
      (ground arith, below_free k s.id ss h.1 (ground arith) (ground arith))

  All-moved :
      (s : Session) (ss : List Session)
      → (s.id == id) ≡ false
      → (session_clash (session_input_slot i) s && not_excluded id s.id) ≡ false
      → All (Apart s) ss
      → All (Apart s) (moved ss)
  All-moved s [] ne f h = tt
  All-moved s (t ∷ ss) ne f h = (ground arith, All-moved s ss ne f h.1)

  pub Pairs-moved :
      (n : ℕ) (ss : List Session)
      → SessionIds n ss
      → others_free ss ≡ false
      → Pairs Apart ss
      → Pairs Apart (moved ss)
  Pairs-moved n [] h f p = tt
  Pairs-moved n (s ∷ ss) h f p = elim (Bool-cases (s.id == id)) [
    | inl e ↦
        let le : s.id ≤ id = ground arith in
        let tail : others_free ss ≡ false = ground arith in
        rw e (rw (below_moved s.id ss h.1 le) (below_free s.id s.id ss h.1 le tail, p.1))
    | inr e ↦
        let tail : others_free ss ≡ false = ground arith in
        let head : (session_clash (session_input_slot i) s && not_excluded id s.id) ≡ false =
          ground arith in
        rw e (All-moved s ss e head p.0, Pairs-moved s.id ss h.1 tail p.1)
  ]

  pub SessionIds-moved : (n : ℕ) (ss : List Session) → SessionIds n ss → SessionIds n (moved ss)
  SessionIds-moved n [] h = tt
  SessionIds-moved n (s ∷ ss) h = elim (Bool-cases (s.id == id)) [
    | inl e ↦ rw e (h.0, SessionIds-moved s.id ss h.1)
    | inr e ↦ rw e (h.0, SessionIds-moved s.id ss h.1)
  ]

  pub Crossed-moved :
      (ss : List Session) (bs : List Booking)
      → ((k : ℕ) → All (ApartMixed (row_of k i)) bs)
      → Crossed ss bs
      → Crossed (moved ss) bs
  Crossed-moved [] bs f h = tt
  Crossed-moved (s ∷ ss) bs f h = elim (Bool-cases (s.id == id)) [
    | inl e ↦ rw e (f s.id, Crossed-moved ss bs f h.1)
    | inr e ↦ rw e (h.0, Crossed-moved ss bs f h.1)
  ]

-- Deleting sessions.
module _ (p : Session → Bool) where
  pub SessionIds-deleted :
      (n m : ℕ) (ss : List Session) → n ≤ m → SessionIds n ss → SessionIds m (delete_where p ss)
  SessionIds-deleted n m [] le h = tt
  SessionIds-deleted n m (s ∷ ss) le h = elim (Bool-cases (p s)) [
    | inl e ↦ rw e (SessionIds-deleted s.id m ss (ground arith) h.1)
    | inr e ↦ rw e (omega arith, SessionIds-deleted s.id s.id ss (omega arith) h.1)
  ]

  pub All-deleted {ℓ} :
      (P : Session → Type ℓ) (ss : List Session) → All P ss → All P (delete_where p ss)
  All-deleted P [] h = tt
  All-deleted P (s ∷ ss) h = elim (Bool-cases (p s)) [
    | inl e ↦ rw e (All-deleted P ss h.1)
    | inr e ↦ rw e (h.0, All-deleted P ss h.1)
  ]

  pub Pairs-deleted : (ss : List Session) → Pairs Apart ss → Pairs Apart (delete_where p ss)
  Pairs-deleted [] h = tt
  Pairs-deleted (s ∷ ss) h = elim (Bool-cases (p s)) [
    | inl e ↦ rw e (Pairs-deleted ss h.1)
    | inr e ↦ rw e (All-deleted (Apart s) ss h.0, Pairs-deleted ss h.1)
  ]
