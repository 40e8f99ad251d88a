-- ===== src/Occupancy/Release.antt =====
-- Who may cancel a booking, and what a cancellation gives back.
use mathlib.Core.List.{Memᴰ}
use ocm.Prelude.{
  ℕ, ◌≤◌, ◌<◌, ◌≡◌, refl, ap, Bool, true, false, ◌&&◌, ◌==◌, List, [], ◌∷◌, any, All, arith,
  no_faults, ok, if◌then◌else◌, inl, inr, some, find, All-mem, mem_of_find, Option-cases,
  update_where, any_of_mem,
}
use ocm.Occupancy.Model.{
  Booking, Session, Db, Slot, cancelled, session_clash, booking_clash, not_excluded, conflicts,
  is_active, room_exists,
}
use ocm.Occupancy.Bookings.{
  BookingInput, BookingView, booking_slot, input_slot, get_by_id, insert_booking, create_tx,
  cancel_check, cancel, to_cancel, set_booking,
}
use ocm.Occupancy.Rows.{ApartMixed, ApartActive, Pairs, BookingIds, Crossed}
use ocm.Occupancy.Disjoint.{Inv}

-- The request that asks for a booking's slot again.
abbrev pub again : Booking → BookingInput
again b = record {
  classroom_id = b.classroom_id;
  date = b.date;
  period_start = b.period_start;
  period_end = b.period_end;
  purpose = b.purpose;
}

abbrev pub without : ℕ → List Booking → List Booking
without id = update_where (to_cancel id) (λ b. record b { status = cancelled })

-- A view comes from a row of the table whose classroom exists.
get_by_id_found :
    (db : Db) (id : ℕ) (v : BookingView)
    → get_by_id false db id ≡ ok v
    → (find (λ b. b.id == id) db.bookings ≡ some v.booking)
      × (room_exists db v.booking.classroom_id ≡ true)
unfolding get_by_id
get_by_id_found db id v h = elim (Option-cases (find (λ b. b.id == id) db.bookings)) [
  | inl e ↦ absurd (ground arith)
  | inr (b, e) ↦ elim (Option-cases (find (λ r. r.id == b.classroom_id) db.classrooms)) [
    | inl g ↦ absurd (ground arith)
    | inr (r, g) ↦
        let (m, k) = mem_of_find (λ r. r.id == b.classroom_id) db.classrooms g in
        let there : room_exists db b.classroom_id ≡ true = any_of_mem _ db.classrooms m k in
        (ground arith, ground arith)
  ]
]

cleared :
    (b c : Booking)
    → (c.id == b.id) ≡ false
    → ApartActive b c
    → is_active b.status ≡ true
    → (booking_clash (booking_slot b) c && not_excluded 0 c.id) ≡ false
cleared b c ne h a = ground arith

cleared' :
    (b c : Booking)
    → ApartActive c b
    → is_active b.status ≡ true
    → (booking_clash (booking_slot b) c && not_excluded 0 c.id) ≡ false
cleared' b c h a = ground arith

abbrev clash_again : Booking → Booking → Bool
clash_again b c = booking_clash (booking_slot b) c && not_excluded 0 c.id

cancelled_clear :
    (b c : Booking)
    → b.id ≡ c.id
    → is_active c.status ≡ true
    → clash_again b (if to_cancel b.id c then record c { status = cancelled } else c) ≡ false
cancelled_clear b c e a = ground arith

id_below : (b : Booking) (n : ℕ) (bs : List Booking) → BookingIds n bs → Memᴰ b bs → b.id < n
id_below b n [] ids m = elim m [ ]
id_below b n (c ∷ bs) ids (Memᴰ.head e) = omega (arith, ap (λ x. x.id) e)
id_below b n (c ∷ bs) ids (Memᴰ.tail m) = omega (arith, id_below b c.id bs ids.1 m)

-- Below a booking of its own id every row is another booking.
without_below :
    (b : Booking) (n : ℕ) (bs : List Booking)
    → BookingIds n bs
    → n ≤ b.id
    → is_active b.status ≡ true
    → All (ApartActive b) bs
    → any (clash_again b) (without b.id bs) ≡ false
without_below b n [] ids le a h = refl
without_below b n (c ∷ bs) ids le a h =
    let ne : (c.id == b.id) ≡ false = ground arith in
    rw (ne, cleared b c ne h.0 a) (without_below b c.id bs ids.1 (ground arith) a h.1)

without_clear :
    (b : Booking) (n : ℕ) (bs : List Booking)
    → BookingIds n bs
    → Memᴰ b bs
    → is_active b.status ≡ true
    → Pairs ApartActive bs
    → any (clash_again b) (without b.id bs) ≡ false
without_clear b n [] ids m a h = elim m [ ]
without_clear b n (c ∷ bs) ids (Memᴰ.head e) a h =
    let same : b.id ≡ c.id = ap (λ x. x.id) e in
    let apart : All (ApartActive b) bs = rw e h.0 in
    rw (cancelled_clear b c same (rw e at a)) (without_below b c.id bs ids.1 (omega arith) a apart)
without_clear b n (c ∷ bs) ids (Memᴰ.tail m) a h =
    let ne : (c.id == b.id) ≡ false = ground (arith, id_below b c.id bs ids.1 m) in
    rw (ne, cleared' b c (All-mem (ApartActive c) bs m h.0) a)
      (without_clear b c.id bs ids.1 m a h.1)

sessions_clear :
    (b : Booking) (ss : List Session)
    → is_active b.status ≡ true
    → All (λ s. ApartMixed s b) ss
    → any (session_clash (booking_slot b)) ss ≡ false
sessions_clear b [] a h = refl
sessions_clear b (s ∷ ss) a h = ground (arith, sessions_clear b ss a h.1)

Crossed-at :
    (b : Booking) (ss : List Session) (bs : List Booking)
    → Memᴰ b bs
    → Crossed ss bs
    → All (λ s. ApartMixed s b) ss
Crossed-at b [] bs m h = tt
Crossed-at b (s ∷ ss) bs m h = (All-mem (ApartMixed s) bs m h.0, Crossed-at b ss bs m h.1)

cancel_done :
    (id user : ℕ) (db : Db) (v : BookingView)
    → get_by_id false db id ≡ ok v
    → is_active v.booking.status ≡ true
    → (cancel no_faults id user true db db).0
      ≡ set_booking (to_cancel id) (λ b. record b { status = cancelled }) db
unfolding cancel cancel_check
cancel_done id user db v h a = ground arith

conflicts_clear :
    (at : ℕ) (db : Db) (w : Slot)
    → any (session_clash w) db.sessions ≡ false
    → any (λ b. booking_clash w b && not_excluded 0 b.id) db.bookings ≡ false
    → conflicts no_faults at db w 0 ≡ ok false
unfolding conflicts
conflicts_clear at db w h k = ground arith

create_tx_free :
    (i : BookingInput) (user : ℕ) (db : Db)
    → room_exists db i.classroom_id ≡ true
    → conflicts no_faults 2 db (input_slot i) 0 ≡ ok false
    → create_tx no_faults i user db ≡ ok (insert_booking db i user, db.next_booking)
unfolding create_tx
create_tx_free i user db r c = ground arith

-- From a database that satisfies the invariant, once an active booking is cancelled anybody can book
-- its slot again.
pub create-cancel :
    (id user other : ℕ) (db : Db) (v : BookingView)
    → Inv db
    → get_by_id false db id ≡ ok v
    → is_active v.booking.status ≡ true
    → let db' = (cancel no_faults id user true db db).0 in
      create_tx no_faults (again v.booking) other db'
      ≡ ok (insert_booking db' (again v.booking) other, db'.next_booking)
create-cancel id user other db v inv h a =
    let b = v.booking in
    let (found, there) = get_by_id_found db id v h in
    let (m, k) = mem_of_find (λ c. c.id == id) db.bookings found in
    let same : b.id ≡ id = ground arith in
    let clear : any (clash_again b) (without id db.bookings) ≡ false =
      rw (← same)
        (without_clear b db.next_booking db.bookings inv.booking_ids m a inv.bookings_apart) in
    let sessions : any (session_clash (booking_slot b)) db.sessions ≡ false =
      sessions_clear b db.sessions a (Crossed-at b db.sessions db.bookings m inv.crossed) in
    rw (cancel_done id user db v h a)
      (create_tx_free (again b) other _ there (conflicts_clear 2 _ (booking_slot b) sessions clear))
