-- ===== src/Occupancy/Disjoint.antt =====
-- No classroom is taken twice: the invariant of the shared tables, kept by every call of the booking
-- and session stores.
use ocm.Prelude.{
  ℕ, suc, ◌≡◌, refl, Bool, false, ◌&&◌, List, [], ◌∷◌, any, arith, Bool-cases, inl, inr, Faults, ok,
  update_where, Result-cases,
}
use ocm.Occupancy.Model.{
  Booking, Session, Db, Slot, conflicts, session_conflict, session_clash, booking_clash,
  not_excluded,
}
use ocm.Occupancy.Bookings.{
  BookingInput, Decision, approve, reject, new_booking, insert_booking, create_tx, create,
  cancel_check, cancel, review_check, approve_tx, reject_now, review, set_booking, input_slot,
  to_review, review_row,
}
use ocm.Occupancy.Sessions.{
  SessionInput, session_input_slot, row_of, has_id, create_session_tx, create_session,
  update_session_tx, update_session, delete_session,
}
use ocm.Occupancy.Rows.{
  Apart, ApartActive, Pairs, SessionIds, BookingIds, Crossed, free_of_sessions, free_mixed,
  free_of_bookings, free_session_of_bookings, Crossed-cons,
}
use ocm.Occupancy.Moves.{
  Weakened, cancel-Weakened, review-Weakened, BookingIds-Weakened, Pairs-Weakened, Crossed-Weakened,
  Pairs-moved, SessionIds-moved, Crossed-moved, SessionIds-deleted, All-deleted, Pairs-deleted,
}

pub record Inv (db : Db) : Type 0 where
  pub booking_ids : BookingIds db.next_booking db.bookings
  pub session_ids : SessionIds db.next_session db.sessions
  pub bookings_apart : Pairs ApartActive db.bookings
  pub sessions_apart : Pairs Apart db.sessions
  pub crossed : Crossed db.sessions db.bookings

-- What a passed conflict check says.
conflicts_free :
    (fails : Faults) (at : ℕ) (db : Db) (w : Slot) (exclude : ℕ)
    → conflicts fails at db w exclude ≡ ok false
    → (any (session_clash w) db.sessions ≡ false)
      × (any (λ b. booking_clash w b && not_excluded exclude b.id) db.bookings ≡ false)
unfolding conflicts
conflicts_free fails at db w exclude h = ground arith

any-not_excluded :
    (w : Slot) (ss : List Session)
    → any (λ s. session_clash w s && not_excluded 0 s.id) ss ≡ false
    → any (session_clash w) ss ≡ false
any-not_excluded w [] h = refl
any-not_excluded w (s ∷ ss) h = ground (arith, any-not_excluded w ss)

session_conflict_free :
    (fails : Faults) (at : ℕ) (db : Db) (w : Slot) (exclude : ℕ)
    → session_conflict fails at db w exclude ≡ ok false
    → (any (λ s. session_clash w s && not_excluded exclude s.id) db.sessions ≡ false)
      × (any (booking_clash w) db.bookings ≡ false)
unfolding session_conflict
session_conflict_free fails at db w exclude h = ground arith

pub create_tx_cases :
    (fails : Faults) (i : BookingInput) (user : ℕ) (db : Db) (r : Db × ℕ)
    → create_tx fails i user db ≡ ok r
    → (conflicts fails 2 db (input_slot i) 0 ≡ ok false) × (r.0 ≡ insert_booking db i user)
unfolding create_tx
create_tx_cases fails i user db r h = ground arith

pub create_session_tx_cases :
    (fails : Faults) (i : SessionInput) (db : Db) (r : Db × ℕ)
    → create_session_tx fails i db ≡ ok r
    → (session_conflict fails 2 db (session_input_slot i) 0 ≡ ok false)
      × (r.0 ≡ record db {
        sessions = row_of db.next_session i ∷ db.sessions;
        next_session = suc db.next_session;
      })
unfolding create_session_tx
create_session_tx_cases fails i db r h = ground arith

pub update_session_tx_cases :
    (fails : Faults) (id : ℕ) (i : SessionInput) (db db' : Db)
    → update_session_tx fails id i db ≡ ok db'
    → (session_conflict fails 2 db (session_input_slot i) id ≡ ok false)
      × (db' ≡ record db { sessions = update_where (has_id id) (λ s. row_of s.id i) db.sessions })
unfolding update_session_tx
update_session_tx_cases fails id i db db' h = ground arith

insert_booking-Inv :
    (i : BookingInput) (user : ℕ) (db : Db)
    → any (session_clash (input_slot i)) db.sessions ≡ false
    → any (λ b. booking_clash (input_slot i) b && not_excluded 0 b.id) db.bookings ≡ false
    → Inv db
    → Inv (insert_booking db i user)
insert_booking-Inv i user db hs hb v = record {
  booking_ids = (omega arith, v.booking_ids);
  session_ids = v.session_ids;
  bookings_apart = (free_of_bookings (new_booking db i user) db.bookings hb, v.bookings_apart);
  sessions_apart = v.sessions_apart;
  crossed =
      Crossed-cons (new_booking db i user) db.sessions db.bookings
        (free_mixed (new_booking db i user) db.sessions hs) v.crossed;
}

pub create-Inv :
    (fails : Faults) (i : BookingInput) (user : ℕ) (db : Db)
    → Inv db
    → Inv (create fails i user db).0
unfolding create
create-Inv fails i user db v = elim (Result-cases (create_tx fails i user db)) [
  | inl (r, e) ↦
      let (free, made) = create_tx_cases fails i user db r e in
      let (hs, hb) = conflicts_free fails 2 db (input_slot i) 0 free in
      rw (e, create) (rw made (insert_booking-Inv i user db hs hb v))
  | inr (x, e) ↦ rw (e, create) v
]

-- An UPDATE that only moves bookings towards inactive statuses.
Weakened-Inv :
    (db : Db) (bs : List Booking)
    → Weakened bs db.bookings
    → Inv db
    → Inv (record db { bookings = bs })
Weakened-Inv db bs w v = record {
  booking_ids = BookingIds-Weakened db.next_booking bs db.bookings w v.booking_ids;
  session_ids = v.session_ids;
  bookings_apart = Pairs-Weakened bs db.bookings w v.bookings_apart;
  sessions_apart = v.sessions_apart;
  crossed = Crossed-Weakened db.sessions bs db.bookings w v.crossed;
}

pub cancel-Inv :
    (fails : Faults) (id user : ℕ) (is_admin : Bool) (seen db : Db)
    → Inv db
    → Inv (cancel fails id user is_admin seen db).0
unfolding cancel
cancel-Inv fails id user is_admin seen db v =
    let w = Weakened-Inv db _ (cancel-Weakened id db.bookings) v in
    elim (Result-cases (cancel_check (fails 0) seen id user is_admin)) [
      | inl (r, e) ↦
          rw (e, cancel) (elim (Bool-cases (fails 1)) [ inl f ↦ rw f v | inr f ↦ rw f w ])
      | inr (x, e) ↦ rw (e, cancel) v
    ]

pub approve_tx_cases :
    (fails : Faults) (now id : ℕ) (b : Booking) (checked db db' : Db)
    → approve_tx fails now id b checked db ≡ ok db'
    → db' ≡ set_booking (to_review id) (review_row approve now) db
unfolding approve_tx
approve_tx_cases fails now id b checked db db' h = ground arith

reject_now-Inv :
    (fails : Faults) (now id : ℕ) (db : Db) → Inv db → Inv (reject_now fails now id db).0
unfolding reject_now
reject_now-Inv fails now id db v = elim (Bool-cases (fails 1)) [
  | inl f ↦ rw f v
  | inr f ↦ rw f (Weakened-Inv db _ (review-Weakened reject now id db.bookings) v)
]

pub review-Inv :
    (fails : Faults) (now id : ℕ) (d : Decision) (seen checked db : Db)
    → Inv db
    → Inv (review fails now id d seen checked db).0
unfolding review
review-Inv fails now id approve seen checked db v =
    elim (Result-cases (review_check (fails 0) seen id)) [
      | inl (b, e) ↦
          rw (e, review)
            (elim (Result-cases (approve_tx fails now id b checked db)) [
              | inl (db', f) ↦
                  rw (f, review)
                    (rw (approve_tx_cases fails now id b checked db db' f)
                      (Weakened-Inv db _ (review-Weakened approve now id db.bookings) v))
              | inr (x, f) ↦ rw (f, review) v
            ])
      | inr (x, e) ↦ rw (e, review) v
    ]
review-Inv fails now id reject seen checked db v =
    elim (Result-cases (review_check (fails 0) seen id)) [
      | inl (b, e) ↦ rw (e, review) (reject_now-Inv fails now id db v)
      | inr (x, e) ↦ rw (e, review) v
    ]

pub create_session-Inv :
    (fails : Faults) (i : SessionInput) (db : Db) → Inv db → Inv (create_session fails i db).0
unfolding create_session
create_session-Inv fails i db v = elim (Result-cases (create_session_tx fails i db)) [
  | inl (r, e) ↦
      let (free, made) = create_session_tx_cases fails i db r e in
      let (hs, hb) = session_conflict_free fails 2 db (session_input_slot i) 0 free in
      let s = row_of db.next_session i in
      rw (e, create_session)
        (rw made (record {
          booking_ids = v.booking_ids;
          session_ids = (omega arith, v.session_ids);
          bookings_apart = v.bookings_apart;
          sessions_apart = (
            free_of_sessions s db.sessions (any-not_excluded _ db.sessions hs),
            v.sessions_apart,
          );
          crossed = (free_session_of_bookings s db.bookings hb, v.crossed);
        }))
  | inr (x, e) ↦ rw (e, create_session) v
]

pub update_session-Inv :
    (fails : Faults) (id : ℕ) (i : SessionInput) (db : Db)
    → Inv db
    → Inv (update_session fails id i db).0
unfolding update_session
update_session-Inv fails id i db v = elim (Result-cases (update_session_tx fails id i db)) [
  | inl (db', e) ↦
      let (free, made) = update_session_tx_cases fails id i db db' e in
      let (hs, hb) = session_conflict_free fails 2 db (session_input_slot i) id free in
      rw (e, update_session)
        (rw made (record {
          booking_ids = v.booking_ids;
          session_ids = SessionIds-moved id i db.next_session db.sessions v.session_ids;
          bookings_apart = v.bookings_apart;
          sessions_apart =
              Pairs-moved id i db.next_session db.sessions v.session_ids hs v.sessions_apart;
          crossed =
              Crossed-moved id i db.sessions db.bookings
                (λ k. free_session_of_bookings (row_of k i) db.bookings hb) v.crossed;
        }))
  | inr (x, e) ↦ rw (e, update_session) v
]

pub delete_session-Inv :
    (fails : Faults) (id : ℕ) (db : Db) → Inv db → Inv (delete_session fails id db).0
unfolding delete_session
delete_session-Inv fails id db v = elim (Bool-cases (fails 0)) [
  | inl f ↦ rw f v
  | inr f ↦ rw f (record {
    booking_ids = v.booking_ids;
    session_ids =
        SessionIds-deleted (has_id id) db.next_session db.next_session db.sessions (omega arith)
          v.session_ids;
    bookings_apart = v.bookings_apart;
    sessions_apart = Pairs-deleted (has_id id) db.sessions v.sessions_apart;
    crossed = All-deleted (has_id id) _ db.sessions v.crossed;
  })
]
