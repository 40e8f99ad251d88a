-- ===== src/Occupancy/Edges.antt =====
-- The life of a booking: what the calls do to its status, and what they leave alone.
use mathlib.Core.List.{Memᴰ}
use ocm.Prelude.{
  ℕ, ◌≡◌, ◌⊎◌, inl, inr, refl, ap, Bool, true, false, List, [], ◌∷◌, arith, Faults, Result-cases,
  Bool-cases, mem-update_where, mem_of_update_where,
}
use ocm.Occupancy.Model.{Booking, Status, pending, approved, rejected, cancelled, Db, is_active}
use ocm.Occupancy.Bookings.{
  BookingInput, Decision, approve, reject, create_tx, create, cancel_check, cancel, review_check,
  approve_tx, reject_now, review, to_cancel, to_review, review_row, set_booking, new_booking,
}
use ocm.Occupancy.Sessions.{
  create_session, update_session, delete_session, create_session_tx, update_session_tx,
}
use ocm.Occupancy.Disjoint.{
  create_tx_cases, approve_tx_cases, create_session_tx_cases, update_session_tx_cases,
}
use ocm.Occupancy.History.{
  Call, creates, cancels, reviews, creates_session, updates_session, deletes_session, step, run,
}

infix 40 ◌⟶◌
pub data ◌⟶◌ : Status → Status → Type 0 where
  accept : pending ⟶ approved
  turn_down : pending ⟶ rejected
  withdraw : pending ⟶ cancelled
  give_back : approved ⟶ cancelled

-- How the table may change: not at all, by one new pending row, or by an UPDATE that selects active
-- rows and takes their status along an edge.
pub data Change (db db' : Db) : Type 0 where
  same : db'.bookings ≡ db.bookings → Change db db'
  added :
      (i : BookingInput) (user : ℕ)
      → db'.bookings ≡ new_booking db i user ∷ db.bookings
      → Change db db'
  withdrawn :
      (id : ℕ)
      → db'.bookings
        ≡ (set_booking (to_cancel id) (λ b. record b { status = cancelled }) db).bookings
      → Change db db'
  decided_on :
      (d : Decision) (now id : ℕ)
      → db'.bookings ≡ (set_booking (to_review id) (review_row d now) db).bookings
      → Change db db'

create-Change :
    (f : Faults) (i : BookingInput) (user : ℕ) (db : Db) → Change db (create f i user db).0
unfolding create
create-Change f i user db = elim (Result-cases (create_tx f i user db)) [
  | inl (r, e) ↦
      rw (e, create) (added i user (ap (λ d. d.bookings) (create_tx_cases f i user db r e).1))
  | inr (x, e) ↦ rw (e, create) (same refl)
]

cancel-Change :
    (f : Faults) (id user : ℕ) (admin : Bool) (seen db : Db)
    → Change db (cancel f id user admin seen db).0
unfolding cancel
cancel-Change f id user admin seen db =
    elim (Result-cases (cancel_check (f 0) seen id user admin)) [
      | inl (r, e) ↦
          rw (e, cancel)
            (elim (Bool-cases (f 1)) [
              | inl g ↦ rw g (same refl)
              | inr g ↦ rw g (withdrawn id refl)
            ])
      | inr (x, e) ↦ rw (e, cancel) (same refl)
    ]

reject-Change : (f : Faults) (now id : ℕ) (db : Db) → Change db (reject_now f now id db).0
unfolding reject_now
reject-Change f now id db = elim (Bool-cases (f 1)) [
  | inl g ↦ rw g (same refl)
  | inr g ↦ rw g (decided_on reject now id refl)
]

review-Change :
    (f : Faults) (now id : ℕ) (d : Decision) (seen checked db : Db)
    → Change db (review f now id d seen checked db).0
unfolding review
review-Change f now id approve seen checked db = elim (Result-cases (review_check (f 0) seen id)) [
  | inl (b, e) ↦
      rw (e, review)
        (elim (Result-cases (approve_tx f now id b checked db)) [
          | inl (db', g) ↦
              rw (g, review)
                (decided_on approve now id
                  (ap (λ x. x.bookings) (approve_tx_cases f now id b checked db db' g)))
          | inr (x, g) ↦ rw (g, review) (same refl)
        ])
  | inr (x, e) ↦ rw (e, review) (same refl)
]
review-Change f now id reject seen checked db = elim (Result-cases (review_check (f 0) seen id)) [
  | inl (b, e) ↦ rw (e, review) (reject-Change f now id db)
  | inr (x, e) ↦ rw (e, review) (same refl)
]

step-Change : (c : Call) (db : Db) → Change db (step c db)
unfolding step create_session update_session delete_session
step-Change (creates f i user) db = create-Change f i user db
step-Change (cancels f id user admin seen) db = cancel-Change f id user admin seen db
step-Change (reviews f now id d seen checked) db = review-Change f now id d seen checked db
step-Change (creates_session f i) db = elim (Result-cases (create_session_tx f i db)) [
  | inl (r, e) ↦
      rw (e, step, create_session)
        (same (ap (λ x. x.bookings) (create_session_tx_cases f i db r e).1))
  | inr (x, e) ↦ rw (e, step, create_session) (same refl)
]
step-Change (updates_session f id i) db = elim (Result-cases (update_session_tx f id i db)) [
  | inl (r, e) ↦
      rw (e, step, update_session)
        (same (ap (λ x. x.bookings) (update_session_tx_cases f id i db r e).1))
  | inr (x, e) ↦ rw (e, step, update_session) (same refl)
]
step-Change (deletes_session f id) db = elim (Bool-cases (f 0)) [
  | inl g ↦ rw (g, step, delete_session) (same refl)
  | inr g ↦ rw (g, step, delete_session) (same refl)
]

-- The row `b'` is the row `b` with its status taken along an edge, and the rest of it unchanged but
-- for the time of the review.
pub record Edge (b b' : Booking) : Type 0 where
  pub same_id : b'.id ≡ b.id
  pub same_user : b'.user_id ≡ b.user_id
  pub same_room : b'.classroom_id ≡ b.classroom_id
  pub same_date : b'.date ≡ b.date
  pub same_start : b'.period_start ≡ b.period_start
  pub same_end : b'.period_end ≡ b.period_end
  pub moves : b.status ⟶ b'.status

withdrawn-Edge :
    (id : ℕ) (b : Booking) → to_cancel id b ≡ true → Edge b (record b { status = cancelled })
withdrawn-Edge id b h = record {
  same_id = refl;
  same_user = refl;
  same_room = refl;
  same_date = refl;
  same_start = refl;
  same_end = refl;
  moves = grind (arith, withdraw, give_back);
}

decided-Edge :
    (d : Decision) (now id : ℕ) (b : Booking) → to_review id b ≡ true → Edge b (review_row d now b)
decided-Edge d now id b h = record {
  same_id = refl;
  same_user = refl;
  same_room = refl;
  same_date = refl;
  same_start = refl;
  same_end = refl;
  moves = grind (arith, accept, turn_down);
}

abbrev pub Origin : Db → Booking → Type 0
Origin db b' =
    Memᴰ b' db.bookings
    ⊎ (((b'.id ≡ db.next_booking) × (b'.status ≡ pending))
        ⊎ ((b : Booking) × Memᴰ b db.bookings × Edge b b'))

-- After one call, each booking of the table was there before as it is, or is new, pending and under
-- the next id, or comes from a booking whose status the call took along an edge.
pub step-Origin : (c : Call) (db : Db) (b' : Booking) → Memᴰ b' (step c db).bookings → Origin db b'
step-Origin c db b' m = elim (step-Change c db) [
  | same e ↦ inl (rw e at m)
  | added i user e ↦ new_or_old i user (rw e at m)
  | withdrawn id e ↦ elim (mem_of_update_where (to_cancel id) _ db.bookings (rw e at m)) [
    | inl k ↦ inl k
    | inr (b, k, h, g) ↦ inr (inr (b, k, rw g (withdrawn-Edge id b h)))
  ]
  | decided_on d now id e ↦ elim (mem_of_update_where (to_review id) _ db.bookings (rw e at m)) [
    | inl k ↦ inl k
    | inr (b, k, h, g) ↦ inr (inr (b, k, rw g (decided-Edge d now id b h)))
  ]
]
  where
    new_or_old :
        (i : BookingInput) (user : ℕ) → Memᴰ b' (new_booking db i user ∷ db.bookings) → Origin db b'
    new_or_old i user (Memᴰ.head e) = inr (inl (ap (λ x. x.id) e, ap (λ x. x.status) e))
    new_or_old i user (Memᴰ.tail k) = inl k

step_settled :
    (c : Call) (db : Db) (b : Booking)
    → Memᴰ b db.bookings
    → is_active b.status ≡ false
    → Memᴰ b (step c db).bookings
step_settled c db b m h = elim (step-Change c db) [
  | same e ↦ rw e m
  | added i user e ↦ rw e (Memᴰ.tail m)
  | withdrawn id e ↦ rw e (mem-update_where (to_cancel id) _ db.bookings m (ground arith))
  | decided_on d now id e ↦ rw e (mem-update_where (to_review id) _ db.bookings m (ground arith))
]

-- A rejected or cancelled booking stays in the table as it is, through every history of calls.
pub settled_for_good :
    (cs : List Call) (db : Db) (b : Booking)
    → Memᴰ b db.bookings
    → is_active b.status ≡ false
    → Memᴰ b (run cs db).bookings
unfolding run
settled_for_good [] db b m h = m
settled_for_good (c ∷ cs) db b m h = settled_for_good cs (step c db) b (step_settled c db b m h) h
