-- ===== src/Occupancy/Requests.antt =====
-- What an answer of the booking handlers says about the tables.
use ocm.Prelude.{
  ℕ, zero, suc, ◌+◌, ◌-◌, ◌≤◌, ◌<◌, ◌≡◌, refl, Bool, true, false, ◌&&◌, List, [], ◌∷◌, Option, some,
  none, ◌==◌, elem, find, any, arith, Faults, ok, err, Result-cases, Option-cases, Bool-cases, inl,
  inr, ◌⊎◌, ◌≢◌, mem_of_find, any_of_mem,
}
use mathlib.Core.Path.{subst}
use ocm.Prelude.Int.{pos_part}
use ocm.Prelude.Text.{Text, text_eq, trim_space}
use ocm.Calendar.{Date, parse_date, date_key}
use ocm.Schedule.{Regime, active_for, period_index_set}
use ocm.Http.{json, status_code}
use ocm.Authz.{Subject}
use ocm.Occupancy.Model.{
  Db, Error, conflicts, not_found, classroom_conflict, invalid_transition, forbidden, database,
}
use ocm.Occupancy.Bookings.{
  BookingInput, BookingView, new_booking, get_by_id, insert_booking, create_tx, create, input_slot,
}
use ocm.Occupancy.Handler.{
  BookingBody, all_valid, check_regime, check_classroom, validate_booking, create_answer,
  handle_create,
}
use ocm.Occupancy.Disjoint.{create_tx_cases}

all_valid_at :
    (valid : List ℕ) (n i p : ℕ)
    → all_valid valid n i ≡ true
    → i ≤ p
    → p < i + n
    → elem p valid ≡ true
unfolding all_valid
all_valid_at valid zero i p h le lt = absurd (omega arith)
all_valid_at valid (suc n) i p h le lt = elim (Bool-cases (i == p)) [
  | inl e ↦ let same : i ≡ p = ground arith in rw (← same) (ground arith)
  | inr e ↦ all_valid_at valid n (suc i) p (ground arith) (ground arith) (omega arith)
]

-- Every period from the first to the last rings in the regime that is in force on the date.
pub data InRegime (regimes : List Regime) (date : Date) (first last : ℕ) : Type 0 where
  rings :
      (r : Regime)
      → active_for regimes date ≡ some r
      → ((p : ℕ) → first ≤ p → p ≤ last → elem p (period_index_set r) ≡ true)
      → InRegime regimes date first last

check_regime-InRegime :
    (refused : Bool) (regimes : List Regime) (date : Date) (first last : ℕ)
    → check_regime refused regimes date first last ≡ ok tt
    → InRegime regimes date first last
unfolding check_regime
check_regime-InRegime refused regimes date first last h =
    elim (Option-cases (active_for regimes date)) [
      | inl e ↦ absurd (ground arith)
      | inr (r, e) ↦
          let all : all_valid (period_index_set r) (last + 1 - first) first ≡ true = ground arith in
          rings r e (λ p le ge.
            all_valid_at (period_index_set r) (last + 1 - first) first p all le (omega arith))
    ]

-- What a request body has to satisfy, and what comes of it.
pub record Valid (db : Db) (regimes : List Regime) (b : BookingBody) (i : BookingInput)
    : Type 0 where
  pub date : Date
  pub parsed : parse_date b.date ≡ some date
  pub dated : i.date ≡ date_key date
  pub starts : 1 ≤ i.period_start
  pub ranged : i.period_start ≤ i.period_end
  pub purposeful : i.purpose ≢ []
  pub in_regime : InRegime regimes date i.period_start i.period_end
  pub free_room : any (λ r. r.id == i.classroom_id && r.available) db.classrooms ≡ true

check_classroom_lem :
    (refused : Bool) (db : Db) (id : ℕ)
    → check_classroom refused db id ≡ ok tt
    → any (λ r. r.id == id && r.available) db.classrooms ≡ true
unfolding check_classroom
check_classroom_lem refused db id h = elim (Option-cases (find (λ r. r.id == id) db.classrooms)) [
  | inl e ↦ absurd (ground arith)
  | inr (r, e) ↦
      let (m, k) = mem_of_find (λ r. r.id == id) db.classrooms e in
      any_of_mem _ db.classrooms m (ground arith)
]

trimmed : (s : Text) → text_eq s [] ≡ false → s ≢ []
trimmed [] h e = cc
trimmed (c ∷ s) h e = cc

-- What `validateBooking` lets through satisfies all of it.
pub validate_booking-Valid :
    (fails : Faults) (db : Db) (regimes : List Regime) (b : BookingBody) (i : BookingInput)
    → validate_booking fails db regimes b ≡ ok i
    → Valid db regimes b i
unfolding validate_booking
validate_booking-Valid fails db regimes b i h = elim (Option-cases (parse_date b.date)) [
  | inl e ↦ absurd (ground arith)
  | inr (date, e) ↦
      let room : check_classroom (fails 10) db (pos_part b.classroom_id) ≡ ok tt = ground arith in
      let rings : check_regime (fails 11) regimes date (pos_part b.period_start)
            (pos_part b.period_end)
          ≡ ok tt =
        ground arith in
      let good =
        check_regime-InRegime (fails 11) regimes date (pos_part b.period_start)
          (pos_part b.period_end) rings in
      let there = check_classroom_lem (fails 10) db (pos_part b.classroom_id) room in
      let filled : text_eq (trim_space b.purpose) [] ≡ false = ground arith in
      let from : 1 ≤ pos_part b.period_start = ground arith in
      let until : pos_part b.period_start ≤ pos_part b.period_end = ground arith in
      let made : record {
        classroom_id = pos_part b.classroom_id;
        date = date_key date;
        period_start = pos_part b.period_start;
        period_end = pos_part b.period_end;
        purpose = trim_space b.purpose;
      }
          ≡ i =
        ground arith in
      subst (Valid db regimes b) made (record {
        date = date;
        parsed = e;
        dated = refl;
        starts = from;
        ranged = until;
        purposeful = trimmed (trim_space b.purpose) filled;
        in_regime = good;
        free_room = there;
      })
]

create_tx_id :
    (fails : Faults) (i : BookingInput) (user : ℕ) (db : Db) (r : Db × ℕ)
    → create_tx fails i user db ≡ ok r
    → r.1 ≡ db.next_booking
unfolding create_tx
create_tx_id fails i user db r h = ground arith

-- The view of the row on top of the table.
read_new :
    (failed : Bool) (i : BookingInput) (user : ℕ) (db : Db) (v : BookingView)
    → get_by_id failed (insert_booking db i user) db.next_booking ≡ ok v
    → v.booking ≡ new_booking db i user
unfolding get_by_id
read_new failed i user db v h = ground (
  arith,
  Option-cases (find (λ r. r.id == i.classroom_id) db.classrooms),
  Option-cases (find (λ u. u.id == user) db.users),
)

create_ok :
    (fails : Faults) (i : BookingInput) (user : ℕ) (db : Db) (v : BookingView)
    → (create fails i user db).1 ≡ ok v
    → (conflicts fails 2 db (input_slot i) 0 ≡ ok false)
      × ((create fails i user db).0 ≡ insert_booking db i user)
      × (v.booking ≡ new_booking db i user)
unfolding create
create_ok fails i user db v h = elim (Result-cases (create_tx fails i user db)) [
  | inl (r, e) ↦
      let (free, made) = create_tx_cases fails i user db r e in
      let same = create_tx_id fails i user db r e in
      let read : get_by_id (fails 6) r.0 r.1 ≡ ok v = rw (e, create) at h in
      (free, rw (e, create) made, read_new (fails 6) i user db v (rw (made, same) at read))
  | inr (x, e) ↦ absurd (ground arith)
]

-- A creation that is answered with a view was made by a signed-in user, with a body that satisfies
-- the checks on the tables as they were read before the transaction, which need not be those that
-- the transaction finds, for a slot that its own conflict check found free; the answer is 201, the
-- view shows the pending booking of that user, and the transaction changed its tables by that one
-- row.
pub created :
    (fails : Faults) (regimes : List Regime) (b : BookingBody) (subject : Option Subject)
    (seen db : Db) (n : ℕ) (v : BookingView)
    → (handle_create fails regimes (some b) subject seen db).1 ≡ json n v
    → (n ≡ 201)
      × ((s : Subject) × (i : BookingInput) × (subject ≡ some s)
          × Valid seen regimes b i
          × (conflicts fails 2 db (input_slot i) 0 ≡ ok false)
          × (v.booking ≡ new_booking db i s.id)
          × ((handle_create fails regimes (some b) subject seen db).0 ≡ insert_booking db i s.id))
unfolding handle_create
created fails regimes b none seen db n v h = absurd (ground arith)
created fails regimes b (some s) seen db n v h =
    elim (Result-cases (validate_booking fails seen regimes b)) [
      | inl (i, e) ↦ elim (Result-cases (create fails i s.id db).1) [
        | inl (w, g) ↦
            let (free, made, row) = create_ok fails i s.id db w g in
            let same : w ≡ v = ground arith in
            (
              ground arith,
              (
                s,
                i,
                refl,
                validate_booking-Valid fails seen regimes b i e,
                free,
                rw (← same) row,
                rw (e, handle_create) made,
              ),
            )
        | inr (x, g) ↦ absurd (refused x (ground arith))
      ]
      | inr (m, e) ↦ absurd (ground arith)
    ]
  where
    refused : (x : Error) → create_answer (err x) ≡ json n v → ⊥
    refused not_found k = cc
    refused classroom_conflict k = cc
    refused invalid_transition k = cc
    refused forbidden k = cc
    refused database k = cc

get_by_id_code :
    (failed : Bool) (db : Db) (id : ℕ)
    → (status_code (create_answer (get_by_id failed db id)) ≡ 201)
      ⊎ (status_code (create_answer (get_by_id failed db id)) ≡ 500)
unfolding get_by_id
get_by_id_code failed db id = ground arith
