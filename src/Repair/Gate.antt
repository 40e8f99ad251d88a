-- ===== src/Repair/Gate.antt =====
-- The gate of ordinary tickets: one unresolved ticket for a classroom.
use ocm.Prelude.{
  ℕ, ap, ◌∙◌, ◌≡◌, inl, inr, refl, true, false, List, [], ◌∷◌, ◌==◌, arith, Faults, any, ok, err,
  Result-cases, count_where, no_faults,
}
use ocm.Repair.{
  Repair, Db, RepairInput, open_exists, classroom_exists, has_open, insert, inserted, create_check,
  create, unresolved_in,
}

none_counted :
    (room : ℕ) (rs : List Repair)
    → any (unresolved_in room) rs ≡ false
    → count_where (unresolved_in room) rs ≡ 0
none_counted room [] h = refl
none_counted room (r ∷ rs) h = ground (arith, none_counted room rs)

create_check_ok :
    (fails : Faults) (i : RepairInput) (seen : Db)
    → create_check fails i seen ≡ ok tt
    → (any (unresolved_in i.classroom_id) seen.repairs ≡ false)
      × (any (λ c. c == i.classroom_id) seen.classrooms ≡ true)
unfolding create_check has_open classroom_exists
create_check_ok fails i seen h = ground arith

insert_ok :
    (fails : Faults) (at : ℕ) (i : RepairInput) (user : ℕ) (db : Db) (r : Repair)
    → (insert fails at i user db).1 ≡ ok r
    → (insert fails at i user db).0 ≡ inserted db i user
unfolding insert
insert_ok fails at i user db r h = ground arith

create_ok :
    (fails : Faults) (i : RepairInput) (user : ℕ) (seen db : Db) (r : Repair)
    → (create fails i user seen db).1 ≡ ok r
    → (create_check fails i seen ≡ ok tt) × ((create fails i user seen db).0 ≡ inserted db i user)
unfolding create
create_ok fails i user seen db r h = elim (Result-cases (create_check fails i seen)) [
  | inl (t, e) ↦ (e, rw (e, create) (insert_ok fails 2 i user db r (rw (e, create) at h)))
  | inr (x, e) ↦ absurd (ground arith)
]

-- With a database that answers, a ticket for an existing classroom that has an unresolved ticket is
-- refused as a duplicate, and the tables stay as they are.
pub create_refused :
    (i : RepairInput) (user : ℕ) (db : Db)
    → any (λ c. c == i.classroom_id) db.classrooms ≡ true
    → any (unresolved_in i.classroom_id) db.repairs ≡ true
    → create no_faults i user db db ≡ (db, err open_exists)
unfolding create create_check has_open classroom_exists
create_refused i user db c u = ground arith

checked_ok :
    (i : RepairInput) (seen : Db)
    → any (λ c. c == i.classroom_id) seen.classrooms ≡ true
    → any (unresolved_in i.classroom_id) seen.repairs ≡ false
    → create_check no_faults i seen ≡ ok tt
unfolding create_check has_open classroom_exists
checked_ok i seen c u = ground (arith, c, u)

create-inserted :
    (i : RepairInput) (user : ℕ) (seen db : Db)
    → create_check no_faults i seen ≡ ok tt
    → (create no_faults i user seen db).0 ≡ inserted db i user
unfolding create insert
create-inserted i user seen db h = rw (create, h) refl

-- Where two tickets are created for a classroom that exists and has no unresolved one, with a
-- database that answers: if the second creation makes its checks before the first one inserts, both
-- insert and the classroom has two unresolved tickets; if it begins after the first one has ended, it
-- is refused as a duplicate and changes nothing.
pub create_twice :
    (i j : RepairInput) (user other : ℕ) (db : Db)
    → j.classroom_id ≡ i.classroom_id
    → any (λ c. c == i.classroom_id) db.classrooms ≡ true
    → any (unresolved_in i.classroom_id) db.repairs ≡ false
    → (count_where
          (unresolved_in i.classroom_id)
          (create no_faults j other db (create no_faults i user db db).0).0.repairs
        ≡ 2)
      × (create no_faults j other
            (create no_faults i user db db).0
            (create no_faults i user db db).0
          ≡ ((create no_faults i user db db).0, err open_exists))
create_twice i j user other db same c u =
    let first = checked_ok i db c u in
    let second = checked_ok j db (rw same c) (rw same u) in
    let before = (create no_faults i user db db).0 in
    let empty = none_counted i.classroom_id db.repairs u in
    let one : before ≡ inserted db i user = create-inserted i user db db first in
    let two : (create no_faults j other db before).0 ≡ inserted (inserted db i user) j other =
      create-inserted j other db before second ∙ ap (λ d. inserted d j other) one in
    (
      ap (λ d. count_where (unresolved_in i.classroom_id) d.repairs) two
          ∙ ground (arith, same, empty),
      create_refused j other before
          (ap (λ d. any (λ x. x == j.classroom_id) d.classrooms) one ∙ rw same c)
          (ap (λ d. any (unresolved_in j.classroom_id) d.repairs) one ∙ ground (arith, same)),
    )
