-- ===== src/Repair/Ticket.antt =====
-- The life of a ticket under calls that run one after the other.
use mathlib.Core.List.{Memᴰ}
use ocm.Prelude.{
  ℕ, ◌≡◌, ◌⊎◌, inl, inr, refl, ap, Bool, true, false, List, [], ◌∷◌, some, ◌==◌, find, arith,
  Faults, ok, Result-cases, Bool-cases, Option-cases, mem-update_where, mem_of_update_where, Keys,
  find_of_mem, Keys-update_where,
}
use ocm.Prelude.Text.{Text}
use ocm.Repair.{
  Status, opened, completed, confirmed, Repair, Db, RepairInput, RepairUpdate, is_confirmed, get,
  insert, inserted, create, create_check, emergency_create, classroom_exists, update, update_check,
  confirm, confirm_check, has_id, to_confirm, updated, confirmed_row, set_repair, may_set,
}

pub data Call : Type 0 where
  creates : Faults → RepairInput → ℕ → Call
  emergencies : Faults → RepairInput → ℕ → Call
  updates : Faults → ℕ → RepairUpdate → ℕ → Call
  confirms : Faults → ℕ → ℕ → Call

unfoldable pub step : Call → Db → Db
step (creates f i user) db = (create f i user db db).0
step (emergencies f i user) db = (emergency_create f i user db db).0
step (updates f id u user) db = (update f id u user db db).0
step (confirms f id user) db = (confirm f id user db db).0

unfoldable pub run : List Call → Db → Db
run [] db = db
run (c ∷ cs) db = run cs (step c db)

abbrev pub Ids : Db → Type 0
Ids db = Keys (λ r. r.id) db.next_id db.repairs

-- How one call may change the table.
pub data Change (db db' : Db) : Type 0 where
  same : db' ≡ db → Change db db'
  added : (i : RepairInput) (user : ℕ) → db' ≡ inserted db i user → Change db db'
  moved :
      (id : ℕ) (r : Repair) (s : Status) (remark : Text) (user : ℕ)
      → find (λ x. x.id == id) db.repairs ≡ some r
      → is_confirmed r.status ≡ false
      → may_set s ≡ true
      → db' ≡ set_repair (has_id id) (updated s remark user) db
      → Change db db'
  closed :
      (id : ℕ) (r : Repair) (user : ℕ)
      → find (λ x. x.id == id) db.repairs ≡ some r
      → r.creator_id ≡ user
      → r.status ≡ completed
      → db' ≡ set_repair (to_confirm id) confirmed_row db
      → Change db db'

insert-Change :
    (f : Faults) (at : ℕ) (i : RepairInput) (user : ℕ) (db : Db)
    → Change db (insert f at i user db).0
unfolding insert
insert-Change f at i user db = elim (Bool-cases (f at)) [
  | inl e ↦ rw e (same refl)
  | inr e ↦ rw e (added i user refl)
]

get_found :
    (failed : Bool) (db : Db) (id : ℕ) (r : Repair)
    → get failed db id ≡ ok r
    → find (λ x. x.id == id) db.repairs ≡ some r
unfolding get
get_found failed db id r h = elim (Option-cases (find (λ x. x.id == id) db.repairs)) [
  | inl e ↦ absurd (ground arith)
  | inr (x, e) ↦ ground arith
]

update_check_cases :
    (failed : Bool) (db : Db) (id : ℕ) (u : RepairUpdate) (s : Status)
    → update_check failed db id u ≡ ok s
    → (r : Repair) × (get failed db id ≡ ok r)
      × (is_confirmed r.status ≡ false)
      × (may_set s ≡ true)
unfolding update_check
update_check_cases failed db id u s h = elim (Result-cases (get failed db id)) [
  | inl (r, e) ↦ (r, e, ground arith, ground (arith, Option-cases u.status))
  | inr (x, e) ↦ absurd (ground arith)
]

confirm_check_cases :
    (failed : Bool) (db : Db) (id user : ℕ) (r : Repair)
    → confirm_check failed db id user ≡ ok r
    → (get failed db id ≡ ok r)
      × (r.creator_id ≡ user)
      × ((is_confirmed r.status ≡ true) ⊎ (r.status ≡ completed))
unfolding confirm_check
confirm_check_cases failed db id user r h = elim (Result-cases (get failed db id)) [
  | inl (x, e) ↦ (ground arith, ground arith, ground arith)
  | inr (x, e) ↦ absurd (ground arith)
]

create-Change :
    (f : Faults) (i : RepairInput) (user : ℕ) (db : Db) → Change db (create f i user db db).0
unfolding create
create-Change f i user db = elim (Result-cases (create_check f i db)) [
  | inl (x, e) ↦ rw (e, create) (insert-Change f 2 i user db)
  | inr (x, e) ↦ rw (e, create) (same refl)
]

emergency-Change :
    (f : Faults) (i : RepairInput) (user : ℕ) (db : Db)
    → Change db (emergency_create f i user db db).0
unfolding emergency_create
emergency-Change f i user db = elim (Result-cases (classroom_exists (f 0) db i.classroom_id)) [
  | inl (x, e) ↦ rw (e, emergency_create) (insert-Change f 2 i user db)
  | inr (x, e) ↦ rw (e, emergency_create) (same refl)
]

update-Change :
    (f : Faults) (id : ℕ) (u : RepairUpdate) (user : ℕ) (db : Db)
    → Change db (update f id u user db db).0
unfolding update
update-Change f id u user db = elim (Result-cases (update_check (f 0) db id u)) [
  | inl (s, e) ↦
      let (r, g, c, m) = update_check_cases (f 0) db id u s e in
      rw (e, update)
        (elim (Bool-cases (f 1)) [
          | inl h ↦ rw h (same refl)
          | inr h ↦ rw h (moved id r s u.remark user (get_found (f 0) db id r g) c m refl)
        ])
  | inr (x, e) ↦ rw (e, update) (same refl)
]

confirm-Change : (f : Faults) (id user : ℕ) (db : Db) → Change db (confirm f id user db db).0
unfolding confirm
confirm-Change f id user db = elim (Result-cases (confirm_check (f 0) db id user)) [
  | inl (r, e) ↦
      let (g, mine, c) = confirm_check_cases (f 0) db id user r e in
      rw (e, confirm)
        (elim (Bool-cases (is_confirmed r.status)) [
          | inl done ↦ rw done (same refl)
          | inr open_still ↦ rw open_still (elim (Bool-cases (f 1)) [
            | inl h ↦ rw h (same refl)
            | inr h ↦ rw h (closed id r user (get_found (f 0) db id r g) mine (ground arith) refl)
          ])
        ])
  | inr (x, e) ↦ rw (e, confirm) (same refl)
]

step-Change : (c : Call) (db : Db) → Change db (step c db)
unfolding step
step-Change (creates f i user) db = create-Change f i user db
step-Change (emergencies f i user) db = emergency-Change f i user db
step-Change (updates f id u user) db = update-Change f id u user db
step-Change (confirms f id user) db = confirm-Change f id user db

infix 40 ◌⟶◌
pub data ◌⟶◌ : Status → Status → Type 0 where
  set : (s t : Status) → is_confirmed s ≡ false → may_set t ≡ true → s ⟶ t
  close : completed ⟶ confirmed

Change-Ids : {db db' : Db} → Change db db' → Ids db → Ids db'
Change-Ids (same e) k = rw e k
Change-Ids (added i user e) k = rw e (omega arith, k)
Change-Ids {db} (moved id r s remark user f c m e) k =
    rw e (Keys-update_where (λ x. x.id) (has_id id) _ db.next_id db.repairs (λ x. refl) k)
Change-Ids {db} (closed id r user f mine c e) k =
    rw e (Keys-update_where (λ x. x.id) (to_confirm id) _ db.next_id db.repairs (λ x. refl) k)

-- A ticket that is confirmed is not the one that `id` finds, if that one is not.
confirmed_kept :
    (db : Db) (id : ℕ) (r x : Repair)
    → Ids db
    → find (λ y. y.id == id) db.repairs ≡ some x
    → is_confirmed x.status ≡ false
    → Memᴰ r db.repairs
    → r.status ≡ confirmed
    → has_id id r ≡ false
confirmed_kept db id r x k f c m e = elim (Bool-cases (r.id == id)) [
  | inl h ↦
      let same_id : r.id ≡ id = ground arith in
      let found : find (λ y. y.id == id) db.repairs ≡ some r =
        rw (← same_id) (find_of_mem (λ y. y.id) db.next_id db.repairs k m) in
      absurd (ground arith)
  | inr h ↦ h
]

Change-confirmed :
    {db db' : Db} (r : Repair)
    → Change db db'
    → Ids db
    → Memᴰ r db.repairs
    → r.status ≡ confirmed
    → Memᴰ r db'.repairs
Change-confirmed r (same e) k m c = rw e m
Change-confirmed r (added i user e) k m c = rw e (Memᴰ.tail m)
Change-confirmed {db} r (moved id x s remark user f n may e) k m c =
    rw e (mem-update_where (has_id id) _ db.repairs m (confirmed_kept db id r x k f n m c))
Change-confirmed {db} r (closed id x user f mine n e) k m c =
    rw e (mem-update_where (to_confirm id) _ db.repairs m (ground arith))

-- Under calls that run one after the other a confirmed ticket stays in the table as it is.
pub confirmed_for_good :
    (cs : List Call) (db : Db) (r : Repair)
    → Ids db
    → Memᴰ r db.repairs
    → r.status ≡ confirmed
    → Memᴰ r (run cs db).repairs
unfolding run
confirmed_for_good [] db r k m c = m
confirmed_for_good (x ∷ cs) db r k m c =
    confirmed_for_good cs (step x db) r (Change-Ids (step-Change x db) k)
      (Change-confirmed r (step-Change x db) k m c) c

-- Where a ticket after a call comes from: it is new and open, or was there as it is, or its status
-- went along an edge.
pub data Origin (db : Db) (r' : Repair) : Type 0 where
  kept : Memᴰ r' db.repairs → Origin db r'
  fresh : r'.status ≡ opened → r'.id ≡ db.next_id → Origin db r'
  went :
      (r : Repair)
      → Memᴰ r db.repairs
      → r'.id ≡ r.id
      → r'.creator_id ≡ r.creator_id
      → r'.classroom_id ≡ r.classroom_id
      → r.status ⟶ r'.status
      → Origin db r'

unique_found :
    (db : Db) (id : ℕ) (r x : Repair)
    → Ids db
    → find (λ y. y.id == id) db.repairs ≡ some x
    → Memᴰ r db.repairs
    → has_id id r ≡ true
    → r ≡ x
unique_found db id r x k f m h =
    let same_id : r.id ≡ id = ground arith in
    let found : find (λ y. y.id == id) db.repairs ≡ some r =
      rw (← same_id) (find_of_mem (λ y. y.id) db.next_id db.repairs k m) in
    ground arith

-- After one call each ticket was there before as it is, or is new, open and under the next id, or is
-- a ticket whose status the call took along an edge: to "processing" or "completed" from anything but
-- "confirmed", or from "completed" to "confirmed".
pub ticket-Origin :
    (c : Call) (db : Db) (r' : Repair) → Ids db → Memᴰ r' (step c db).repairs → Origin db r'
ticket-Origin c db r' k m = elim (step-Change c db) [
  | same e ↦ kept (rw e at m)
  | added i user e ↦ new_or_old i user (rw e at m)
  | moved id x s remark user f n may e ↦
      elim (mem_of_update_where (has_id id) (updated s remark user) db.repairs (rw e at m)) [
        | inl t ↦ kept t
        | inr (r, t, h, g) ↦
            let one = unique_found db id r x k f t h in
            rw g (went r t refl refl refl (set r.status s (rw one n) may))
      ]
  | closed id x user f mine n e ↦
      elim (mem_of_update_where (to_confirm id) confirmed_row db.repairs (rw e at m)) [
        | inl t ↦ kept t
        | inr (r, t, h, g) ↦
            let status : r.status ≡ completed = ground arith in
            rw g (went r t refl refl refl (rw status close))
      ]
]
  where
    new_or_old : (i : RepairInput) (user : ℕ) → Memᴰ r' (inserted db i user).repairs → Origin db r'
    new_or_old i user (Memᴰ.head e) = fresh (ap (λ x. x.status) e) (ap (λ x. x.id) e)
    new_or_old i user (Memᴰ.tail t) = kept t
