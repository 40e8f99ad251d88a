-- ===== src/Attendance/History.antt =====
-- The tables of attendance under any sequence of calls.
use mathlib.Core.List.{Memᴰ}
use ocm.Prelude.{
  ℕ, ◌≡◌, refl, sym, ap, ◌∙◌, ◌⊎◌, inl, inr, false, List, [], ◌∷◌, some, none, ◌==◌, find, any,
  arith, Bool-cases, Keys, Keys-update_where, find_of_mem, All, update_where, any-update_where,
  mem-update_where, mem_of_update_where,
}
use ocm.Prelude.Text.{text_eq}
use ocm.Attendance.{closed, Checkin, Record, RecordStatus, Db}
use ocm.Attendance.Writes.{to_close, closed_row, has_keys, upsert, corrected_row}
use ocm.Attendance.Create.{code_taken}
use ocm.Attendance.Rows.{
  Call, step, names, Change, same, added, ended, attended, corrected, step-Change,
}

unfoldable pub run : List Call → Db → Db
run [] db = db
run (x ∷ xs) db = run xs (step x db)

abbrev pub Ids : Db → Type 0
Ids db = Keys (λ c. c.id) db.next_id db.checkins

Change-Ids : {x : Call} {db db' : Db} → Change x db db' → Ids db → Ids db'
Change-Ids (same e) k = rw e k
Change-Ids (added c i s free e) k = rw (e, i) (omega arith, k)
Change-Ids {x} {db} (ended id now e) k =
    rw e (Keys-update_where (λ c. c.id) (to_close id) _ db.next_id db.checkins (λ c. refl) k)
Change-Ids (attended c now user m a f e) k = rw e k
Change-Ids (corrected checkin user by now s n e) k = rw e k

-- A record that the upsert does not name stays.
upsert_keeps :
    (checkin user : ℕ) (s : RecordStatus) (by now : ℕ) (r : Record) (rs : List Record)
    → has_keys checkin user r ≡ false
    → Memᴰ r rs
    → Memᴰ r (upsert checkin user s by now rs)
upsert_keeps checkin user s by now r rs other m =
    elim (Bool-cases (any (has_keys checkin user) rs)) [
      | inl e ↦ rw e (mem-update_where (has_keys checkin user) _ rs m other)
      | inr e ↦ rw e (Memᴰ.tail m)
    ]

Change-record :
    {x : Call} {db db' : Db} (r : Record)
    → Change x db db'
    → names x r.checkin_id r.user_id ≡ false
    → Memᴰ r db.records
    → Memᴰ r db'.records
Change-record r (same e) n m = rw e m
Change-record r (added c i s free e) n m = rw e m
Change-record r (ended id now e) n m = rw e m
Change-record r (attended c now user k a f e) n m = rw e (Memᴰ.tail m)
Change-record {x} {db} r (corrected checkin user by now s y e) n m =
    elim (Bool-cases (has_keys checkin user r)) [
      | inl h ↦
          let one : r.checkin_id ≡ checkin = ground arith in
          let two : r.user_id ≡ user = ground arith in absurd (ground (arith, rw (one, two) at n))
      | inr h ↦ rw e (upsert_keeps checkin user s by now r db.records h m)
    ]

-- A record stays in the table, word for word, under every sequence of calls that does not correct
-- it: no scan overwrites what an earlier scan or a teacher entered.
pub first_record_wins :
    (xs : List Call) (db : Db) (r : Record)
    → Memᴰ r db.records
    → All (λ x. names x r.checkin_id r.user_id ≡ false) xs
    → Memᴰ r (run xs db).records
unfolding run
first_record_wins [] db r m a = m
first_record_wins (x ∷ xs) db r m a =
    first_record_wins xs (step x db) r (Change-record r (step-Change x db) a.0 m) a.1

Change-closed :
    {x : Call} {db db' : Db} (c : Checkin)
    → Change x db db'
    → c.status ≡ closed
    → Memᴰ c db.checkins
    → Memᴰ c db'.checkins
Change-closed c (same e) s m = rw e m
Change-closed c (added d i t free e) s m = rw e (Memᴰ.tail m)
Change-closed {x} {db} c (ended id now e) s m =
    rw e (mem-update_where (to_close id) _ db.checkins m (ground arith))
Change-closed c (attended d now user k a f e) s m = rw e m
Change-closed c (corrected checkin user by now t y e) s m = rw e m

upsert_from :
    (checkin user : ℕ) (s : RecordStatus) (by now : ℕ) (r : Record) (rs : List Record)
    → Memᴰ r (upsert checkin user s by now rs)
    → Memᴰ r rs ⊎ (r.checkin_id ≡ checkin)
upsert_from checkin user s by now r rs m = elim (Bool-cases (any (has_keys checkin user) rs)) [
  | inl e ↦ elim (mem_of_update_where (has_keys checkin user) _ rs (rw e at m)) [
    | inl old ↦ inl old
    | inr (y, t, h, g) ↦ inr (ap (λ z. z.checkin_id) g ∙ ground arith)
  ]
  | inr e ↦ elim (rw e at m) [ Memᴰ.head g ↦ inr (ap (λ z. z.checkin_id) g) | Memᴰ.tail t ↦ inl t ]
]

-- The record of a closed checkin is an old one, unless a correction entered it.
Change-closed_record :
    {x : Call} {db db' : Db} (c : Checkin) (r : Record)
    → Change x db db'
    → Ids db
    → Memᴰ c db.checkins
    → c.status ≡ closed
    → ((user : ℕ) → names x c.id user ≡ false)
    → r.checkin_id ≡ c.id
    → Memᴰ r db'.records
    → Memᴰ r db.records
Change-closed_record c r (same e) k mc s n i m = rw e at m
Change-closed_record c r (added d j t free e) k mc s n i m = rw e at m
Change-closed_record c r (ended id now e) k mc s n i m = rw e at m
Change-closed_record {x} {db} c r (attended d now user md a f e) k mc s n i m = elim (rw e at m) [
  | Memᴰ.tail t ↦ t
  | Memᴰ.head h ↦
      let id : d.id ≡ c.id = sym (ap (λ y. y.checkin_id) h) ∙ i in
      let one = find_of_mem (λ y. y.id) db.next_id db.checkins k mc in
      let two = find_of_mem (λ y. y.id) db.next_id db.checkins k md in
      let here : find (λ y. y.id == c.id) db.checkins ≡ some d = rw (← id) two in
      absurd (ground (arith, one, here))
]
Change-closed_record {x} {db} c r (corrected checkin user by now t y e) k mc s n i m =
    elim (upsert_from checkin user t by now r db.records (rw e at m)) [
      | inl old ↦ old
      | inr here ↦
          let id : checkin ≡ c.id = sym here ∙ i in absurd (ground (arith, n user, rw id at y))
    ]

-- After a checkin is closed it stays closed, as it is, and its records are those that it had, under
-- every sequence of calls that does not correct its records: no scan enters a late one.
pub closed_for_good :
    (xs : List Call) (db : Db) (c : Checkin)
    → Ids db
    → Memᴰ c db.checkins
    → c.status ≡ closed
    → All (λ x. (user : ℕ) → names x c.id user ≡ false) xs
    → Memᴰ c (run xs db).checkins
      × ((r : Record) → r.checkin_id ≡ c.id → Memᴰ r (run xs db).records → Memᴰ r db.records)
unfolding run
closed_for_good [] db c k m s a = (m, λ r i h. h)
closed_for_good (x ∷ xs) db c k m s a =
    let change = step-Change x db in
    let (stays, old) =
      closed_for_good xs (step x db) c (Change-Ids change k) (Change-closed c change s m) s a.1 in
    (stays, λ r i h. Change-closed_record c r change k m s a.0 i (old r i h))

-- One record for a checkin and a user, as the constraint `uq_checkin_user` has it.
abbrev pub OneEach : List Record → Type 0
OneEach [] = Unit
OneEach (r ∷ rs) = (any (has_keys r.checkin_id r.user_id) rs ≡ false) × OneEach rs

-- One checkin for a code, as the constraint `uq_checkin_code` has it.
abbrev pub OneCode : List Checkin → Type 0
OneCode [] = Unit
OneCode (c ∷ cs) = (code_taken c.code cs ≡ false) × OneCode cs

update_where-OneEach :
    (checkin user : ℕ) (s : RecordStatus) (by now : ℕ) (rs : List Record)
    → OneEach rs
    → OneEach (update_where (has_keys checkin user) (corrected_row s by now) rs)
update_where-OneEach checkin user s by now [] o = tt
update_where-OneEach checkin user s by now (r ∷ rs) o =
    let kept =
      any-update_where (has_keys checkin user) (corrected_row s by now)
        (has_keys r.checkin_id r.user_id) rs (λ x. refl) in
    let rest = update_where-OneEach checkin user s by now rs o.1 in
    elim (Bool-cases (has_keys checkin user r)) [
      | inl e ↦ rw e (kept ∙ o.0, rest)
      | inr e ↦ rw e (kept ∙ o.0, rest)
    ]

upsert-OneEach :
    (checkin user : ℕ) (s : RecordStatus) (by now : ℕ) (rs : List Record)
    → OneEach rs
    → OneEach (upsert checkin user s by now rs)
upsert-OneEach checkin user s by now rs o = elim (Bool-cases (any (has_keys checkin user) rs)) [
  | inl e ↦ rw e (update_where-OneEach checkin user s by now rs o)
  | inr e ↦ rw e (e, o)
]

close-OneCode :
    (id now : ℕ) (cs : List Checkin)
    → OneCode cs
    → OneCode (update_where (to_close id) (closed_row now) cs)
close-OneCode id now [] o = tt
close-OneCode id now (c ∷ cs) o =
    let kept =
      any-update_where (to_close id) (closed_row now) (λ d. text_eq d.code c.code) cs (λ x. refl) in
    let rest = close-OneCode id now cs o.1 in
    elim (Bool-cases (to_close id c)) [
      | inl e ↦ rw e (kept ∙ o.0, rest)
      | inr e ↦ rw e (kept ∙ o.0, rest)
    ]

any_of_find :
    (checkin user : ℕ) (rs : List Record)
    → find (has_keys checkin user) rs ≡ none
    → any (has_keys checkin user) rs ≡ false
any_of_find checkin user [] h = refl
any_of_find checkin user (r ∷ rs) h = elim (Bool-cases (has_keys checkin user r)) [
  | inl e ↦ absurd (ground (arith, rw e at h))
  | inr e ↦ rw e (any_of_find checkin user rs (rw e at h))
]

Change-OneEach :
    {x : Call} {db db' : Db} → Change x db db' → OneEach db.records → OneEach db'.records
Change-OneEach (same e) o = rw e o
Change-OneEach (added c i s free e) o = rw e o
Change-OneEach (ended id now e) o = rw e o
Change-OneEach {x} {db} (attended c now user m a f e) o =
    rw e (any_of_find c.id user db.records f, o)
Change-OneEach {x} {db} (corrected checkin user by now s n e) o =
    rw e (upsert-OneEach checkin user s by now db.records o)

Change-OneCode :
    {x : Call} {db db' : Db} → Change x db db' → OneCode db.checkins → OneCode db'.checkins
Change-OneCode (same e) o = rw e o
Change-OneCode (added c i s free e) o = rw e (free, o)
Change-OneCode {x} {db} (ended id now e) o = rw e (close-OneCode id now db.checkins o)
Change-OneCode (attended c now user m a f e) o = rw e o
Change-OneCode (corrected checkin user by now s n e) o = rw e o

-- Every sequence of calls keeps at most one record for a checkin and a user, and at most one checkin
-- for a code.
pub one_each :
    (xs : List Call) (db : Db)
    → OneEach db.records × OneCode db.checkins
    → OneEach (run xs db).records × OneCode (run xs db).checkins
unfolding run
one_each [] db o = o
one_each (x ∷ xs) db o =
    one_each xs (step x db)
      (Change-OneEach (step-Change x db) o.0, Change-OneCode (step-Change x db) o.1)
