-- ===== src/Attendance/Rows.antt =====
-- What one call of the attendance store may do to the tables.
use mathlib.Core.List.{Memᴰ}
use ocm.Prelude.{
  ℕ, zero, suc, ◌≡◌, refl, ◌⊎◌, inl, inr, Bool, true, false, ◌&&◌, ◌∷◌, some, none, ◌==◌, find,
  arith, Faults, Result, ok, err, ap, ◌∙◌, ◌||◌, Result-cases, Bool-cases, Option-cases,
  mem_of_find,
}
use ocm.Prelude.Int.{ℤ}
use ocm.Prelude.Text.{Text, text_eq}
use ocm.Attendance.{Error, active, RecordStatus, Checkin, Db, is_active, Record, is_after}
use ocm.Attendance.Writes.{
  answer, scan_status, close_checkin, set_checkin, to_close, closed_row, has_keys, scanned,
  scan_check, scan_tx, write_scan, ScanResult, scan_by_code, ask_roster, upsert, upsert_check,
  upsert_record,
}
use ocm.Attendance.Create.{
  CheckinInput, create_check, create_checkin, insert_loop, new_checkin, with_checkin, code_taken,
  six_digits,
}

-- A call with all that decides its outcome. The databases that a call read before its own write are
-- arguments, and may be any.
pub data Call : Type 0 where
  creates : Faults → (ℕ → ℕ) → ℕ → CheckinInput → ℕ → Db → Call
  closes : Faults → ℕ → ℕ → Call
  scans : Faults → ℕ → ℕ → Text → ℕ → Call
  corrects : Faults → ℕ → ℕ → ℕ → RecordStatus → ℕ → Db → Call

unfoldable pub step : Call → Db → Db
step (creates f draw now i user seen) db = (create_checkin f draw now i user seen db).0
step (closes f now id) db = (close_checkin f now id db).0
step (scans f now1 now2 code user) db = (scan_by_code f now1 now2 code user db).0
step (corrects f now checkin user s by seen) db = (upsert_record f now checkin user s by seen db).0

-- Whether a call is a correction of the record of a checkin and a user.
abbrev pub names : Call → ℕ → ℕ → Bool
names (corrects f now c u s by seen) checkin user = c == checkin && u == user
names (creates f draw now i u seen) checkin user = false
names (closes f now id) checkin user = false
names (scans f now1 now2 code u) checkin user = false

pub data Change (x : Call) (db db' : Db) : Type 0 where
  same : db' ≡ db → Change x db db'
  added :
      (c : Checkin)
      → c.id ≡ db.next_id
      → c.status ≡ active
      → code_taken c.code db.checkins ≡ false
      → db' ≡ with_checkin c db
      → Change x db db'
  ended : (id now : ℕ) → db' ≡ set_checkin (to_close id) (closed_row now) db → Change x db db'
  attended :
      (c : Checkin) (now user : ℕ)
      → Memᴰ c db.checkins
      → is_active c.status ≡ true
      → find (has_keys c.id user) db.records ≡ none
      → db' ≡ record db { records = scanned now c user ∷ db.records }
      → Change x db db'
  corrected :
      (checkin user by now : ℕ) (s : RecordStatus)
      → names x checkin user ≡ true
      → db' ≡ record db { records = upsert checkin user s by now db.records }
      → Change x db db'

insert_loop-Change :
    (x : Call) (f : Faults) (draw : ℕ → ℕ) (i : CheckinInput) (t : ℤ × Text) (now user left at : ℕ)
    (db : Db)
    → Change x db (insert_loop f draw (new_checkin db i t now user) left at db).0
unfolding insert_loop new_checkin
insert_loop-Change x f draw i t now user zero at db = elim (Bool-cases (f (suc at))) [
  | inl e ↦ rw e (same refl)
  | inr e ↦ elim (Bool-cases (code_taken (six_digits (draw at)) db.checkins)) [
    | inl g ↦ rw (e, g) (same refl)
    | inr g ↦
        rw (e, g) (added (new_checkin db i t now user (six_digits (draw at))) refl refl g refl)
  ]
]
insert_loop-Change x f draw i t now user (suc n) at db = elim (Bool-cases (f (suc at))) [
  | inl e ↦ rw e (same refl)
  | inr e ↦ elim (Bool-cases (code_taken (six_digits (draw at)) db.checkins)) [
    | inl g ↦ rw (e, g) (insert_loop-Change x f draw i t now user n (suc at) db)
    | inr g ↦
        rw (e, g) (added (new_checkin db i t now user (six_digits (draw at))) refl refl g refl)
  ]
]

create-Change :
    (x : Call) (f : Faults) (draw : ℕ → ℕ) (now : ℕ) (i : CheckinInput) (user : ℕ) (seen db : Db)
    → Change x db (create_checkin f draw now i user seen db).0
unfolding create_checkin
create-Change x f draw now i user seen db = elim (Result-cases (create_check f seen i)) [
  | inl (t, e) ↦ rw (e, create_checkin) (insert_loop-Change x f draw i t now user 10 0 db)
  | inr (t, e) ↦ rw (e, create_checkin) (same refl)
]

close-Change :
    (x : Call) (f : Faults) (now id : ℕ) (db : Db) → Change x db (close_checkin f now id db).0
unfolding close_checkin
close-Change x f now id db = elim (Bool-cases (f 0)) [
  | inl e ↦ rw e (same refl)
  | inr e ↦ rw e (ended id now refl)
]

-- The checkin that a scan goes on with is an active one of the code, in tables that are as they were.
pub scan_check_found :
    (f : Faults) (now1 now2 : ℕ) (code : Text) (db : Db) (c : Checkin)
    → (scan_check f now1 now2 code db).1 ≡ ok c
    → (find (λ x. text_eq x.code code) db.checkins ≡ some c)
      × (is_active c.status ≡ true)
      × (is_after c.expires_at now1 ≡ false)
      × ((scan_check f now1 now2 code db).0 ≡ db)
unfolding scan_check
scan_check_found f now1 now2 code db c h = elim (Bool-cases (f 0 || f 1)) [
  | inl e ↦ absurd (ground (arith, rw (scan_check, e) at h))
  | inr e ↦ elim (Option-cases (find (λ x. text_eq x.code code) db.checkins)) [
    | inl g ↦ absurd (ground (arith, rw (scan_check, e, g) at h))
    | inr (y, g) ↦ elim (Bool-cases (is_active y.status)) [
      | inr a ↦ absurd (ground (arith, rw (scan_check, e, g, a) at h))
      | inl a ↦ elim (Bool-cases (is_after y.expires_at now1)) [
        | inl x ↦ elim (Bool-cases (f 2)) [
          | inl b ↦ absurd (ground (arith, rw (scan_check, e, g, a, x, b) at h))
          | inr b ↦ absurd (ground (arith, rw (scan_check, e, g, a, x, b) at h))
        ]
        | inr x ↦
            let same : ◌≡◌ {A = Result Error Checkin} (ok y) (ok c) =
              rw (scan_check, e, g, a, x) at h in
            let it : y ≡ c = ground (arith, same) in
            (rw (← it) g, rw (← it) a, rw (← it) x, rw (scan_check, e, g, a, x) refl)
      ]
    ]
  ]
]

-- What the write leaves: a new record, or the tables as they were and the answer of the old one.
pub write_scan_cases :
    (f : Faults) (now user : ℕ) (db : Db) (c : Checkin) (a : ScanResult)
    → (write_scan f now user db c).1 ≡ ok a
    → ((find (has_keys c.id user) db.records ≡ none)
        × ((write_scan f now user db c).0 ≡ record db { records = scanned now c user ∷ db.records })
        × (a ≡ answer c (scan_status now c) true a.in_roster))
      ⊎ ((r : Record) × (find (has_keys c.id user) db.records ≡ some r)
          × ((write_scan f now user db c).0 ≡ db)
          × (a ≡ answer c r.status false a.in_roster))
unfolding write_scan
write_scan_cases f now user db c a h = elim (Bool-cases (f 3)) [
  | inl b ↦ absurd (ground (arith, rw (write_scan, b) at h))
  | inr b ↦ elim (Option-cases (find (has_keys c.id user) db.records)) [
    | inl g ↦ elim (Result-cases (ask_roster (f 6) db c.offering_id user true)) [
      | inl (flag, e) ↦
          inl (g, rw (write_scan, b, g) refl, ground (arith, rw (write_scan, b, g, e) at h))
      | inr (x, e) ↦ absurd (ground (arith, rw (write_scan, b, g, e) at h))
    ]
    | inr (r, g) ↦ elim (Result-cases (ask_roster (f 6) db c.offering_id user true)) [
      | inl (flag, e) ↦
          inr (r, g, rw (write_scan, b, g) refl, ground (arith, rw (write_scan, b, g, e) at h))
      | inr (x, e) ↦ absurd (ground (arith, rw (write_scan, b, g, e) at h))
    ]
  ]
]

-- A scan leaves the tables as they were, or it goes through and leaves what the write does.
pub data Scanned (f : Faults) (now1 now2 : ℕ) (code : Text) (user : ℕ) (db : Db) : Type 0 where
  rolled_back :
      (e : Error)
      → scan_by_code f now1 now2 code user db ≡ (db, err e)
      → Scanned f now1 now2 code user db
  went_through :
      (c : Checkin) (a : ScanResult)
      → (scan_check f now1 now2 code db).1 ≡ ok c
      → (write_scan f now2 user db c).1 ≡ ok a
      → scan_by_code f now1 now2 code user db ≡ ((write_scan f now2 user db c).0, ok a)
      → Scanned f now1 now2 code user db

pub scan_cases :
    (f : Faults) (now1 now2 : ℕ) (code : Text) (user : ℕ) (db : Db)
    → Scanned f now1 now2 code user db
unfolding scan_by_code scan_tx
scan_cases f now1 now2 code user db = elim (Result-cases (scan_check f now1 now2 code db).1) [
  | inr (x, e) ↦ rolled_back x (rw (scan_by_code, scan_tx, e) refl)
  | inl (c, e) ↦
      let (found, open_still, early, kept) = scan_check_found f now1 now2 code db c e in
      elim (Result-cases (write_scan f now2 user db c).1) [
        | inr (x, g) ↦ rolled_back x (rw (scan_by_code, scan_tx, e, kept, g) refl)
        | inl (a, g) ↦ went_through c a e g (rw (scan_by_code, scan_tx, e, kept, g) refl)
      ]
]

scan-Change :
    (x : Call) (f : Faults) (now1 now2 : ℕ) (code : Text) (user : ℕ) (db : Db)
    → Change x db (scan_by_code f now1 now2 code user db).0
scan-Change x f now1 now2 code user db = elim (scan_cases f now1 now2 code user db) [
  | rolled_back e h ↦ same (ap (λ r. r.0) h)
  | went_through c a e g h ↦ elim (write_scan_cases f now2 user db c a g) [
    | inr (r, old, kept, s) ↦ same (ap (λ z. z.0) h ∙ kept)
    | inl (fresh, new, s) ↦
        let (found, open_still, early, kept) = scan_check_found f now1 now2 code db c e in
        attended c now2 user (mem_of_find _ db.checkins found).0 open_still fresh
          (ap (λ z. z.0) h ∙ new)
  ]
]

upsert-Change :
    (f : Faults) (now checkin user : ℕ) (s : RecordStatus) (by : ℕ) (seen db : Db)
    → Change
        (corrects f now checkin user s by seen)
        db
        (upsert_record f now checkin user s by seen db).0
unfolding upsert_record
upsert-Change f now checkin user s by seen db =
    elim (Result-cases (upsert_check f now checkin user seen)) [
      | inr (r, e) ↦ rw (e, upsert_record) (same refl)
      | inl (o, e) ↦ elim (Bool-cases (f 3)) [
        | inl g ↦ rw (e, upsert_record, g) (same refl)
        | inr g ↦ rw (e, upsert_record, g) (corrected checkin user by now s (ground arith) refl)
      ]
    ]

pub step-Change : (x : Call) (db : Db) → Change x db (step x db)
unfolding step
step-Change (creates f draw now i user seen) db = create-Change _ f draw now i user seen db
step-Change (closes f now id) db = close-Change _ f now id db
step-Change (scans f now1 now2 code user) db = scan-Change _ f now1 now2 code user db
step-Change (corrects f now checkin user s by seen) db =
    upsert-Change f now checkin user s by seen db
