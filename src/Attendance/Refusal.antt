-- ===== src/Attendance/Refusal.antt =====
-- What a scan answers, and what it leaves in the tables.
use ocm.Prelude.{
  ℕ, ◌≡◌, refl, ap, sym, ◌∙◌, inl, inr, true, false, some, find, arith, Faults, Bool, List, [], ◌∷◌,
  All, Result, ok, err,
}
use ocm.Prelude.Text.{Text, text_eq}
use ocm.Attendance.{Checkin, Record, Db, Error, is_active}
use ocm.Attendance.Writes.{ScanResult, has_keys, scanned, scan_check, write_scan, scan_by_code}
use mathlib.Core.Path.{subst}
use ocm.Attendance.History.{run}
use ocm.Attendance.Rows.{
  Call, scans, creates, closes, corrects, step, scan_check_found, write_scan_cases, rolled_back,
  went_through, scan_cases,
}

-- What a scan's answer says of the tables that it leaves: the code names an active checkin, and the
-- user has a record there with the status that is answered.
pub record Recorded (code : Text) (user : ℕ) (db' : Db) (a : ScanResult) : Type 0 where
  pub checkin : Checkin
  pub row : Record
  pub found : find (λ x. text_eq x.code code) db'.checkins ≡ some checkin
  pub active_still : is_active checkin.status ≡ true
  pub same_checkin : a.checkin_id ≡ checkin.id
  pub recorded : find (has_keys checkin.id user) db'.records ≡ some row
  pub answered : a.status ≡ row.status

has_own_keys : (now user : ℕ) (c : Checkin) → has_keys c.id user (scanned now c user) ≡ true
has_own_keys now user c = ground arith

write_scan-Recorded :
    (f : Faults) (now1 now2 : ℕ) (code : Text) (user : ℕ) (db : Db) (c : Checkin) (a : ScanResult)
    → (scan_check f now1 now2 code db).1 ≡ ok c
    → (write_scan f now2 user db c).1 ≡ ok a
    → Recorded code user (write_scan f now2 user db c).0 a
write_scan-Recorded f now1 now2 code user db c a g h =
    let (found, open_still, early, still) = scan_check_found f now1 now2 code db c g in
    elim (write_scan_cases f now2 user db c a h) [
      | inl (fresh, new, said) ↦ record {
        checkin = c;
        row = scanned now2 c user;
        found = ap (λ d. find (λ x. text_eq x.code code) d.checkins) new ∙ found;
        active_still = open_still;
        same_checkin = ap (λ z. z.checkin_id) said;
        recorded = rw (new, has_own_keys now2 user c) refl;
        answered = ap (λ z. z.status) said;
      }
      | inr (r, old, kept, said) ↦ record {
        checkin = c;
        row = r;
        found = ap (λ d. find (λ x. text_eq x.code code) d.checkins) kept ∙ found;
        active_still = open_still;
        same_checkin = ap (λ z. z.checkin_id) said;
        recorded = ap (λ d. find (has_keys c.id user) d.records) kept ∙ old;
        answered = ap (λ z. z.status) said;
      }
    ]

-- A scan that is answered leaves a record of the user at the active checkin that the code names, with
-- the status that it answers.
pub scan-Recorded :
    (f : Faults) (now1 now2 : ℕ) (code : Text) (user : ℕ) (db : Db) (a : ScanResult)
    → (scan_by_code f now1 now2 code user db).1 ≡ ok a
    → Recorded code user (scan_by_code f now1 now2 code user db).0 a
scan-Recorded f now1 now2 code user db a h = elim (scan_cases f now1 now2 code user db) [
  | rolled_back e g ↦ absurd (refused e (sym (ap (λ z. z.1) g) ∙ h))
  | went_through c b e w g ↦
      let it : b ≡ a = answered_same (sym (ap (λ z. z.1) g) ∙ h) in
      subst (λ d. Recorded code user d a) (sym (ap (λ z. z.0) g))
        (subst (λ z. Recorded code user (write_scan f now2 user db c).0 z) it
          (write_scan-Recorded f now1 now2 code user db c b e w))
]
  where
    refused : (e : Error) → ◌≡◌ {A = Result Error ScanResult} (err e) (ok a) → ⊥
    refused e k = ground (arith, k)

    answered_same : {b : ScanResult} → ◌≡◌ {A = Result Error ScanResult} (ok b) (ok a) → b ≡ a
    answered_same k = ground (arith, k)

abbrev pub is_scan : Call → Bool
is_scan (scans f now1 now2 code user) = true
is_scan (creates f draw now i user seen) = false
is_scan (closes f now id) = false
is_scan (corrects f now checkin user s by seen) = false

scan-checkins :
    (f : Faults) (now1 now2 : ℕ) (code : Text) (user : ℕ) (db : Db)
    → (scan_by_code f now1 now2 code user db).0.checkins ≡ db.checkins
scan-checkins f now1 now2 code user db = elim (scan_cases f now1 now2 code user db) [
  | rolled_back e h ↦ ap (λ r. r.0.checkins) h
  | went_through c a e g h ↦
      ap (λ r. r.0.checkins) h ∙ elim (write_scan_cases f now2 user db c a g) [
        | inl (fresh, new, said) ↦ ap (λ d. d.checkins) new
        | inr (r, old, kept, said) ↦ ap (λ d. d.checkins) kept
      ]
]

-- However many scans are made, with whatever codes and at whatever times, the table of checkins stays
-- as it is: what closes an expired checkin is undone with the transaction, and its row stays active.
pub scans_close_nothing :
    (xs : List Call) (db : Db) → All (λ x. is_scan x ≡ true) xs → (run xs db).checkins ≡ db.checkins
unfolding run step
scans_close_nothing [] db a = refl
scans_close_nothing (scans f now1 now2 code user ∷ xs) db a =
    scans_close_nothing xs (scan_by_code f now1 now2 code user db).0 a.1
    ∙ scan-checkins f now1 now2 code user db
scans_close_nothing (creates f draw now i user seen ∷ xs) db a = absurd (ground (arith, a.0))
scans_close_nothing (closes f now id ∷ xs) db a = absurd (ground (arith, a.0))
scans_close_nothing (corrects f now checkin user s by seen ∷ xs) db a = absurd (ground (arith, a.0))
