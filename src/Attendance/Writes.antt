-- ===== src/Attendance/Writes.antt =====
-- `CloseCheckin`, `ScanByCode` and `UpsertRecord` of backend/internal/attendance/store.go and
-- store_records.go.
use ocm.Prelude.{
  ℕ, ◌+◌, ◌-◌, ◌*◌, ◌%◌, Bool, true, false, not, ◌&&◌, ◌||◌, List, ◌∷◌, Option, some, none, ltb,
  ◌==◌, find, any, Faults, Result, ok, err, ◌>>=◌, ◌>>◌, fail_if, if◌then◌else◌, update_where,
  count_where,
}
use ocm.Prelude.Int.{ℤ, pos, ltb_ℤ}
use ocm.Prelude.Text.{Text, text_eq}
use ocm.Attendance.{
  in_roster, Checkin, Db, Error, Record, RecordStatus, checkin_expired, checkin_not_active,
  checkin_not_found, closed, code_not_found, database, get_checkin, is_active, is_after, late,
  present, student_not_found,
}

abbrev pub set_checkin : (Checkin → Bool) → (Checkin → Checkin) → Db → Db
set_checkin p f db = record db { checkins = update_where p f db.checkins }

abbrev pub to_close : ℕ → Checkin → Bool
to_close id c = c.id == id && is_active c.status

abbrev pub closed_row : ℕ → Checkin → Checkin
closed_row now c = record c { status = closed; closed_at = some now }

-- `CloseCheckin`: one UPDATE guarded by the status, then a lookup that tells why it met no row.
unfoldable pub close_checkin : Faults → ℕ → ℕ → Db → Db × Result Error (Unit {0})
close_checkin fails now id db = if fails 0 then (db, err database) else (
  set_checkin (to_close id) (closed_row now) db,
  do
    fail_if (fails 1) database
    if count_where (to_close id) db.checkins == 0
        then (do
          fail_if (fails 2) database
          if any (λ c. c.id == id) db.checkins
              then err checkin_not_active
              else err checkin_not_found)
        else ok tt,
)

-- `time.Duration(m) * time.Minute` in 64 bits, before its sign is read.
abbrev pub minutes : ℕ → ℕ
minutes m = (m * 60000000000) % 18446744073709551616

-- `now.After(t.Add(d))` for such a duration, which is negative from 2^63 on.
unfoldable pub after_minutes : ℕ → ℕ → ℕ → Bool
after_minutes now t m =
    if ltb (minutes m) 9223372036854775808
    then ltb (t + minutes m) now
    else ltb t (now + (18446744073709551616 - minutes m))

unfoldable pub scan_status : ℕ → Checkin → RecordStatus
scan_status now c =
    if ltb 0 c.late_minutes && after_minutes now c.starts_at c.late_minutes then late else present

pub record ScanResult : Type 0 where
  pub checkin_id : ℕ
  pub title : Text
  pub status : RecordStatus
  pub is_new : Bool
  pub in_roster : Bool

abbrev pub has_keys : ℕ → ℕ → Record → Bool
has_keys checkin user r = r.checkin_id == checkin && r.user_id == user

abbrev pub scanned : ℕ → Checkin → ℕ → Record
scanned now c user = record {
  checkin_id = c.id;
  user_id = user;
  status = scan_status now c;
  checked_at = some now;
  modified_by = none;
  modified_at = none;
}

-- The checks of a scan on the checkin that the code names, with the tables of the transaction after
-- them: an expired checkin is closed there. The clock is read twice, in each branch.
unfoldable pub scan_check : Faults → ℕ → ℕ → Text → Db → Db × Result Error Checkin
scan_check fails now1 now2 code db =
    if fails 0 || fails 1
    then (db, err database)
    else elim (find (λ c. text_eq c.code code) db.checkins) [
      | none ↦ (db, err code_not_found)
      | some c ↦
          if not (is_active c.status)
          then (db, err checkin_not_active)
          else if is_after c.expires_at now1
          then (if fails 2
              then (db, err database)
              else (set_checkin (λ x. x.id == c.id) (closed_row now2) db, err checkin_expired))
          else (db, ok c)
    ]

-- The query of `rosterExistsSQL`, for a checkin that is anchored to an offering.
abbrev pub ask_roster : Bool → Db → Option ℤ → ℕ → Bool → Result Error Bool
ask_roster failed db none user otherwise = ok otherwise
ask_roster failed db (some o) user otherwise =
    if ltb_ℤ (pos 0) o then (do fail_if failed database; ok (in_roster db o user)) else ok otherwise

abbrev pub answer : Checkin → RecordStatus → Bool → Bool → ScanResult
answer c s is_new flag = record {
  checkin_id = c.id;
  title = c.title;
  status = s;
  is_new = is_new;
  in_roster = flag;
}

-- The rest of a scan's transaction, with its tables: the INSERT that a record of the same user
-- refuses, the queries behind it, and the commit.
unfoldable pub write_scan : Faults → ℕ → ℕ → Db → Checkin → Db × Result Error ScanResult
write_scan fails now user db c =
    if fails 3 then (db, err database) else elim (find (has_keys c.id user) db.records) [
      | none ↦ (
        record db { records = scanned now c user ∷ db.records },
        do
          fail_if (fails 4) database
          flag ← ask_roster (fails 6) db c.offering_id user true
          fail_if (fails 7) database
          ok (answer c (scan_status now c) true flag),
      )
      | some r ↦ (
        db,
        do
          fail_if (fails 4) database
          fail_if (fails 5) database
          flag ← ask_roster (fails 6) db c.offering_id user true
          fail_if (fails 7) database
          ok (answer c r.status false flag),
      )
    ]

-- The transaction of `ScanByCode`, under the lock of the checkin's row, up to its end.
unfoldable pub scan_tx : Faults → ℕ → ℕ → Text → ℕ → Db → Db × Result Error ScanResult
scan_tx fails now1 now2 code user db =
    let (db', r) = scan_check fails now1 now2 code db in
    elim r [ err e ↦ (db', err e) | ok c ↦ write_scan fails now2 user db' c ]

-- The deferred rollback: an error leaves the tables `db` of before the transaction, whose own tables
-- were committed otherwise.
abbrev pub or_rollback : {A : Type 0} → Db → Db × Result Error A → Db × Result Error A
or_rollback db (tables, err e) = (db, err e)
or_rollback db (tables, ok a) = (tables, ok a)

unfoldable pub scan_by_code : Faults → ℕ → ℕ → Text → ℕ → Db → Db × Result Error ScanResult
scan_by_code fails now1 now2 code user db = or_rollback db (scan_tx fails now1 now2 code user db)

abbrev pub corrected_row : RecordStatus → ℕ → ℕ → Record → Record
corrected_row s by now r = record r { status = s; modified_by = some by; modified_at = some now }

abbrev pub entered : ℕ → ℕ → RecordStatus → ℕ → ℕ → Record
entered checkin user s by now = record {
  checkin_id = checkin;
  user_id = user;
  status = s;
  checked_at = none;
  modified_by = some by;
  modified_at = some now;
}

-- `INSERT … ON CONFLICT ON CONSTRAINT uq_checkin_user DO UPDATE`.
abbrev pub upsert : ℕ → ℕ → RecordStatus → ℕ → ℕ → List Record → List Record
upsert checkin user s by now rs =
    if any (has_keys checkin user) rs
    then update_where (has_keys checkin user) (corrected_row s by now) rs
    else entered checkin user s by now ∷ rs

-- The two reads of `UpsertRecord`, which give the offering that its answer asks about.
unfoldable pub upsert_check : Faults → ℕ → ℕ → ℕ → Db → Result Error (Option ℤ)
upsert_check fails now checkin user seen = do
  v ← get_checkin fails 0 now seen checkin
  fail_if (fails 2) database
  fail_if (not (any (λ u. u == user) seen.users)) student_not_found
  ok v.checkin.offering_id

abbrev pub no_offering : Option ℤ → Bool
no_offering none = true
no_offering (some o) = false

-- `UpsertRecord` takes no lock: `seen` is the database of its checks, `db` that of its statement.
-- The answer has the row as it is then, and whether the user is in the roster.
unfoldable pub upsert_record :
    Faults → ℕ → ℕ → ℕ → RecordStatus → ℕ → Db → Db → Db × Result Error (Option Record × Bool)
upsert_record fails now checkin user s by seen db =
    elim (upsert_check fails now checkin user seen) [
      | err e ↦ (db, err e)
      | ok offering ↦ if fails 3 then (db, err database) else (
        record db { records = upsert checkin user s by now db.records },
        do
          fail_if (fails 4) database
          flag ← ask_roster (fails 5) db offering user (no_offering offering)
          ok (find (has_keys checkin user) (upsert checkin user s by now db.records), flag),
      )
    ]
