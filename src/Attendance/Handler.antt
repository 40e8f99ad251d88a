-- ===== src/Attendance/Handler.antt =====
-- backend/internal/attendance/handler.go: the writing handlers. A body is `none` where the JSON
-- decoder fails, a path id is `none` where it is no number; the user is the authenticated one.
use ocm.Prelude.{
  ℕ, Bool, not, ◌&&◌, Option, some, none, length, all, ◌==◌, Faults, Result, ok, err, if◌then◌else◌,
}
use ocm.Prelude.Text.{Text, codes, text_eq, trim_space}
use ocm.Calendar.{is_digit}
use ocm.Http.{Response, json, error}
use ocm.Attendance.{
  RecordStatus, present, absent, late, leave, Record, Db, CheckinView, Error, checkin_not_found,
  checkin_not_active, checkin_expired, code_not_found, session_mismatch, title_required,
  student_not_found,
}
use ocm.Attendance.Writes.{ScanResult, close_checkin, scan_by_code, upsert_record}
use ocm.Attendance.Create.{CheckinInput, create_checkin}

-- The test of a scanned code: six bytes, all of them digits. A character outside ASCII is no digit,
-- so that the characters may be counted.
abbrev pub is_code : Text → Bool
is_code code = length code == 6 && all is_digit code

abbrev pub scan_answer : Result Error ScanResult → Response ScanResult
scan_answer (ok r) = json 200 r
scan_answer (err code_not_found) = error 404 "签到码无效"
scan_answer (err checkin_not_active) = error 409 "签到已结束"
scan_answer (err checkin_expired) = error 409 "签到已过期"
scan_answer (err e) = error 500 "could not scan checkin"

unfoldable pub handle_scan : Faults → ℕ → ℕ → Option Text → ℕ → Db → Db × Response ScanResult
handle_scan fails now1 now2 none user db = (db, error 400 "invalid request body")
handle_scan fails now1 now2 (some code) user db =
    if not (is_code (trim_space code))
    then (db, error 400 "签到码为 6 位数字")
    else let (db', r) = scan_by_code fails now1 now2 (trim_space code) user db in
      (db', scan_answer r)

abbrev pub close_answer : Result Error (Unit {0}) → Response (Unit {0})
close_answer (ok t) = json 204 t
close_answer (err checkin_not_found) = error 404 "checkin not found"
close_answer (err checkin_not_active) = error 409 "签到已结束"
close_answer (err e) = error 500 "could not close checkin"

unfoldable pub handle_close : Faults → ℕ → Option ℕ → Db → Db × Response (Unit {0})
handle_close fails now none db = (db, error 400 "invalid checkin id")
handle_close fails now (some id) db =
    let (db', r) = close_checkin fails now id db in (db', close_answer r)

abbrev pub create_answer : Result Error CheckinView → Response CheckinView
create_answer (ok v) = json 201 v
create_answer (err title_required) = error 400 "独立签到需填写标题"
create_answer (err session_mismatch) = error 400 "课次不属于所选开课"
create_answer (err checkin_not_found) = error 404 "开课或课次不存在"
create_answer (err e) = error 500 "could not create checkin"

unfoldable pub handle_create :
    Faults → (ℕ → ℕ) → ℕ → Option CheckinInput → ℕ → Db → Db → Db × Response CheckinView
handle_create fails draw now none user seen db = (db, error 400 "invalid request body")
handle_create fails draw now (some i) user seen db =
    let (db', r) = create_checkin fails draw now i user seen db in (db', create_answer r)

-- The words that `validRecordStatus` admits.
unfoldable pub parse_record_status : Text → Option RecordStatus
parse_record_status s =
    if text_eq s (codes "present")
    then some present
    else if text_eq s (codes "absent")
    then some absent
    else if text_eq s (codes "late")
    then some late
    else if text_eq s (codes "leave")
    then some leave
    else none

abbrev pub update_answer : Result Error (Option Record × Bool) → Response (Option Record × Bool)
update_answer (ok v) = json 200 v
update_answer (err checkin_not_found) = error 404 "checkin not found"
update_answer (err student_not_found) = error 404 "用户不存在"
update_answer (err e) = error 500 "could not update checkin record"

unfoldable pub handle_update_record :
    Faults
    → ℕ
    → Option ℕ
    → Option ℕ
    → Option Text
    → ℕ
    → Db
    → Db
    → Db × Response (Option Record × Bool)
handle_update_record fails now none user word by seen db = (db, error 400 "invalid checkin id")
handle_update_record fails now (some id) none word by seen db = (db, error 400 "invalid user id")
handle_update_record fails now (some id) (some user) none by seen db =
    (db, error 400 "invalid request body")
handle_update_record fails now (some id) (some user) (some word) by seen db =
    elim (parse_record_status word) [
      | none ↦ (db, error 400 "invalid record status")
      | some s ↦
          let (db', r) = upsert_record fails now id user s by seen db in (db', update_answer r)
    ]
