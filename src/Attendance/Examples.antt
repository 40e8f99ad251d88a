-- ===== src/Attendance/Examples.antt =====
-- The theorems on attendance at one checkin of one offering.
use mathlib.Core.List.{Memᴰ}
use ocm.Prelude.{
  ◌≡◌, ◌+◌, refl, true, false, List, [], ◌∷◌, some, none, no_faults, count_where, arith,
}
use ocm.Prelude.Int.{pos}
use ocm.Prelude.Text.{codes}
use ocm.Attendance.{
  in_roster, CheckinStatus, active, closed, present, leave, Checkin, Record, Db, counts_of, attends,
}
use ocm.Attendance.Writes.{
  ScanResult, scan_by_code, scan_tx, scan_check, write_scan, scan_status, answer,
}
use ocm.Attendance.Create.{CheckinInput, six_digits, new_checkin}
use ocm.Attendance.Rows.{Call, scans, closes}
use ocm.Attendance.History.{run, OneEach, OneCode, first_record_wins, closed_for_good, one_each}
use ocm.Attendance.Refusal.{scans_close_nothing, Recorded, scan-Recorded}
use ocm.Attendance.Codes.{Inserted, eleven_draws}
use ocm.Attendance.Totals.{counts_add_up, outside}

abbrev checkin : CheckinStatus → Checkin
checkin s = record {
  id = 1;
  offering_id = some (pos 7);
  session_id = none;
  title = codes "algebra";
  code = codes "123456";
  late_minutes = 0;
  status = s;
  starts_at = 10;
  expires_at = some 100;
  created_by = 9;
  closed_at = none;
}

abbrev on_leave : Record
on_leave = record {
  checkin_id = 1;
  user_id = 8;
  status = leave;
  checked_at = none;
  modified_by = some 9;
  modified_at = some 20;
}

-- Students 8 and 6 are in the roster of offering 7.
abbrev tables : CheckinStatus → List Record → Db
tables s rs = record {
  users = 8 ∷ 6 ∷ 9 ∷ [];
  offerings = record { id = 7; teaching_class = 2; course_name = []; class_name = [] } ∷ [];
  sessions = [];
  profiles = record { user_id = 8; admin_class = 3 } ∷ record { user_id = 6; admin_class = 3 } ∷ [];
  members = record { teaching_class = 2; admin_class = 3 } ∷ [];
  checkins = checkin s ∷ [];
  records = rs;
  next_id = 2;
}

abbrev later : List Call
later = scans no_faults 30 30 (codes "123456") 8 ∷ closes no_faults 40 1 ∷ []

first_record_wins_example : Memᴰ on_leave (run later (tables active (on_leave ∷ []))).records
first_record_wins_example =
    first_record_wins later (tables active (on_leave ∷ [])) on_leave (Memᴰ.head refl)
      (refl, (refl, tt))

closed_for_good_example :
    Memᴰ (checkin closed) (run later (tables closed [])).checkins
    × ((r : Record)
        → r.checkin_id ≡ 1
        → Memᴰ r (run later (tables closed [])).records
        → Memᴰ r (tables closed []).records)
closed_for_good_example =
    closed_for_good later (tables closed []) (checkin closed) (omega arith) (Memᴰ.head refl) refl
      (λ user. refl, (λ user. refl, tt))

one_each_example :
    OneEach (run later (tables active (on_leave ∷ []))).records
    × OneCode (run later (tables active (on_leave ∷ []))).checkins
one_each_example = one_each later (tables active (on_leave ∷ [])) ((refl, tt), (refl, tt))

-- Two scans of a checkin that has expired: the transaction of each closes it.
abbrev late_scans : List Call
late_scans =
    scans no_faults 101 102 (codes "123456") 8 ∷ scans no_faults 103 104 (codes "123456") 6 ∷ []

scans_close_nothing_example :
    (run late_scans (tables active [])).checkins ≡ (tables active []).checkins
scans_close_nothing_example = scans_close_nothing late_scans (tables active []) (refl, (refl, tt))

closed_inside :
    (scan_tx no_faults 101 102 (codes "123456") 8 (tables active [])).0.checkins
    ≡ record (checkin closed) { closed_at = some 102 } ∷ []
unfolding scan_tx scan_check
closed_inside = refl

abbrev present_now : ScanResult
present_now = answer (checkin active) present true true

scan-Recorded_example :
    Recorded
      (codes "123456")
      8
      (scan_by_code no_faults 30 30 (codes "123456") 8 (tables active [])).0
      present_now
unfolding scan_by_code scan_tx scan_check write_scan scan_status in_roster attends
scan-Recorded_example =
    scan-Recorded no_faults 30 30 (codes "123456") 8 (tables active []) present_now refl

abbrev left_before : ScanResult
left_before = answer (checkin active) leave false true

abbrev input : CheckinInput
input = record {
  offering_id = pos 7;
  session_id = pos 0;
  title = [];
  late_minutes = pos 5;
  duration_minute = pos 10;
}

-- The first draw meets the code 123456, which is taken; the second does not.
eleven_draws_example :
    Inserted no_faults
      (λ n. 123456 + n)
      (new_checkin (tables active []) input (pos 7, []) 50 9)
      10
      0
      1
      (tables active [])
unfolding six_digits
eleven_draws_example =
    eleven_draws no_faults (λ n. 123456 + n) (new_checkin (tables active []) input (pos 7, []) 50 9)
      1 (tables active []) (λ n. refl) (omega arith) refl

counts_add_up_example :
    let c = counts_of (tables active (on_leave ∷ [])) 1 (some (pos 7)) in
    c.present + c.late + c.absent + c.leave
    ≡ c.expected + count_where (outside (tables active (on_leave ∷ [])) 1 (pos 7)) (on_leave ∷ [])
counts_add_up_example = counts_add_up (tables active (on_leave ∷ [])) 1 6 (refl, tt)
