-- ===== src/Attendance/Create.antt =====
-- `CreateCheckin` of backend/internal/attendance/store.go, with the title that it makes up and the
-- loop that draws a code.
use ocm.Prelude.{
  ℕ, zero, suc, ◌+◌, ◌-◌, ◌/◌, ◌%◌, Bool, false, not, ◌&&◌, ◌||◌, List, [], ◌∷◌, ◌++◌, Option, some,
  none, ltb, ◌==◌, find, any, Faults, Result, ok, err, ◌>>=◌, ◌>>◌, fail_if, if◌then◌else◌,
}
use ocm.Prelude.Int.{ℤ, pos, negsuc, ltb_ℤ, pos_part}
use ocm.Prelude.Text.{Text, codes, text_eq, trim_space, decimal}
use ocm.Calendar.{digit, format_date}
use ocm.Attendance.{
  active, Checkin, CheckinView, Session, Offering, Db, Error, checkin_not_found, session_mismatch,
  title_required, database, get_checkin,
}
use ocm.Attendance.Writes.{minutes}

pub record CheckinInput : Type 0 where
  pub offering_id : ℤ
  pub session_id : ℤ
  pub title : Text
  pub late_minutes : ℤ
  pub duration_minute : ℤ

abbrev pub is_zero : ℤ → Bool
is_zero (pos n) = n == 0
is_zero (negsuc n) = false

abbrev pub null_if_zero : ℤ → Option ℤ
null_if_zero n = if is_zero n then none else some n

-- `periodText`; the periods of a row are not negative.
unfoldable pub period_text : ℕ → ℕ → Text
period_text first last =
    if first == 0
    then []
    else if last == 0 || last == first
    then codes "第" ++ (decimal first ++ codes "节")
    else codes "第" ++ (decimal first ++ (codes "-" ++ (decimal last ++ codes "节")))

-- A DATE column as text.
unfoldable pub date_text : ℕ → Text
date_text d = format_date (record { year = d / 10000; month = (d / 100) % 100; day = d % 100 })

abbrev pub space : Text
space = codes " "

unfoldable pub session_title : Offering → Session → Text
session_title o s =
    o.course_name
    ++ (space
        ++ (o.class_name
            ++ (space ++ (date_text s.date ++ (space ++ period_text s.period_start s.period_end)))))

abbrev pub or_title : Text → Text → Text
or_title title made = if text_eq title [] then made else title

abbrev pub names_offering : ℤ → ℕ → Bool
names_offering (pos n) offering = n == offering
names_offering (negsuc n) offering = false

-- The offering and the title that the checks leave.
unfoldable pub create_check : Faults → Db → CheckinInput → Result Error (ℤ × Text)
create_check fails db i = do
  fail_if (is_zero i.offering_id && text_eq (trim_space i.title) []) title_required
  if ltb_ℤ (pos 0) i.session_id
      then (do
        fail_if (fails 0) database
        elim (find (λ s. s.id == pos_part i.session_id) db.sessions) [
          | none ↦ err checkin_not_found
          | some s ↦ elim (find (λ o. o.id == s.offering_id) db.offerings) [
            | none ↦ err checkin_not_found
            | some o ↦ do
              fail_if
                  (not (is_zero i.offering_id) && not (names_offering i.offering_id s.offering_id))
                  session_mismatch
              ok (pos s.offering_id, or_title (trim_space i.title) (session_title o s))
          ]
        ])
      else if ltb_ℤ (pos 0) i.offering_id
      then (do
        fail_if (fails 0) database
        elim (find (λ o. o.id == pos_part i.offering_id) db.offerings) [
          | none ↦ err checkin_not_found
          | some o ↦ ok (
            i.offering_id,
            or_title (trim_space i.title) (o.course_name ++ (space ++ o.class_name)),
          )
        ])
      else ok (i.offering_id, trim_space i.title)

-- `now.Add(d)` for a number of minutes in 64 bits.
abbrev pub add_minutes : ℕ → ℕ → ℕ
add_minutes now m =
    if ltb (minutes m) 9223372036854775808
    then now + minutes m
    else now - (18446744073709551616 - minutes m)

-- `Sprintf("%06d", n)` of a number below a million.
unfoldable pub six_digits : ℕ → Text
six_digits n =
    digit (n / 100000)
    ∷ digit (n / 10000)
    ∷ digit (n / 1000)
    ∷ digit (n / 100)
    ∷ digit (n / 10)
    ∷ digit n
    ∷ []

unfoldable pub new_checkin : Db → CheckinInput → ℤ × Text → ℕ → ℕ → Text → Checkin
new_checkin db i (offering, title) now user code = record {
  id = db.next_id;
  offering_id = null_if_zero offering;
  session_id = null_if_zero i.session_id;
  title = title;
  code = code;
  late_minutes = pos_part i.late_minutes;
  status = active;
  starts_at = now;
  expires_at =
      if ltb_ℤ (pos 0) i.duration_minute
      then some (add_minutes now (pos_part i.duration_minute))
      else none;
  created_by = user;
  closed_at = none;
}

abbrev pub code_taken : Text → List Checkin → Bool
code_taken code = any (λ c. text_eq c.code code)

abbrev pub with_checkin : Checkin → Db → Db
with_checkin c db = record db { checkins = c ∷ db.checkins; next_id = suc db.next_id }

-- The loop that inserts the row under a code that is free: `draw` is what the random numbers are,
-- and `left` how many more collisions it bears. The statements of the loop are numbered by attempt.
unfoldable pub insert_loop : Faults → (ℕ → ℕ) → (Text → Checkin) → ℕ → ℕ → Db → Db × Result Error ℕ
insert_loop fails draw row zero attempt db =
    if fails (suc attempt)
    then (db, err database)
    else if code_taken (six_digits (draw attempt)) db.checkins
    then (db, err database)
    else (with_checkin (row (six_digits (draw attempt))) db, ok db.next_id)
insert_loop fails draw row (suc left) attempt db =
    let again = insert_loop fails draw row left (suc attempt) db in
    if fails (suc attempt)
    then (db, err database)
    else if code_taken (six_digits (draw attempt)) db.checkins
    then again
    else (with_checkin (row (six_digits (draw attempt))) db, ok db.next_id)

-- `CreateCheckin`: `seen` is the database of its checks, `db` that of its INSERTs.
unfoldable pub create_checkin :
    Faults → (ℕ → ℕ) → ℕ → CheckinInput → ℕ → Db → Db → Db × Result Error CheckinView
create_checkin fails draw now i user seen db = elim (create_check fails seen i) [
  | err e ↦ (db, err e)
  | ok t ↦
      let (db', r) = insert_loop fails draw (new_checkin db i t now user) 10 0 db in
      (db', do id ← r; get_checkin fails 12 now db' id)
]
