-- ===== src/Repair/Handler.antt =====
-- The handlers of backend/internal/classroom/repair_handler.go.
use Prim.Native.String.{String}
use ocm.Prelude.{
  ℕ, Bool, not, ◌&&◌, [], Option, some, none, ◌==◌, Faults, Result, ok, err, ◌>>◌, fail_if,
  if◌then◌else◌,
}
use ocm.Prelude.Int.{ℤ, pos, leb_ℤ, pos_part}
use ocm.Prelude.Text.{Text, text_eq, trim_space, codes}
use ocm.Http.{Response, json, error}
use ocm.Repair.{
  Db, Error, Repair, RepairInput, RepairUpdate, Status, completed, confirm, confirmed, create, get,
  no_classroom, open_exists, opened, processing, repair_forbidden, repair_not_found, repair_state,
  update,
}

-- The answers of the handlers.
abbrev pub create_answer : Result Error Repair → Response Repair
create_answer (ok v) = json 201 v
create_answer (err no_classroom) = error 400 "classroom not found"
create_answer (err open_exists) = error 409 "该教室已有待处理报修，请勿重复提交。"
create_answer (err e) = error 500 "could not create repair"

abbrev pub update_answer : Result Error Repair → Response Repair
update_answer (ok v) = json 200 v
update_answer (err repair_not_found) = error 404 "repair ticket not found"
update_answer (err repair_state) = error 400 "invalid repair status transition"
update_answer (err e) = error 500 "could not update repair"

abbrev pub confirm_answer : Result Error Repair → Response Repair
confirm_answer (ok v) = json 200 v
confirm_answer (err repair_not_found) = error 404 "repair ticket not found"
confirm_answer (err repair_forbidden) = error 403 "只有报修人才能确认完成"
confirm_answer (err repair_state) = error 400 "只有已完成的报修才能确认"
confirm_answer (err e) = error 500 "could not confirm repair"

pub record RepairBody : Type 0 where
  pub classroom_id : ℤ
  pub description : Text
  pub images : Text

-- `normalizeRepairInput`.
unfoldable pub normalize : RepairBody → Result String RepairInput
normalize b = do
  fail_if (leb_ℤ b.classroom_id (pos 0)) "classroomId is required"
  fail_if (text_eq (trim_space b.description) []) "description is required"
  ok (record {
    classroom_id = pos_part b.classroom_id;
    description = trim_space b.description;
    images = b.images;
  })

-- The status that a trimmed word names.
unfoldable pub parse_status : Text → Option Status
parse_status w =
    if text_eq w (codes "open")
    then some opened
    else if text_eq w (codes "processing")
    then some processing
    else if text_eq w (codes "completed")
    then some completed
    else if text_eq w (codes "confirmed")
    then some confirmed
    else none

unfoldable pub handle_create : Faults → Option RepairBody → ℕ → Db → Db → Db × Response Repair
handle_create fails none user seen db = (db, error 400 "invalid request body")
handle_create fails (some b) user seen db = elim (normalize b) [
  | err msg ↦ (db, error 400 msg)
  | ok i ↦ let (db', r) = create fails i user seen db in (db', create_answer r)
]

pub record UpdateBody : Type 0 where
  pub status : Text
  pub remark : Text

unfoldable pub handle_update :
    Faults → Option ℕ → Option UpdateBody → ℕ → Db → Db → Db × Response Repair
handle_update fails none body user seen db = (db, error 400 "invalid repair id")
handle_update fails (some id) none user seen db = (db, error 400 "invalid request body")
handle_update fails (some id) (some b) user seen db =
    let u : RepairUpdate = record {
      status = parse_status (trim_space b.status);
      remark = trim_space b.remark;
    } in
    let (db', r) = update fails id u user seen db in (db', update_answer r)

unfoldable pub handle_confirm : Faults → Option ℕ → ℕ → Db → Db → Db × Response Repair
handle_confirm fails none user seen db = (db, error 400 "invalid repair id")
handle_confirm fails (some id) user seen db =
    let (db', r) = confirm fails id user seen db in (db', confirm_answer r)

-- `get` of the handler: a ticket of another user is hidden from whoever may not assign repairs.
unfoldable pub handle_get : Bool → Option ℕ → ℕ → Bool → Db → Response Repair
handle_get failed none user is_admin db = error 400 "invalid repair id"
handle_get failed (some id) user is_admin db = elim (get failed db id) [
  | err repair_not_found ↦ error 404 "repair ticket not found"
  | err e ↦ error 500 "could not load repair"
  | ok r ↦
      if not is_admin && not (r.creator_id == user)
      then error 404 "repair ticket not found"
      else json 200 r
]
