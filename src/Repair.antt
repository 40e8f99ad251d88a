-- ===== src/Repair.antt =====
-- Repair tickets of a classroom: backend/internal/classroom/repair_store.go, over
-- backend/internal/classroom/repair.go.
pub mod Handler
pub mod Ticket
pub mod Race
pub mod Gate
mod Examples
use Prim.Native.String.{String}
use ocm.Prelude.{
  ℕ, suc, ◌≡◌, Bool, true, false, not, ◌&&◌, ◌||◌, List, [], ◌∷◌, Option, some, none, ◌==◌, find,
  any, Faults, Result, ok, err, ◌>>=◌, ◌>>◌, fail_if, if◌then◌else◌, update_where,
}
use ocm.Prelude.Int.{ℤ, pos, leb_ℤ, pos_part}
use ocm.Prelude.Text.{Text, text_eq, trim_space, codes}
use ocm.Http.{Response, json, error}

-- `opened` is the source's "open".
pub data Status : Type 0 where
  opened processing completed confirmed : Status

pub record Repair : Type 0 where
  pub id : ℕ
  pub classroom_id : ℕ
  pub creator_id : ℕ
  pub assignee_id : Option ℕ
  pub description : Text
  pub images : Text
  pub status : Status
  pub remark : Text

pub record Db : Type 0 where
  pub classrooms : List ℕ
  pub users : List ℕ
  pub repairs : List Repair
  pub next_id : ℕ

pub data Error : Type 0 where
  no_classroom repair_not_found repair_forbidden open_exists repair_state database : Error

abbrev pub is_confirmed : Status → Bool
is_confirmed confirmed = true
is_confirmed _ = false

abbrev pub is_completed : Status → Bool
is_completed completed = true
is_completed _ = false

-- `status IN ('open','processing')`.
abbrev pub is_unresolved : Status → Bool
is_unresolved opened = true
is_unresolved processing = true
is_unresolved _ = false

-- `Get`: the joins on the classroom and on the creator are inner, that on the assignee is not.
unfoldable pub get : Bool → Db → ℕ → Result Error Repair
get failed db id = do
  fail_if failed database
  elim (find (λ r. r.id == id) db.repairs) [
    | none ↦ err repair_not_found
    | some r ↦
        if any (λ c. c == r.classroom_id) db.classrooms && any (λ u. u == r.creator_id) db.users
        then ok r
        else err repair_not_found
  ]

pub record RepairInput : Type 0 where
  pub classroom_id : ℕ
  pub description : Text
  pub images : Text

-- `rawOrDefault(images, "[]")`.
unfoldable pub raw_or_default : Text → Text → Text
raw_or_default v dflt = if text_eq v [] || text_eq v (codes "null") then dflt else v

abbrev pub new_repair : Db → RepairInput → ℕ → Repair
new_repair db i creator = record {
  id = db.next_id;
  classroom_id = i.classroom_id;
  creator_id = creator;
  assignee_id = none;
  description = i.description;
  images = raw_or_default i.images (codes "[]");
  status = opened;
  remark = [];
}

abbrev pub inserted : Db → RepairInput → ℕ → Db
inserted db i creator = record db {
  repairs = new_repair db i creator ∷ db.repairs;
  next_id = suc db.next_id;
}

-- `insert`; the statements `at` and `at + 1`.
unfoldable pub insert : Faults → ℕ → RepairInput → ℕ → Db → Db × Result Error Repair
insert fails at i creator db =
    if fails at
    then (db, err database)
    else (inserted db i creator, get (fails (suc at)) (inserted db i creator) db.next_id)

-- `classroomExists`.
unfoldable pub classroom_exists : Bool → Db → ℕ → Result Error (Unit {0})
classroom_exists failed db id = do
  fail_if failed database
  fail_if (not (any (λ c. c == id) db.classrooms)) no_classroom

-- `hasOpen`.
abbrev pub unresolved_in : ℕ → Repair → Bool
unresolved_in room r = r.classroom_id == room && is_unresolved r.status

unfoldable pub has_open : Bool → Db → ℕ → Result Error Bool
has_open failed db room = do fail_if failed database; ok (any (unresolved_in room) db.repairs)

-- `Create` takes no lock: `seen` is the database of its checks, `db` that of its INSERT.
unfoldable pub create_check : Faults → RepairInput → Db → Result Error (Unit {0})
create_check fails i seen = do
  classroom_exists (fails 0) seen i.classroom_id
  open_already ← has_open (fails 1) seen i.classroom_id
  fail_if open_already open_exists

unfoldable pub create : Faults → RepairInput → ℕ → Db → Db → Db × Result Error Repair
create fails i creator seen db = elim (create_check fails i seen) [
  | err e ↦ (db, err e)
  | ok _ ↦ insert fails 2 i creator db
]

unfoldable pub emergency_create : Faults → RepairInput → ℕ → Db → Db → Db × Result Error Repair
emergency_create fails i creator seen db = elim (classroom_exists (fails 0) seen i.classroom_id) [
  | err e ↦ (db, err e)
  | ok _ ↦ insert fails 2 i creator db
]

-- The status word of an update: `none` is any word but "processing" and "completed".
pub record RepairUpdate : Type 0 where
  pub status : Option Status
  pub remark : Text

abbrev pub may_set : Status → Bool
may_set processing = true
may_set completed = true
may_set _ = false

abbrev pub has_id : ℕ → Repair → Bool
has_id id r = r.id == id

abbrev pub set_repair : (Repair → Bool) → (Repair → Repair) → Db → Db
set_repair p f db = record db { repairs = update_where p f db.repairs }

abbrev pub updated : Status → Text → ℕ → Repair → Repair
updated status remark assignee r = record r {
  assignee_id = some assignee;
  status = status;
  remark = remark;
}

-- The checks of `Update` on the ticket as it was read, with the status that will be written.
unfoldable pub update_check : Bool → Db → ℕ → RepairUpdate → Result Error Status
update_check failed seen id u = do
  r ← get failed seen id
  fail_if (is_confirmed r.status) repair_state
  elim u.status [ none ↦ err repair_state | some s ↦ if may_set s then ok s else err repair_state ]

-- `Update`. Its UPDATE selects by id alone.
unfoldable pub update : Faults → ℕ → RepairUpdate → ℕ → Db → Db → Db × Result Error Repair
update fails id u assignee seen db = elim (update_check (fails 0) seen id u) [
  | err e ↦ (db, err e)
  | ok s ↦
      if fails 1
      then (db, err database)
      else let db' = set_repair (has_id id) (updated s u.remark assignee) db in
        (db', get (fails 2) db' id)
]

abbrev pub to_confirm : ℕ → Repair → Bool
to_confirm id r = r.id == id && is_completed r.status

abbrev pub confirmed_row : Repair → Repair
confirmed_row r = record r { status = confirmed }

-- The checks of `Confirm`: the ticket, and whether it is confirmed already.
unfoldable pub confirm_check : Bool → Db → ℕ → ℕ → Result Error Repair
confirm_check failed seen id creator = do
  r ← get failed seen id
  fail_if (not (r.creator_id == creator)) repair_forbidden
  if is_confirmed r.status || is_completed r.status then ok r else err repair_state

unfoldable pub confirm : Faults → ℕ → ℕ → Db → Db → Db × Result Error Repair
confirm fails id creator seen db = elim (confirm_check (fails 0) seen id creator) [
  | err e ↦ (db, err e)
  | ok r ↦
      if is_confirmed r.status
      then (db, ok r)
      else if fails 1
      then (db, err database)
      else let db' = set_repair (to_confirm id) confirmed_row db in (db', get (fails 2) db' id)
]
