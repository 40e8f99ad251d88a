-- ===== src/Repair/Examples.antt =====
-- The theorems on repair tickets at one classroom with one ticket.
use mathlib.Core.List.{Memᴰ}
use ocm.Prelude.{◌≡◌, refl, false, List, [], ◌∷◌, some, none, no_faults, count_where, arith, err}
use ocm.Prelude.Text.{codes}
use ocm.Repair.{
  Status, open_exists, opened, completed, confirmed, Repair, Db, RepairInput, RepairUpdate,
  is_confirmed, get, create, update, update_check, updated, unresolved_in,
}
use ocm.Repair.Ticket.{
  Call, updates, confirms, step, run, Origin, confirmed_for_good, ticket-Origin,
}
use ocm.Repair.Race.{update_reopens}
use ocm.Repair.Gate.{create_twice}

abbrev ticket : Status → Repair
ticket s = record {
  id = 1;
  classroom_id = 5;
  creator_id = 8;
  assignee_id = none;
  description = codes "lamp";
  images = codes "[]";
  status = s;
  remark = [];
}

abbrev with_ticket : Status → Db
with_ticket s = record { classrooms = 5 ∷ []; users = 8 ∷ []; repairs = ticket s ∷ []; next_id = 2 }

abbrev to_completed : RepairUpdate
to_completed = record { status = some completed; remark = [] }

abbrev history : List Call
history = updates no_faults 1 to_completed 9 ∷ confirms no_faults 1 8 ∷ []

confirmed_for_good_example : Memᴰ (ticket confirmed) (run history (with_ticket confirmed)).repairs
confirmed_for_good_example =
    confirmed_for_good history (with_ticket confirmed) (ticket confirmed) (omega arith)
      (Memᴰ.head refl) refl

ticket-Origin_example : Origin (with_ticket opened) (updated completed [] 9 (ticket opened))
unfolding step update update_check get
ticket-Origin_example =
    ticket-Origin (updates no_faults 1 to_completed 9) (with_ticket opened)
      (updated completed [] 9 (ticket opened)) (omega arith) (Memᴰ.head refl)

update_reopens_example :
    Memᴰ
      (updated completed [] 9 (ticket confirmed))
      (update no_faults 1 to_completed 9 (with_ticket completed) (with_ticket confirmed)).0.repairs
    × (is_confirmed (updated completed [] 9 (ticket confirmed)).status ≡ false)
unfolding get
update_reopens_example =
    update_reopens no_faults 1 to_completed completed 9 (with_ticket completed)
      (with_ticket confirmed) (ticket completed) (ticket confirmed) refl refl refl refl refl
      (Memᴰ.head refl) refl refl

abbrev request : RepairInput
request = record { classroom_id = 5; description = codes "door"; images = [] }

create_twice_example :
    (count_where
        (unresolved_in 5)
        (create no_faults request 9
          (with_ticket confirmed)
          (create no_faults request 8 (with_ticket confirmed) (with_ticket confirmed)).0).0.repairs
      ≡ 2)
    × (create no_faults request 9
          (create no_faults request 8 (with_ticket confirmed) (with_ticket confirmed)).0
          (create no_faults request 8 (with_ticket confirmed) (with_ticket confirmed)).0
        ≡ (
          (create no_faults request 8 (with_ticket confirmed) (with_ticket confirmed)).0,
          err open_exists,
        ))
create_twice_example = create_twice request request 8 9 (with_ticket confirmed) refl refl refl
