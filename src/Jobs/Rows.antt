-- ===== src/Jobs/Rows.antt =====
-- The status of a job under the UPDATEs, and the tasks that work on it.
use ocm.Prelude.{
  ℕ, suc, ◌+◌, ◌≤◌, ◌≡◌, refl, sym, ap, ◌∙◌, inl, inr, Bool, true, false, not, ◌&&◌, List, [], ◌∷◌,
  Option, none, some, any, ◌==◌, if◌then◌else◌, Bool-cases, update_where, Keys, arith,
}
use ocm.Jobs.{
  Status, pending, processing, preview, succeeded, failed, cancelled, number, is_status, Job,
  in_status, to_processing,
}
use ocm.Jobs.Workers.{Stage, waiting, Task, stage_number, is_task, remove_task}

-- The tasks of a job that have begun.
abbrev pub running : ℕ → List Task → ℕ
running id [] = 0
running id (t ∷ tasks) =
    let rest = running id tasks in
    if not (stage_number t.stage == 0) && t.id == id then suc rest else rest

abbrev pub status_of : ℕ → List Job → Option Status
status_of id [] = none
status_of id (j ∷ jobs) = if j.id == id then some j.status else status_of id jobs

abbrev from_number : ℕ → Status
from_number n =
    if n == 0
    then pending
    else if n == 1
    then processing
    else if n == 2
    then preview
    else if n == 3
    then succeeded
    else if n == 4
    then failed
    else cancelled

from_number-number : (s : Status) → from_number (number s) ≡ s
from_number-number pending = refl
from_number-number processing = refl
from_number-number preview = refl
from_number-number succeeded = refl
from_number-number failed = refl
from_number-number cancelled = refl

pub is_status_sound : (s t : Status) → is_status s t ≡ true → s ≡ t
is_status_sound s t h =
    let same : number s ≡ number t = ground (arith, h) in
    sym (from_number-number s) ∙ ap from_number same ∙ from_number-number t

is_status_refl : (s : Status) → is_status s s ≡ true
is_status_refl s = ground arith

-- Ids above all that were given out have no row.
pub status_of-above :
    (n id : ℕ) (jobs : List Job) → Keys (λ j. j.id) n jobs → n ≤ id → status_of id jobs ≡ none
status_of-above n id [] k h = refl
status_of-above n id (j ∷ jobs) k h =
    let other : (j.id == id) ≡ false = ground (arith, k.0, h) in
    rw other (status_of-above j.id id jobs k.1 (omega (arith, k.0, h)))

-- A row that is in a status is the one of its id.
pub status_of-found :
    (n id : ℕ) (from : Status) (jobs : List Job)
    → Keys (λ j. j.id) n jobs
    → any (in_status id from) jobs ≡ true
    → status_of id jobs ≡ some from
status_of-found n id from [] k h = absurd (ground (arith, h))
status_of-found n id from (j ∷ jobs) k h = elim (Bool-cases (j.id == id)) [
  | inr e ↦ rw e (status_of-found j.id id from jobs k.1 (rw e at h))
  | inl e ↦ elim (Bool-cases (is_status j.status from)) [
    | inl g ↦ rw e (ap some (is_status_sound j.status from g))
    | inr g ↦
        let later : any (in_status id from) jobs ≡ true = ground (arith, h, e, g) in
        let rest = status_of-found j.id id from jobs k.1 later in
        let gone = status_of-above j.id id jobs k.1 (ground (arith, e)) in
        let clash : none ≡ some from = sym gone ∙ rest in absurd (ground (arith, clash))
  ]
]

-- An UPDATE of rows of another id.
pub status_of-other :
    (id : ℕ) (p : Job → Bool) (f : Job → Job) (jobs : List Job)
    → ((j : Job) → (f j).id ≡ j.id)
    → ((j : Job) → p j ≡ true → (j.id == id) ≡ false)
    → status_of id (update_where p f jobs) ≡ status_of id jobs
status_of-other id p f [] same apart = refl
status_of-other id p f (j ∷ jobs) same apart = elim (Bool-cases (p j)) [
  | inr e ↦ rw (e, status_of-other id p f jobs same apart) refl
  | inl e ↦ rw (e, same j, apart j e) (status_of-other id p f jobs same apart)
]

-- An UPDATE of rows in other statuses leaves a job in its status.
pub status_of-calm :
    (id : ℕ) (s : Status) (p : Job → Bool) (f : Job → Job) (jobs : List Job)
    → ((j : Job) → (f j).id ≡ j.id)
    → ((j : Job) → p j ≡ true → is_status j.status s ≡ false)
    → status_of id jobs ≡ some s
    → status_of id (update_where p f jobs) ≡ some s
status_of-calm id s p f [] same apart h = h
status_of-calm id s p f (j ∷ jobs) same apart h = elim (Bool-cases (j.id == id)) [
  | inr e ↦ elim (Bool-cases (p j)) [
    | inl g ↦ rw (g, same j, e) (status_of-calm id s p f jobs same apart (rw e at h))
    | inr g ↦ rw (g, e) (status_of-calm id s p f jobs same apart (rw e at h))
  ]
  | inl e ↦
      let is : some j.status ≡ some s = rw e at h in
      let now : j.status ≡ s = ground (arith, is) in
      let on : is_status j.status s ≡ true = ap (λ t. is_status t s) now ∙ is_status_refl s in
      elim (Bool-cases (p j)) [
        | inl g ↦ absurd (ground (arith, on, apart j g))
        | inr g ↦ rw (g, e) is
      ]
]

-- The guarded UPDATE sets the job of its id.
pub status_of-set :
    (now id : ℕ) (from : Status) (jobs : List Job)
    → status_of id jobs ≡ some from
    → status_of id (update_where (in_status id from) (to_processing now) jobs) ≡ some processing
status_of-set now id from [] h = absurd (ground (arith, h))
status_of-set now id from (j ∷ jobs) h = elim (Bool-cases (j.id == id)) [
  | inr e ↦ rw (e, e) (status_of-set now id from jobs (rw e at h))
  | inl e ↦
      let is : some j.status ≡ some from = rw e at h in
      let same : j.status ≡ from = ground (arith, is) in
      let hit : is_status j.status from ≡ true =
        ap (λ s. is_status s from) same ∙ is_status_refl from in
      rw (e, hit, e) refl
]

-- Taking a task from the list.
pub running-remove :
    (stage : Stage) (id k : ℕ) (tasks : List Task)
    → any (is_task stage id) tasks ≡ true
    → (stage_number stage == 0) ≡ false
    → running k tasks ≡ (if id == k then 1 else 0) + running k (remove_task stage id tasks)
running-remove stage id k [] h s = absurd (ground (arith, h))
running-remove stage id k (t ∷ tasks) h s = elim (Bool-cases (is_task stage id t)) [
  | inl e ↦ rw e (ground (arith, e, s))
  | inr e ↦ rw e (ground (arith, e, running-remove stage id k tasks (rw e at h) s))
]

pub running-waiting :
    (id k : ℕ) (tasks : List Task) → running k (remove_task waiting id tasks) ≡ running k tasks
running-waiting id k [] = refl
running-waiting id k (t ∷ tasks) = elim (Bool-cases (is_task waiting id t)) [
  | inl e ↦ rw e (ground (arith, e))
  | inr e ↦ rw e (ground (arith, running-waiting id k tasks))
]
