-- ===== src/Jobs/Progress.antt =====
-- Every event keeps the work on a job to one goroutine.
use ocm.Prelude.{
  ℕ, suc, ◌≡◌, refl, sym, ◌∙◌, inl, inr, Bool, true, false, List, [], ◌∷◌, none, some, ◌==◌,
  Bool-cases, Result, ok, err, Keys, Keys-update_where, All, arith,
}
use ocm.Prelude.Text.{Text}
use ocm.Jobs.{processing, is_status, Db, Error, interrupted, create_job, recover_stale, new_job}
use ocm.Jobs.Workers.{
  waiting, analyzing, reanalyzing, committing, World, has_task, without, uploaded, Event, uploads,
  starts, analyzed, reanalyzed, committed, commits, reanalyzes, cancels, restarts, step, run,
  requeued,
}
use ocm.Jobs.Rows.{running, status_of-above}
use ocm.Jobs.Single.{Inv, end-Inv, end_analysis-Keeps, end_commit-Keeps}
use ocm.Jobs.Once.{commit_job-Inv, reanalyze-Inv, cancel_job-Inv, start_process-Inv, without-Inv}

-- A new job is waiting, and has an id that no task has.
upload-Inv :
    (broken unread : Bool) (kind filename payload : Text) (user : ℕ) (w : World)
    → Inv w
    → let (result, after) = create_job broken unread kind filename payload user w.db in
      Inv (uploaded result after w.tasks)
unfolding create_job
upload-Inv true unread kind filename payload user w inv = inv
upload-Inv false unread kind filename payload user w inv =
    let grown : Inv (record {
      db = record {
        jobs = new_job w.db.next_id kind filename payload user ∷ w.db.jobs;
        next_id = suc w.db.next_id;
      };
      tasks = w.tasks;
    }) =
      record {
        keys = (omega arith, inv.keys);
        single = inv.single;
        busy = λ k h. elim (Bool-cases (w.db.next_id == k)) [
          | inr e ↦ rw e (inv.busy k h)
          | inl e ↦
              let is : some processing ≡ none =
                sym (inv.busy k h)
                ∙ status_of-above w.db.next_id k w.db.jobs inv.keys (ground (arith, e)) in
              absurd (ground (arith, is))
        ];
      } in
    elim (Bool-cases unread) [
      | inl e ↦ rw (create_job, e) grown
      | inr e ↦
          rw (create_job, e)
            (record { keys = grown.keys; single = grown.single; busy = grown.busy })
    ]

running-requeued : (r : Result Error (List ℕ)) (k : ℕ) → running k (requeued r) ≡ 0
running-requeued (err e) k = refl
running-requeued (ok []) k = refl
running-requeued (ok (id ∷ ids)) k = running-requeued (ok ids) k

recover_stale-Keys :
    (broken unread : Bool) (now : ℕ) (db : Db)
    → Keys (λ j. j.id) db.next_id db.jobs
    → let after = (recover_stale broken unread now db).1 in
      Keys (λ j. j.id) after.next_id after.jobs
unfolding recover_stale
recover_stale-Keys true unread now db k = k
recover_stale-Keys false true now db k =
    Keys-update_where (λ j. j.id) (λ j. is_status j.status processing) (interrupted now) db.next_id
      db.jobs (λ j. refl) k
recover_stale-Keys false false now db k =
    Keys-update_where (λ j. j.id) (λ j. is_status j.status processing) (interrupted now) db.next_id
      db.jobs (λ j. refl) k

restart-Inv :
    (broken unread : Bool) (now : ℕ) (w : World)
    → Inv w
    → let (result, after) = recover_stale broken unread now w.db in
      Inv (record { db = after; tasks = requeued result })
restart-Inv broken unread now w inv =
    let (result, after) = recover_stale broken unread now w.db in
    record {
      keys = recover_stale-Keys broken unread now w.db inv.keys;
      single = λ k. omega (arith, running-requeued result k);
      busy = λ k h. absurd (omega (arith, h, running-requeued result k));
    }

-- The UPDATE that begins an analysis does not fail.
abbrev pub Marked : Event → Type 0
Marked (starts faults now id lost) = faults 0 ≡ false
Marked _ = Unit

pub step-Inv : (e : Event) (w : World) → Marked e → Inv w → Inv (step e w)
unfolding step
step-Inv (uploads broken unread kind filename payload user) w m inv =
    upload-Inv broken unread kind filename payload user w inv
step-Inv (starts faults now id lost) w m inv = elim (Bool-cases (has_task waiting id w)) [
  | inl e ↦
      rw (step, e)
        (start_process-Inv faults now id lost (without waiting id w) m (without-Inv id w inv))
  | inr e ↦ rw (step, e) inv
]
step-Inv (analyzed faults now id ending lost) w m inv =
    elim (Bool-cases (has_task analyzing id w)) [
      | inl e ↦
          rw (step, e)
            (end-Inv analyzing id w _ refl e
              (end_analysis-Keeps faults now id ending lost w.db inv.keys) inv)
      | inr e ↦ rw (step, e) inv
    ]
step-Inv (reanalyzed faults now id ending lost) w m inv =
    elim (Bool-cases (has_task reanalyzing id w)) [
      | inl e ↦
          rw (step, e)
            (end-Inv reanalyzing id w _ refl e
              (end_analysis-Keeps faults now id ending lost w.db inv.keys) inv)
      | inr e ↦ rw (step, e) inv
    ]
step-Inv (committed faults now id ending) w m inv = elim (Bool-cases (has_task committing id w)) [
  | inl e ↦
      rw (step, e)
        (end-Inv committing id w _ refl e (end_commit-Keeps faults now id ending w.db inv.keys) inv)
  | inr e ↦ rw (step, e) inv
]
step-Inv (commits registry subject faults now id seen) w m inv =
    commit_job-Inv registry subject faults now id seen w inv
step-Inv (reanalyzes registry subject faults now id seen) w m inv =
    reanalyze-Inv registry subject faults now id seen w inv
step-Inv (cancels registry subject faults now id seen) w m inv =
    cancel_job-Inv registry subject faults now id seen w inv
step-Inv (restarts broken unread now) w m inv = restart-Inv broken unread now w inv

-- After any events in any order, of which no UPDATE that begins a first analysis fails, whatever table
-- the requests saw before they wrote and whatever other statements fail: a job has at most one
-- goroutine that has begun to analyze or commit it, and while it has one it is in the status
-- processing; the ids of the jobs stay different.
pub one_worker : (events : List Event) (w : World) → All Marked events → Inv w → Inv (run events w)
unfolding run
one_worker [] w m inv = inv
one_worker (e ∷ events) w m inv = one_worker events (step e w) m.1 (step-Inv e w m.0 inv)
