-- ===== src/Jobs/Once.antt =====
-- The requests keep the work on a job to one goroutine.
use ocm.Prelude.{
  ℕ, ◌≡◌, refl, ap, ◌∙◌, inl, inr, Bool, true, false, not, ◌&&◌, Option, any, ◌==◌, Bool-cases,
  Result-cases, ok, err, update_where, Keys-update_where, Faults, arith,
}
use Prim.Native.String.{String}
use ocm.Authz.{Subject}
use ocm.Jobs.{
  Status, pending, processing, preview, failed, is_status, Report, Job, Db, job_state_conflict,
  in_status, to_processing, to_cancelled, mark_processing, cancel,
}
use ocm.Jobs.Workers.{
  Stage, waiting, analyzing, reanalyzing, committing, World, stage_number, without, Registry, begin,
  commit_job, reanalyze, cancel_job, admit, start_process,
}
use ocm.Jobs.Rows.{status_of-calm, running-waiting}
use ocm.Jobs.Single.{Inv, begin-Inv}

-- The guarded UPDATE on a row in its status, and on none.
pub mark-hit :
    (now id : ℕ) (from : Status) (db : Db)
    → any (in_status id from) db.jobs ≡ true
    → mark_processing false now id from db ≡ (
      ok tt,
      record {
        jobs = update_where (in_status id from) (to_processing now) db.jobs;
        next_id = db.next_id;
      },
    )
unfolding mark_processing
mark-hit now id from db e = rw (mark_processing, e) refl

pub mark-miss :
    (now id : ℕ) (from : Status) (db : Db)
    → any (in_status id from) db.jobs ≡ false
    → mark_processing false now id from db ≡ (err job_state_conflict, db)
unfolding mark_processing
mark-miss now id from db e = rw (mark_processing, e) refl

-- A request that starts a task.
start-Inv :
    (fault : Bool) (now id : ℕ) (job : Job) (stage : Stage) (busy broken : String) (w : World)
    → (stage_number stage == 0) ≡ false
    → is_status processing job.status ≡ false
    → Inv w
    → Inv (begin fault now job id stage busy broken w).1
unfolding begin mark_processing
start-Inv true now id job stage busy broken w begun idle inv = inv
start-Inv false now id job stage busy broken w begun idle inv =
    elim (Bool-cases (any (in_status id job.status) w.db.jobs)) [
      | inl e ↦
          rw (begin, mark-hit now id job.status w.db e, mark-hit now id job.status w.db e)
            (begin-Inv stage now id job.status w begun idle e inv)
      | inr e ↦
          rw (begin, mark-miss now id job.status w.db e, mark-miss now id job.status w.db e) inv
    ]

pub commit_job-Inv :
    (registry : Registry) (subject : Option Subject) (faults : Faults) (now id : ℕ) (seen : Db)
    (w : World)
    → Inv w
    → Inv (commit_job registry subject faults now id seen w).1
unfolding commit_job
commit_job-Inv registry subject faults now id seen w inv =
    elim (Result-cases (admit registry subject (faults 0) id seen)) [
      | inr (x, e) ↦ rw (commit_job, e) inv
      | inl (job, e) ↦
          elim (Bool-cases
            (not (is_status job.status preview) && not (is_status job.status failed))) [
              | inl g ↦ rw (commit_job, e, g) inv
              | inr g ↦
                  rw (commit_job, e, g)
                    (start-Inv (faults 1) now id job committing _ _ w refl (ground (arith, g)) inv)
            ]
    ]

pub reanalyze-Inv :
    (registry : Registry) (subject : Option Subject) (faults : Faults) (now id : ℕ) (seen : Db)
    (w : World)
    → Inv w
    → Inv (reanalyze registry subject faults now id seen w).1
unfolding reanalyze
reanalyze-Inv registry subject faults now id seen w inv =
    elim (Result-cases (admit registry subject (faults 0) id seen)) [
      | inr (x, e) ↦ rw (reanalyze, e) inv
      | inl (job, e) ↦ elim (Bool-cases (not (is_status job.status preview))) [
        | inl g ↦ rw (reanalyze, e, g) inv
        | inr g ↦
            rw (reanalyze, e, g)
              (start-Inv (faults 1) now id job reanalyzing _ _ w refl (ground (arith, g)) inv)
      ]
    ]

-- The UPDATE of a cancellation meets no job that is processing.
cancelled-Inv :
    (broken : Bool) (now id : ℕ) (w : World)
    → Inv w
    → Inv (record { db = (cancel broken now id w.db).1; tasks = w.tasks })
unfolding cancel
cancelled-Inv true now id w inv = inv
cancelled-Inv false now id w inv = elim (Bool-cases (any (in_status id preview) w.db.jobs)) [
  | inr e ↦ rw e inv
  | inl e ↦ rw e (record {
    keys =
        Keys-update_where (λ j. j.id) (in_status id preview) (to_cancelled now) w.db.next_id
          w.db.jobs (λ j. refl) inv.keys;
    single = inv.single;
    busy = λ k h.
        status_of-calm k processing (in_status id preview) (to_cancelled now) w.db.jobs (λ j. refl)
          (λ j g. ground (arith, g)) (inv.busy k h);
  })
]

pub cancel_job-Inv :
    (registry : Registry) (subject : Option Subject) (faults : Faults) (now id : ℕ) (seen : Db)
    (w : World)
    → Inv w
    → Inv (cancel_job registry subject faults now id seen w).1
unfolding cancel_job
cancel_job-Inv registry subject faults now id seen w inv =
    let next = cancelled-Inv (faults 1) now id w inv in
    elim (Result-cases (admit registry subject (faults 0) id seen)) [
      | inr (x, e) ↦ rw (cancel_job, e) inv
      | inl (job, e) ↦ elim (Bool-cases (not (is_status job.status preview))) [
        | inl g ↦ rw (cancel_job, e, g) inv
        | inr g ↦ elim (Result-cases (cancel (faults 1) now id w.db).0) [
          | inl (u, r) ↦ rw (cancel_job, e, g, r) next
          | inr (x, r) ↦ rw (cancel_job, e, g, r) next
        ]
      ]
    ]

-- The beginning of an analysis, when its UPDATE does not fail.
pub start_process-Inv :
    (faults : Faults) (now id : ℕ) (lost : Report) (w : World)
    → faults 0 ≡ false
    → Inv w
    → Inv (start_process faults now id lost w)
unfolding start_process
start_process-Inv faults now id lost w works inv =
    let plain = ap (λ b. mark_processing b now id pending w.db) works in
    elim (Bool-cases (any (in_status id pending) w.db.jobs)) [
      | inl e ↦
          let moved = plain ∙ mark-hit now id pending w.db e in
          rw (start_process, moved, moved) (begin-Inv analyzing now id pending w refl refl e inv)
      | inr e ↦
          let kept = plain ∙ mark-miss now id pending w.db e in rw (start_process, kept, kept) inv
    ]

pub without-Inv : (id : ℕ) (w : World) → Inv w → Inv (without waiting id w)
without-Inv id w inv = record {
  keys = inv.keys;
  single = λ k. omega (arith, inv.single k, running-waiting id k w.tasks);
  busy = λ k h. inv.busy k (omega (arith, h, running-waiting id k w.tasks));
}
