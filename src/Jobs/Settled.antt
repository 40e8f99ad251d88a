-- ===== src/Jobs/Settled.antt =====
-- A job that has succeeded or was cancelled stays so.
use Prim.Native.String.{String}
use ocm.Prelude.{
  ℕ, ◌≡◌, refl, sym, ap, ◌∙◌, inl, inr, Bool, true, false, not, ◌&&◌, ◌||◌, List, [], ◌∷◌, Option,
  none, some, any, ◌==◌, Bool-cases, Result-cases, All, Faults, arith,
}
use ocm.Prelude.Text.{Text}
use ocm.Authz.{Subject}
use ocm.Jobs.{
  Status, pending, processing, preview, succeeded, failed, cancelled, is_status, Report, Job, Db,
  in_status, to_processing, to_cancelled, interrupted, create_job, mark_processing, cancel,
  recover_stale,
}
use ocm.Jobs.Workers.{
  Stage, waiting, analyzing, reanalyzing, committing, World, stage_number, has_task, without,
  Registry, begin, commit_job, reanalyze, cancel_job, admit, start_process, Event, uploads, starts,
  analyzed, reanalyzed, committed, commits, reanalyzes, cancels, restarts, step, run,
}
use ocm.Jobs.Rows.{status_of, status_of-above, status_of-calm, running-remove}
use ocm.Jobs.Single.{Inv, Keeps, end_analysis-Keeps, end_commit-Keeps}
use ocm.Jobs.Once.{mark-hit, mark-miss}
use ocm.Jobs.Progress.{Marked, step-Inv}

abbrev pub settled : Status → Bool
settled s = is_status s succeeded || is_status s cancelled

module _ (id : ℕ) (s : Status) (final : settled s ≡ true) where
  abbrev Is : Db → Type 0
  Is db = status_of id db.jobs ≡ some s

  begin-Is :
      (fault : Bool) (now k : ℕ) (job : Job) (stage : Stage) (busy broken : String) (w : World)
      → settled job.status ≡ false
      → Is w.db
      → Is (begin fault now job k stage busy broken w).1.db
  unfolding begin mark_processing
  begin-Is true now k job stage busy broken w other h = h
  begin-Is false now k job stage busy broken w other h =
      elim (Bool-cases (any (in_status k job.status) w.db.jobs)) [
        | inl e ↦
            let moved = mark-hit now k job.status w.db e in
            rw (begin, moved, moved)
              (status_of-calm id s (in_status k job.status) (to_processing now) w.db.jobs
                (λ j. refl) (λ j g. ground (arith, g, other, final)) h)
        | inr e ↦ let kept = mark-miss now k job.status w.db e in rw (begin, kept, kept) h
      ]

  start-Is :
      (faults : Faults) (now k : ℕ) (lost : Report) (w : World)
      → faults 0 ≡ false
      → Is w.db
      → Is (start_process faults now k lost w).db
  unfolding start_process
  start-Is faults now k lost w works h =
      let plain = ap (λ b. mark_processing b now k pending w.db) works in
      elim (Bool-cases (any (in_status k pending) w.db.jobs)) [
        | inl e ↦
            let moved = plain ∙ mark-hit now k pending w.db e in
            rw (start_process, moved, moved)
              (status_of-calm id s (in_status k pending) (to_processing now) w.db.jobs (λ j. refl)
                (λ j g. ground (arith, g, final)) h)
        | inr e ↦
            let kept = plain ∙ mark-miss now k pending w.db e in rw (start_process, kept, kept) h
      ]

  commit-Is :
      (registry : Registry) (subject : Option Subject) (faults : Faults) (now k : ℕ) (seen : Db)
      (w : World)
      → Is w.db
      → Is (commit_job registry subject faults now k seen w).1.db
  unfolding commit_job
  commit-Is registry subject faults now k seen w h =
      elim (Result-cases (admit registry subject (faults 0) k seen)) [
        | inr (x, e) ↦ rw (commit_job, e) h
        | inl (job, e) ↦
            elim (Bool-cases
              (not (is_status job.status preview) && not (is_status job.status failed))) [
                | inl g ↦ rw (commit_job, e, g) h
                | inr g ↦
                    rw (commit_job, e, g)
                      (begin-Is (faults 1) now k job committing _ _ w (ground (arith, g)) h)
              ]
      ]

  reanalyze-Is :
      (registry : Registry) (subject : Option Subject) (faults : Faults) (now k : ℕ) (seen : Db)
      (w : World)
      → Is w.db
      → Is (reanalyze registry subject faults now k seen w).1.db
  unfolding reanalyze
  reanalyze-Is registry subject faults now k seen w h =
      elim (Result-cases (admit registry subject (faults 0) k seen)) [
        | inr (x, e) ↦ rw (reanalyze, e) h
        | inl (job, e) ↦ elim (Bool-cases (not (is_status job.status preview))) [
          | inl g ↦ rw (reanalyze, e, g) h
          | inr g ↦
              rw (reanalyze, e, g)
                (begin-Is (faults 1) now k job reanalyzing _ _ w (ground (arith, g)) h)
        ]
      ]

  cancelled-Is : (broken : Bool) (now k : ℕ) (db : Db) → Is db → Is (cancel broken now k db).1
  unfolding cancel
  cancelled-Is true now k db h = h
  cancelled-Is false now k db h = elim (Bool-cases (any (in_status k preview) db.jobs)) [
    | inr e ↦ rw e h
    | inl e ↦ rw e (
        status_of-calm id s (in_status k preview) (to_cancelled now) db.jobs (λ j. refl)
          (λ j g. ground (arith, g, final)) h)
  ]

  cancel-Is :
      (registry : Registry) (subject : Option Subject) (faults : Faults) (now k : ℕ) (seen : Db)
      (w : World)
      → Is w.db
      → Is (cancel_job registry subject faults now k seen w).1.db
  unfolding cancel_job
  cancel-Is registry subject faults now k seen w h =
      let next = cancelled-Is (faults 1) now k w.db h in
      elim (Result-cases (admit registry subject (faults 0) k seen)) [
        | inr (x, e) ↦ rw (cancel_job, e) h
        | inl (job, e) ↦ elim (Bool-cases (not (is_status job.status preview))) [
          | inl g ↦ rw (cancel_job, e, g) h
          | inr g ↦ elim (Result-cases (cancel (faults 1) now k w.db).0) [
            | inl (u, r) ↦ rw (cancel_job, e, g, r) next
            | inr (x, r) ↦ rw (cancel_job, e, g, r) next
          ]
        ]
      ]

  -- No task works on the job.
  end-Is :
      (stage : Stage) (k : ℕ) (w : World) (db : Db)
      → (stage_number stage == 0) ≡ false
      → has_task stage k w ≡ true
      → Keeps k w.db db
      → Inv w
      → Is w.db
      → Is db
  end-Is stage k w db begun there keeps inv h = elim (Bool-cases (k == id)) [
    | inr e ↦ keeps.others id e ∙ h
    | inl e ↦
        let count = rw e at (running-remove stage k id w.tasks there begun) in
        let is : some processing ≡ some s = sym (inv.busy id (omega (arith, count))) ∙ h in
        let same : processing ≡ s = ground (arith, is) in
        let on : settled processing ≡ true = ap settled same ∙ final in absurd (ground (arith, on))
  ]

  upload-Is :
      (broken unread : Bool) (kind filename payload : Text) (user : ℕ) (w : World)
      → Inv w
      → Is w.db
      → Is (step (uploads broken unread kind filename payload user) w).db
  unfolding step create_job
  upload-Is true unread kind filename payload user w inv h = h
  upload-Is false unread kind filename payload user w inv h =
      let apart : (w.db.next_id == id) ≡ false = elim (Bool-cases (w.db.next_id == id)) [
        | inr e ↦ e
        | inl e ↦
            let gone = status_of-above w.db.next_id id w.db.jobs inv.keys (ground (arith, e)) in
            let clash : none ≡ some s = sym gone ∙ h in absurd (ground (arith, clash))
      ] in
      elim (Bool-cases unread) [
        | inl e ↦ rw (step, create_job, e, apart) h
        | inr e ↦ rw (step, create_job, e, apart) h
      ]

  restart-Is :
      (broken unread : Bool) (now : ℕ) (db : Db) → Is db → Is (recover_stale broken unread now db).1
  unfolding recover_stale
  restart-Is true unread now db h = h
  restart-Is false true now db h =
      status_of-calm id s (λ j. is_status j.status processing) (interrupted now) db.jobs (λ j. refl)
        (λ j g. ground (arith, g, final)) h
  restart-Is false false now db h =
      status_of-calm id s (λ j. is_status j.status processing) (interrupted now) db.jobs (λ j. refl)
        (λ j g. ground (arith, g, final)) h

  step-Is : (e : Event) (w : World) → Marked e → Inv w → Is w.db → Is (step e w).db
  unfolding step
  step-Is (uploads broken unread kind filename payload user) w m inv h =
      upload-Is broken unread kind filename payload user w inv h
  step-Is (starts faults now k lost) w m inv h = elim (Bool-cases (has_task waiting k w)) [
    | inl e ↦ rw (step, e) (start-Is faults now k lost (without waiting k w) m h)
    | inr e ↦ rw (step, e) h
  ]
  step-Is (analyzed faults now k ending lost) w m inv h =
      elim (Bool-cases (has_task analyzing k w)) [
        | inl e ↦
            rw (step, e)
              (end-Is analyzing k w _ refl e
                (end_analysis-Keeps faults now k ending lost w.db inv.keys) inv h)
        | inr e ↦ rw (step, e) h
      ]
  step-Is (reanalyzed faults now k ending lost) w m inv h =
      elim (Bool-cases (has_task reanalyzing k w)) [
        | inl e ↦
            rw (step, e)
              (end-Is reanalyzing k w _ refl e
                (end_analysis-Keeps faults now k ending lost w.db inv.keys) inv h)
        | inr e ↦ rw (step, e) h
      ]
  step-Is (committed faults now k ending) w m inv h = elim (Bool-cases (has_task committing k w)) [
    | inl e ↦
        rw (step, e)
          (end-Is committing k w _ refl e (end_commit-Keeps faults now k ending w.db inv.keys) inv
            h)
    | inr e ↦ rw (step, e) h
  ]
  step-Is (commits registry subject faults now k seen) w m inv h =
      commit-Is registry subject faults now k seen w h
  step-Is (reanalyzes registry subject faults now k seen) w m inv h =
      reanalyze-Is registry subject faults now k seen w h
  step-Is (cancels registry subject faults now k seen) w m inv h =
      cancel-Is registry subject faults now k seen w h
  step-Is (restarts broken unread now) w m inv h = restart-Is broken unread now w.db h

  -- A job that has succeeded or was cancelled keeps that status for good, under any events in any order
  -- of which no UPDATE that begins a first analysis fails, from a table in which a job has at most
  -- one goroutine that has begun, and is in the status processing while it has one.
  pub settled_job_stays :
      (events : List Event) (w : World)
      → All Marked events
      → Inv w
      → status_of id w.db.jobs ≡ some s
      → status_of id (run events w).db.jobs ≡ some s
  unfolding run
  settled_job_stays [] w m inv h = h
  settled_job_stays (e ∷ events) w m inv h =
      settled_job_stays events (step e w) m.1 (step-Inv e w m.0 inv) (step-Is e w m.0 inv h)
