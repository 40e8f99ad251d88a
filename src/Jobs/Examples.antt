-- ===== src/Jobs/Examples.antt =====
-- The theorem on the work on a job, for a job that is uploaded, analyzed and committed twice at once.
use ocm.Prelude.{◌≡◌, refl, false, List, [], ◌∷◌, some, no_faults, arith}
use ocm.Prelude.Text.{codes}
use ocm.Authz.{Subject, has}
use ocm.Jobs.{
  cancelled, Report, Db, new_job, to_preview, create_job, get_job, mark_processing, save_preview,
}
use ocm.Jobs.Workers.{
  cancels, World, Registry, Event, uploads, starts, analyzed, commits, done, admit, begin,
  commit_job, start_process, end_analysis, step, run, committing,
}
use ocm.Jobs.Single.{Inv}
use ocm.Jobs.Rows.{status_of}
use ocm.Jobs.Progress.{one_worker}
use ocm.Jobs.Settled.{settled_job_stays}

abbrev nothing : World
nothing = record { db = record { jobs = []; next_id = 1 }; tasks = [] }

abbrev report : Report
report = record { total_rows = 1; succeeded_rows = 1; failed_rows = 0; errors = []; rows = [] }

abbrev admin : Subject
admin = record { id = 1; username = []; permissions = "*" ∷ []; roles = []; groups = [] }

abbrev registry : Registry
registry kind = some "import:catalog"

-- What both requests read: the job awaiting review.
abbrev seen : Db
seen = record { jobs = to_preview report (new_job 1 (codes "catalog") [] [] 7) ∷ []; next_id = 2 }

abbrev two_commits : List Event
two_commits =
    uploads false false (codes "catalog") [] [] 7
    ∷ starts no_faults 5 1 report
    ∷ analyzed no_faults 6 1 (done report) report
    ∷ commits registry (some admin) no_faults 7 1 seen
    ∷ commits registry (some admin) no_faults 8 1 seen
    ∷ []

-- The second request finds the job taken.
two_commits-tasks : (run two_commits nothing).tasks ≡ record { stage = committing; id = 1 } ∷ []
unfolding run step create_job start_process mark_processing end_analysis save_preview commit_job
    admit get_job begin has
two_commits-tasks = refl

one_worker_example : Inv (run two_commits nothing)
one_worker_example =
    one_worker two_commits nothing (tt, (refl, (tt, (tt, (tt, tt)))))
      (record { keys = tt; single = λ id. omega arith; busy = λ id h. absurd (omega (arith, h)) })

-- A table with a job that was cancelled.
abbrev after_cancel : World
after_cancel = record {
  db = record {
    jobs = record (new_job 1 (codes "catalog") [] [] 7) { status = cancelled } ∷ [];
    next_id = 2;
  };
  tasks = [];
}

abbrev late_commit : List Event
late_commit =
    commits registry (some admin) no_faults 7 1 seen
    ∷ cancels registry (some admin) no_faults 8 1 seen
    ∷ []

settled_job_stays_example : status_of 1 (run late_commit after_cancel).db.jobs ≡ some cancelled
settled_job_stays_example =
    settled_job_stays 1 cancelled refl late_commit after_cancel (tt, (tt, tt))
      (record {
        keys = (omega arith, tt);
        single = λ id. omega arith;
        busy = λ id h. absurd (omega (arith, h));
      })
      refl
