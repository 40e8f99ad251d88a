-- ===== src/Jobs/Workers.antt =====
-- backend/internal/importer/handler.go: the requests that start work on a job, and the goroutines that
-- do it. A goroutine is a task; the steps of several interleave in any order. The semaphore only
-- delays a step.
use Prim.Native.String.{String}
use ocm.Prelude.{
  ℕ, Bool, not, ◌&&◌, List, [], ◌∷◌, Option, none, some, any, map, ◌==◌, if◌then◌else◌, Result, ok,
  err, Faults,
}
use ocm.Prelude.Text.{Text}
use ocm.Http.{Response, json, error}
use ocm.Authz.{Subject, has}
use ocm.Jobs.{
  Status, pending, processing, preview, succeeded, failed, cancelled, is_status, Report, Job, Db,
  Error, job_not_found, job_state_conflict, database, create_job, get_job, mark_processing,
  save_preview, finish, cancel, recover_stale,
}

pub data Stage : Type 0 where
  waiting analyzing reanalyzing committing : Stage

pub record Task : Type 0 where
  pub stage : Stage
  pub id : ℕ

pub record World : Type 0 where
  pub db : Db
  pub tasks : List Task

pub record Accepted : Type 0 where
  pub id : ℕ
  pub status : Status

-- The permission of a registered type; `none` for a type that is not registered.
abbrev pub Registry : Type 0
Registry = Text → Option String

abbrev check_perm : Option Subject → String → Result (ℕ × String) Unit
check_perm none perm = err (401, "not authenticated")
check_perm (some s) perm = if has s perm then ok tt else err (403, "insufficient permissions")

-- The checks that the three requests begin with. The read may see an earlier table than the UPDATE.
unfoldable pub admit : Registry → Option Subject → Bool → ℕ → Db → Result (ℕ × String) Job
admit registry subject broken id seen = elim (get_job broken id seen) [
  | err e ↦ elim e [
    | job_not_found ↦ err (404, "import job not found")
    | job_state_conflict ↦ err (500, "could not load import job")
    | database ↦ err (500, "could not load import job")
  ]
  | ok job ↦ elim (registry job.kind) [
    | none ↦ err (404, "未知的导入类型")
    | some perm ↦ elim (check_perm subject perm) [ err e ↦ err e | ok done ↦ ok job ]
  ]
]

abbrev refuse : Error → String → String → Response Accepted
refuse job_state_conflict busy broken = error 409 busy
refuse job_not_found busy broken = error 500 broken
refuse database busy broken = error 500 broken

abbrev pub launch : Stage → ℕ → Db → List Task → World
launch stage id db tasks = record { db = db; tasks = record { stage = stage; id = id } ∷ tasks }

-- A request moves the job from the status that it saw to processing, and starts its task.
unfoldable pub begin :
    Bool → ℕ → Job → ℕ → Stage → String → String → World → Response Accepted × World
begin fault now job id stage busy broken w =
    let (result, after) = mark_processing fault now id job.status w.db in
    elim result [
      | err e ↦ (refuse e busy broken, record { db = after; tasks = w.tasks })
      | ok done ↦
          (json 202 (record { id = job.id; status = processing }), launch stage id after w.tasks)
    ]

unfoldable pub commit_job :
    Registry → Option Subject → Faults → ℕ → ℕ → Db → World → Response Accepted × World
commit_job registry subject faults now id seen w =
    elim (admit registry subject (faults 0) id seen) [
      | err (code, message) ↦ (error code message, w)
      | ok job ↦
          if not (is_status job.status preview) && not (is_status job.status failed)
          then (error 409 "该任务不在待确认/可重试状态", w)
          else begin (faults 1) now job id committing "该任务不在待确认状态" "could not start commit" w
    ]

unfoldable pub reanalyze :
    Registry → Option Subject → Faults → ℕ → ℕ → Db → World → Response Accepted × World
reanalyze registry subject faults now id seen w = elim (admit registry subject (faults 0) id seen) [
  | err (code, message) ↦ (error code message, w)
  | ok job ↦
      if not (is_status job.status preview)
      then (error 409 "该任务不在待确认状态", w)
      else begin (faults 1) now job id reanalyzing "该任务正在处理中" "could not start reanalyze" w
]

unfoldable pub cancel_job :
    Registry → Option Subject → Faults → ℕ → ℕ → Db → World → Response Accepted × World
cancel_job registry subject faults now id seen w =
    elim (admit registry subject (faults 0) id seen) [
      | err (code, message) ↦ (error code message, w)
      | ok job ↦
          let (result, after) = cancel (faults 1) now id w.db in
          let next : World = record { db = after; tasks = w.tasks } in
          if not (is_status job.status preview) then (error 409 "该任务不在待确认状态", w) else elim result [
            | err e ↦ (refuse e "该任务不在待确认状态" "could not cancel import job", next)
            | ok done ↦ (json 200 (record { id = job.id; status = cancelled }), next)
          ]
    ]

-- `finishFail`; that it fails itself is logged.
unfoldable pub finish_fail : Bool → ℕ → ℕ → Report → Db → Db
finish_fail broken now id r db = (finish broken now id failed r db).1

-- What became of the call of an importer: a report, a report with an error, or a panic, an unknown
-- type or a job that could not be loaded, for which there is a report of its own.
pub data Ending : Type 0 where
  done : Report → Ending
  with_error : Report → Ending
  broke_off : Report → Ending

-- The rest of `processJob` and of `runReanalyze` after the call; `lost` is the report of a preview that
-- could not be saved. Two faults: the first write, and that of `finishFail`.
unfoldable pub end_analysis : Faults → ℕ → ℕ → Ending → Report → Db → Db
end_analysis faults now id (broke_off r) lost db = finish_fail (faults 0) now id r db
end_analysis faults now id (with_error r) lost db = (finish (faults 0) now id failed r db).1
end_analysis faults now id (done r) lost db =
    let (result, after) = save_preview (faults 0) id r db in
    elim result [ err e ↦ finish_fail (faults 1) now id lost after | ok saved ↦ after ]

unfoldable pub end_commit : Faults → ℕ → ℕ → Ending → Db → Db
end_commit faults now id (broke_off r) db = finish_fail (faults 0) now id r db
end_commit faults now id (with_error r) db = (finish (faults 0) now id failed r db).1
end_commit faults now id (done r) db =
    (finish (faults 0) now id (if r.succeeded_rows == 0 then failed else succeeded) r db).1

-- The beginning of `processJob`.
unfoldable pub start_process : Faults → ℕ → ℕ → Report → World → World
start_process faults now id lost w =
    let (result, after) = mark_processing (faults 0) now id pending w.db in
    elim result [
      | ok moved ↦ launch analyzing id after w.tasks
      | err e ↦ elim e [
        | job_state_conflict ↦ record { db = after; tasks = w.tasks }
        | job_not_found ↦ record { db = finish_fail (faults 1) now id lost after; tasks = w.tasks }
        | database ↦ record { db = finish_fail (faults 1) now id lost after; tasks = w.tasks }
      ]
    ]

abbrev pub stage_number : Stage → ℕ
stage_number waiting = 0
stage_number analyzing = 1
stage_number reanalyzing = 2
stage_number committing = 3

abbrev pub is_task : Stage → ℕ → Task → Bool
is_task stage id t = stage_number t.stage == stage_number stage && t.id == id

abbrev pub remove_task : Stage → ℕ → List Task → List Task
remove_task stage id [] = []
remove_task stage id (t ∷ tasks) =
    let rest = remove_task stage id tasks in if is_task stage id t then tasks else t ∷ rest

abbrev pub has_task : Stage → ℕ → World → Bool
has_task stage id w = any (is_task stage id) w.tasks

abbrev pub without : Stage → ℕ → World → World
without stage id w = record { db = w.db; tasks = remove_task stage id w.tasks }

-- What happens next: a request, or the next write of a task that is there. A restart loses the tasks.
pub data Event : Type 0 where
  uploads : Bool → Bool → Text → Text → Text → ℕ → Event
  starts : Faults → ℕ → ℕ → Report → Event
  analyzed : Faults → ℕ → ℕ → Ending → Report → Event
  reanalyzed : Faults → ℕ → ℕ → Ending → Report → Event
  committed : Faults → ℕ → ℕ → Ending → Event
  commits : Registry → Option Subject → Faults → ℕ → ℕ → Db → Event
  reanalyzes : Registry → Option Subject → Faults → ℕ → ℕ → Db → Event
  cancels : Registry → Option Subject → Faults → ℕ → ℕ → Db → Event
  restarts : Bool → Bool → ℕ → Event

abbrev pub uploaded : Result Error Job → Db → List Task → World
uploaded (err e) db tasks = record { db = db; tasks = tasks }
uploaded (ok job) db tasks = launch waiting job.id db tasks

abbrev pub requeued : Result Error (List ℕ) → List Task
requeued (err e) = []
requeued (ok ids) = map (λ id. record { stage = waiting; id = id }) ids

unfoldable pub step : Event → World → World
step (uploads broken unread kind filename payload user) w =
    let (result, after) = create_job broken unread kind filename payload user w.db in
    uploaded result after w.tasks
step (starts faults now id lost) w =
    if has_task waiting id w then start_process faults now id lost (without waiting id w) else w
step (analyzed faults now id ending lost) w =
    if has_task analyzing id w
    then record {
      db = end_analysis faults now id ending lost w.db;
      tasks = remove_task analyzing id w.tasks;
    }
    else w
step (reanalyzed faults now id ending lost) w =
    if has_task reanalyzing id w
    then record {
      db = end_analysis faults now id ending lost w.db;
      tasks = remove_task reanalyzing id w.tasks;
    }
    else w
step (committed faults now id ending) w =
    if has_task committing id w
    then record {
      db = end_commit faults now id ending w.db;
      tasks = remove_task committing id w.tasks;
    }
    else w
step (commits registry subject faults now id seen) w =
    (commit_job registry subject faults now id seen w).1
step (reanalyzes registry subject faults now id seen) w =
    (reanalyze registry subject faults now id seen w).1
step (cancels registry subject faults now id seen) w =
    (cancel_job registry subject faults now id seen w).1
step (restarts broken unread now) w =
    let (result, after) = recover_stale broken unread now w.db in
    record { db = after; tasks = requeued result }

unfoldable pub run : List Event → World → World
run [] w = w
run (e ∷ es) w = run es (step e w)
