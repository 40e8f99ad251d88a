-- ===== src/Jobs.antt =====
-- Import jobs: the statements of backend/internal/importer/store.go that write the table of jobs.
pub mod Workers
mod Rows
mod Single
mod Once
mod Progress
mod Settled
mod Examples
use mathlib.Core.List.{reverse}
use ocm.Prelude.{
  ℕ, suc, ◌+◌, Bool, true, false, ◌&&◌, List, [], ◌∷◌, Option, none, some, any, find, filter, map,
  ◌==◌, if◌then◌else◌, Result, ok, err, update_where,
}
use ocm.Prelude.Text.{Text, codes}

pub data Status : Type 0 where
  pending processing preview succeeded failed cancelled : Status

abbrev pub number : Status → ℕ
number pending = 0
number processing = 1
number preview = 2
number succeeded = 3
number failed = 4
number cancelled = 5

abbrev pub is_status : Status → Status → Bool
is_status s t = number s == number t

pub record RowError : Type 0 where
  pub row : ℕ
  pub message : Text

-- What an importer made of a payload; the rows are their JSON.
pub record Report : Type 0 where
  pub total_rows : ℕ
  pub succeeded_rows : ℕ
  pub failed_rows : ℕ
  pub errors : List RowError
  pub rows : List Text

pub record Job : Type 0 where
  pub id : ℕ
  pub kind : Text
  pub status : Status
  pub filename : Text
  pub payload : Text
  pub total_rows : ℕ
  pub succeeded_rows : ℕ
  pub failed_rows : ℕ
  pub error_report : List RowError
  pub preview_rows : Option (List Text)
  pub user_id : ℕ
  pub started_at : Option ℕ
  pub finished_at : Option ℕ

pub record Db : Type 0 where
  pub jobs : List Job
  pub next_id : ℕ

pub data Error : Type 0 where
  job_not_found job_state_conflict database : Error

abbrev pub new_job : ℕ → Text → Text → Text → ℕ → Job
new_job id kind filename payload user = record {
  id = id;
  kind = kind;
  status = pending;
  filename = filename;
  payload = payload;
  total_rows = 0;
  succeeded_rows = 0;
  failed_rows = 0;
  error_report = [];
  preview_rows = none;
  user_id = user;
  started_at = none;
  finished_at = none;
}

-- The INSERT, and the query that reads the new job back; either may fail.
unfoldable pub create_job : Bool → Bool → Text → Text → Text → ℕ → Db → Result Error Job × Db
create_job broken unread kind filename payload user db =
    let job = new_job db.next_id kind filename payload user in
    let after : Db = record { jobs = job ∷ db.jobs; next_id = suc db.next_id } in
    if broken then (err database, db) else if unread then (err database, after) else (ok job, after)

unfoldable pub get_job : Bool → ℕ → Db → Result Error Job
get_job broken id db =
    if broken
    then err database
    else elim (find (λ j. j.id == id) db.jobs) [ none ↦ err job_not_found | some j ↦ ok j ]

-- The WHERE clause on the id and the status.
abbrev pub in_status : ℕ → Status → Job → Bool
in_status id from j = j.id == id && is_status j.status from

abbrev pub to_processing : ℕ → Job → Job
to_processing now j = record j { status = processing; started_at = some now }

abbrev pub to_cancelled : ℕ → Job → Job
to_cancelled now j = record j { status = cancelled; preview_rows = none; finished_at = some now }

-- An UPDATE guarded by the status: no row affected is a conflict.
abbrev guarded : Bool → (Job → Bool) → (Job → Job) → Db → Result Error Unit × Db
guarded broken p f db =
    if broken
    then (err database, db)
    else if any p db.jobs
    then (ok tt, record { jobs = update_where p f db.jobs; next_id = db.next_id })
    else (err job_state_conflict, db)

unfoldable pub mark_processing : Bool → ℕ → ℕ → Status → Db → Result Error Unit × Db
mark_processing broken now id from db = guarded broken (in_status id from) (to_processing now) db

unfoldable pub cancel : Bool → ℕ → ℕ → Db → Result Error Unit × Db
cancel broken now id db = guarded broken (in_status id preview) (to_cancelled now) db

abbrev pub to_preview : Report → Job → Job
to_preview r j = record j {
  status = preview;
  total_rows = r.total_rows;
  succeeded_rows = r.succeeded_rows;
  failed_rows = r.failed_rows;
  error_report = r.errors;
  preview_rows = some r.rows;
}

abbrev pub to_finished : ℕ → Status → Report → Job → Job
to_finished now status r j = record j {
  status = status;
  total_rows = r.total_rows;
  succeeded_rows = r.succeeded_rows;
  failed_rows = r.failed_rows;
  error_report = r.errors;
  preview_rows = none;
  finished_at = some now;
}

-- An UPDATE by the id alone.
abbrev by_id : Bool → ℕ → (Job → Job) → Db → Result Error Unit × Db
by_id broken id f db =
    if broken
    then (err database, db)
    else (ok tt, record { jobs = update_where (λ j. j.id == id) f db.jobs; next_id = db.next_id })

unfoldable pub save_preview : Bool → ℕ → Report → Db → Result Error Unit × Db
save_preview broken id r db = by_id broken id (to_preview r) db

unfoldable pub finish : Bool → ℕ → ℕ → Status → Report → Db → Result Error Unit × Db
finish broken now id status r db = by_id broken id (to_finished now status r) db

abbrev pub interrupted : ℕ → Job → Job
interrupted now j = record j {
  status = failed;
  error_report = record { row = 0; message = codes "interrupted by server restart" } ∷ [];
  finished_at = some now;
}

-- The UPDATE of the jobs that a stopped process left behind; the pending ones are read in the order of
-- their ids, which is the order of the rows from the oldest on. Two faults: the UPDATE, the query.
unfoldable pub recover_stale : Bool → Bool → ℕ → Db → Result Error (List ℕ) × Db
recover_stale broken unread now db =
    let jobs = update_where (λ j. is_status j.status processing) (interrupted now) db.jobs in
    let after : Db = record { jobs = jobs; next_id = db.next_id } in
    if broken
    then (err database, db)
    else if unread
    then (err database, after)
    else (ok (reverse (map (λ j. j.id) (filter (λ j. is_status j.status pending) jobs))), after)
