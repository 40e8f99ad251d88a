-- ===== src/Jobs/Single.antt =====
-- At most one goroutine works on a job.
use mathlib.Core.Path.{subst}
use ocm.Prelude.{
  ℕ, ◌≤◌, ◌≡◌, refl, sym, ap, ◌∙◌, inl, inr, Bool, true, false, some, any, ◌==◌, if◌then◌else◌,
  Bool-cases, Result-cases, update_where, Keys, Keys-update_where, Faults, arith,
}
use ocm.Jobs.{
  Status, processing, succeeded, failed, is_status, Report, Job, Db, in_status, to_processing,
  to_preview, to_finished, save_preview, finish,
}
use ocm.Jobs.Workers.{
  Stage, World, stage_number, remove_task, has_task, launch, Ending, done, with_error, broke_off,
  finish_fail, end_analysis, end_commit,
}
use ocm.Jobs.Rows.{
  running, status_of, status_of-found, status_of-other, status_of-set, running-remove,
}

-- A job has at most one task that has begun, and a job that has one is in the status processing.
pub record Inv (w : World) : Type 0 where
  pub keys : Keys (λ j. j.id) w.db.next_id w.db.jobs
  pub single : (id : ℕ) → running id w.tasks ≤ 1
  pub busy : (id : ℕ) → 1 ≤ running id w.tasks → status_of id w.db.jobs ≡ some processing

-- Ids are in order, and the status of every other job is kept.
pub record Keeps (id : ℕ) (db db' : Db) : Type 0 where
  pub keys : Keys (λ j. j.id) db'.next_id db'.jobs
  pub others : (k : ℕ) → (id == k) ≡ false → status_of k db'.jobs ≡ status_of k db.jobs

Keeps-refl : (id : ℕ) (db : Db) → Keys (λ j. j.id) db.next_id db.jobs → Keeps id db db
Keeps-refl id db k = record { keys = k; others = λ n h. refl }

Keeps-trans : (id : ℕ) (a b c : Db) → Keeps id a b → Keeps id b c → Keeps id a c
Keeps-trans id a b c h k = record { keys = k.keys; others = λ n e. k.others n e ∙ h.others n e }

Keeps-update :
    (id : ℕ) (f : Job → Job) (db : Db)
    → ((j : Job) → (f j).id ≡ j.id)
    → Keys (λ j. j.id) db.next_id db.jobs
    → Keeps id db (record { jobs = update_where (λ j. j.id == id) f db.jobs; next_id = db.next_id })
Keeps-update id f db same k = record {
  keys = Keys-update_where (λ j. j.id) (λ j. j.id == id) f db.next_id db.jobs same k;
  others = λ n e. status_of-other n (λ j. j.id == id) f db.jobs same (λ j h. ground (arith, h, e));
}

pub finish-Keeps :
    (broken : Bool) (now id : ℕ) (status : Status) (r : Report) (db : Db)
    → Keys (λ j. j.id) db.next_id db.jobs
    → Keeps id db (finish broken now id status r db).1
unfolding finish
finish-Keeps true now id status r db k = Keeps-refl id db k
finish-Keeps false now id status r db k =
    Keeps-update id (to_finished now status r) db (λ j. refl) k

save_preview-Keeps :
    (broken : Bool) (id : ℕ) (r : Report) (db : Db)
    → Keys (λ j. j.id) db.next_id db.jobs
    → Keeps id db (save_preview broken id r db).1
unfolding save_preview
save_preview-Keeps true id r db k = Keeps-refl id db k
save_preview-Keeps false id r db k = Keeps-update id (to_preview r) db (λ j. refl) k

pub end_analysis-Keeps :
    (faults : Faults) (now id : ℕ) (ending : Ending) (lost : Report) (db : Db)
    → Keys (λ j. j.id) db.next_id db.jobs
    → Keeps id db (end_analysis faults now id ending lost db)
unfolding end_analysis finish_fail
end_analysis-Keeps faults now id (broke_off r) lost db k =
    finish-Keeps (faults 0) now id failed r db k
end_analysis-Keeps faults now id (with_error r) lost db k =
    finish-Keeps (faults 0) now id failed r db k
end_analysis-Keeps faults now id (done r) lost db k =
    let saved = save_preview-Keeps (faults 0) id r db k in
    elim (Result-cases (save_preview (faults 0) id r db).0) [
      | inl (u, e) ↦ rw (end_analysis, e) saved
      | inr (x, e) ↦
          rw (end_analysis, e)
            (Keeps-trans id db (save_preview (faults 0) id r db).1 _ saved (
              finish-Keeps (faults 1) now id failed lost (save_preview (faults 0) id r db).1
                saved.keys))
    ]

pub end_commit-Keeps :
    (faults : Faults) (now id : ℕ) (ending : Ending) (db : Db)
    → Keys (λ j. j.id) db.next_id db.jobs
    → Keeps id db (end_commit faults now id ending db)
unfolding end_commit finish_fail
end_commit-Keeps faults now id (broke_off r) db k = finish-Keeps (faults 0) now id failed r db k
end_commit-Keeps faults now id (with_error r) db k = finish-Keeps (faults 0) now id failed r db k
end_commit-Keeps faults now id (done r) db k =
    finish-Keeps (faults 0) now id (if r.succeeded_rows == 0 then failed else succeeded) r db k

-- A task ends.
pub end-Inv :
    (stage : Stage) (id : ℕ) (w : World) (db : Db)
    → (stage_number stage == 0) ≡ false
    → has_task stage id w ≡ true
    → Keeps id w.db db
    → Inv w
    → Inv (record { db = db; tasks = remove_task stage id w.tasks })
end-Inv stage id w db begun there keeps inv = record {
  keys = keeps.keys;
  single = λ k. omega (arith, inv.single k, running-remove stage id k w.tasks there begun);
  busy = λ k h.
      let count = running-remove stage id k w.tasks there begun in
      elim (Bool-cases (id == k)) [
        | inl e ↦ absurd (omega (arith, inv.single k, h, rw e at count))
        | inr e ↦ keeps.others k e ∙ inv.busy k (omega (arith, h, count))
      ];
}

-- A task begins, on a job that was in another status.
pub begin-Inv :
    (stage : Stage) (now id : ℕ) (from : Status) (w : World)
    → (stage_number stage == 0) ≡ false
    → is_status processing from ≡ false
    → any (in_status id from) w.db.jobs ≡ true
    → Inv w
    → Inv (
        launch stage id
          (record {
            jobs = update_where (in_status id from) (to_processing now) w.db.jobs;
            next_id = w.db.next_id;
          })
          w.tasks)
begin-Inv stage now id from w begun idle there inv =
    let found = status_of-found w.db.next_id id from w.db.jobs inv.keys there in
    let free : running id w.tasks ≡ 0 = elim (Bool-cases (running id w.tasks == 0)) [
      | inl e ↦ ground (arith, e)
      | inr e ↦
          let is : some processing ≡ some from = sym (inv.busy id (ground (arith, e))) ∙ found in
          let same : processing ≡ from = ground (arith, is) in
          let on : is_status processing from ≡ true = ap (is_status processing) (sym same) in
          absurd (ground (arith, on, idle))
    ] in
    record {
      keys =
          Keys-update_where (λ j. j.id) (in_status id from) (to_processing now) w.db.next_id
            w.db.jobs (λ j. refl) inv.keys;
      single = λ k. elim (Bool-cases (id == k)) [
        | inl e ↦
            let same : k ≡ id = ground (arith, e) in
            let none_yet : running k w.tasks ≡ 0 = ap (λ x. running x w.tasks) same ∙ free in
            rw (begun, e, none_yet) (omega arith)
        | inr e ↦ rw (begun, e) (inv.single k)
      ];
      busy = λ k h. elim (Bool-cases (id == k)) [
        | inl e ↦
            let same : id ≡ k = ground (arith, e) in
            subst
              (λ x.
                status_of x (update_where (in_status id from) (to_processing now) w.db.jobs)
                ≡ some processing)
              same (status_of-set now id from w.db.jobs found)
        | inr e ↦
            status_of-other k (in_status id from) (to_processing now) w.db.jobs (λ j. refl)
              (λ j g. ground (arith, g, e))
            ∙ inv.busy k (rw (begun, e) at h)
      ];
    }
