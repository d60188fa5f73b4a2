-- ===== src/ImportWorker/Outcomes.antt =====
-- What becomes of a task once it has been executed (perform and retryOrFail of
-- internal/worker/import_worker.go).
use mathlib.Core.Path.{subst}
use ani_model_service.Prelude.{
  ℕ, String, ◌≡◌, refl, sym, ap, ◌∙◌, true, not, ◌&&◌, str_eq, ok, err, ℤ, some, Bool-cases, inl,
  inr, microseconds, if◌then◌else◌,
}
use ani_model_service.Errors.{Res, Error}
use ani_model_service.Database.Table.{find, find-update, find-holds}
use ani_model_service.Database.Rows.{TaskRow}
use ani_model_service.Database.Exec.{Db, continue}
use ani_model_service.Database.Tasks
use ani_model_service.Database.Tasks.{is_task, is_leased}
use ani_model_service.Work.{Task}
use ani_model_service.TaskStore
use ani_model_service.TaskStore.Invariant.{IsKeyed}
use ani_model_service.TaskStore.Ownership.{leased_result, retry_lem, fail_lem, complete_lem}
use ani_model_service.ImportWorker
use ani_model_service.ImportWorker.{Worker, is_exhausted}
use ani_model_service.ImportWorker.Frames.{SameTasks, mark_error-SameTasks, mark_ready-SameTasks}

-- The row after a failed attempt.
abbrev pub after_failure : Worker → Task → Error → ℤ → ℕ → TaskRow → TaskRow
after_failure w task e after now r =
    if is_exhausted w.max_attempts task.attempt_count
    then Tasks.failed now (w.text_of e) r
    else Tasks.retried now (microseconds after) (w.text_of e) r

written :
    (owner : String) (epoch t i : ℕ) (f : TaskRow → TaskRow) (r : TaskRow) (db : Db)
    → ((r : TaskRow) → is_task t i (f r) ≡ is_task t i r)
    → is_leased owner epoch db.clock r ≡ true
    → find (is_task t i) db.tasks ≡ some r
    → is_task t i r ≡ true
    → find (is_task t i) (leased_result f t i owner epoch r db).1.tasks ≡ some (f r)
written owner epoch t i f r db same leased found key =
    rw (leased, find-update (is_task t i) (is_task t i) f (λ r h. same r) db.tasks, found, key) refl

module _ (w : Worker) (task : Task) where
  sync_error-SameTasks :
      (message : String) (db : Db) → SameTasks db (ImportWorker.sync_error w task message db).1
  sync_error-SameTasks message db =
      elim (Bool-cases (not (str_eq task.version_id "") && w.finalizes)) [
        | inl e ↦ rw e (
            mark_error-SameTasks w.libs db task.tenant_id task.id task.version_id w.owner
              task.lease_epoch message)
        | inr e ↦ rw e (refl, refl)
      ]

  sync_error-ok :
      (message : String) (db : Db) → (ImportWorker.sync_error w task message db).0 ≡ ok tt
  sync_error-ok message db = elim (Bool-cases (not (str_eq task.version_id "") && w.finalizes)) [
    | inl e ↦ rw e refl
    | inr e ↦ rw e refl
  ]

module _ (w : Worker) (task : Task) where
  finalised-SameTasks : (db : Db) → SameTasks db (ImportWorker.mark_ready w task db).1
  finalised-SameTasks db = elim (Bool-cases (w.finalizes && not (str_eq task.version_id ""))) [
    | inl e ↦ rw e (mark_ready-SameTasks w.libs db task.tenant_id task.version_id)
    | inr e ↦ rw e (refl, refl)
  ]

module _ (w : Worker) (task : Task) (t i : ℕ) (r : TaskRow)
    (parsed : TaskStore.parse_ids w.libs task.tenant_id task.id ≡ ok (t, i)) where
  -- The row, leased by the caller, as the calls of the caller find it.
  record Holds (d : Db) (now : ℕ) : Type 0 where
    keyed : IsKeyed d.tasks
    found : find (is_task t i) d.tasks ≡ some r
    leased : is_leased w.owner task.lease_epoch d.clock r ≡ true
    time : d.clock ≡ now

  key : (d : Db) → find (is_task t i) d.tasks ≡ some r → is_task t i r ≡ true
  key d f = find-holds (is_task t i) d.tasks r f

  failed_row :
      (message : String) (d : Db) (now : ℕ)
      → Holds d now
      → find
          (is_task t i)
          (TaskStore.fail_task w.libs task.tenant_id task.id w.owner task.lease_epoch message
            d).1.tasks
        ≡ some (Tasks.failed now message r)
  failed_row message d now h =
      ap (λ (o : Res (Unit {0}) × Db). find (is_task t i) o.1.tasks)
        (fail_lem w.libs d h.keyed task.tenant_id task.id w.owner task.lease_epoch t i r parsed
          h.found message)
      ∙ (written w.owner task.lease_epoch t i (Tasks.failed d.clock message) r d (λ s. refl)
            h.leased h.found (key d h.found)
          ∙ ap (λ n. some (Tasks.failed n message r)) h.time)

  completed_row :
      (d : Db) (now : ℕ)
      → Holds d now
      → find
          (is_task t i)
          (TaskStore.complete w.libs task.tenant_id task.id w.owner task.lease_epoch d).1.tasks
        ≡ some (Tasks.completed now r)
  completed_row d now h =
      ap (λ (o : Res (Unit {0}) × Db). find (is_task t i) o.1.tasks)
        (complete_lem w.libs d h.keyed task.tenant_id task.id w.owner task.lease_epoch t i r parsed
          h.found)
      ∙ (written w.owner task.lease_epoch t i (Tasks.completed d.clock) r d (λ s. refl) h.leased
            h.found (key d h.found)
          ∙ ap (λ n. some (Tasks.completed n r)) h.time)

  retried_row :
      (after : ℤ) (message : String) (d : Db) (now : ℕ)
      → Holds d now
      → find
          (is_task t i)
          (TaskStore.retry w.libs task.tenant_id task.id w.owner task.lease_epoch after message
            d).1.tasks
        ≡ some (Tasks.retried now (microseconds after) message r)
  retried_row after message d now h =
      ap (λ (o : Res (Unit {0}) × Db). find (is_task t i) o.1.tasks)
        (retry_lem w.libs d h.keyed task.tenant_id task.id w.owner task.lease_epoch t i r parsed
          h.found after message)
      ∙ (written w.owner task.lease_epoch t i (Tasks.retried d.clock (microseconds after) message) r
            d (λ s. refl) h.leased h.found (key d h.found)
          ∙ ap (λ n. some (Tasks.retried n (microseconds after) message r)) h.time)

  after_sync :
      (message : String) (now : ℕ) (o : Res (Unit {0}) × Db)
      → o.0 ≡ ok tt
      → Holds o.1 now
      → find
          (is_task t i)
          (continue o.0
            (λ u.
              TaskStore.fail_task w.libs task.tenant_id task.id w.owner task.lease_epoch message)
            o.1).1.tasks
        ≡ some (Tasks.failed now message r)
  after_sync message now (ok tt, d) e h = failed_row message d now h
  after_sync message now (err x, d) e h = absurd (cc)

  module _ (db : Db) (keyed : IsKeyed db.tasks) (found : find (is_task t i) db.tasks ≡ some r)
      (leased : is_leased w.owner task.lease_epoch db.clock r ≡ true) where
    synced : (message : String) → Holds (ImportWorker.sync_error w task message db).1 db.clock
    synced message =
        let s = sync_error-SameTasks w task message db in
        record {
          keyed = subst IsKeyed (sym s.0) keyed;
          found = ap (find (is_task t i)) s.0 ∙ found;
          leased = ap (λ n. is_leased w.owner task.lease_epoch n r) s.1 ∙ leased;
          time = s.1;
        }

    finalised : Holds (ImportWorker.mark_ready w task db).1 db.clock
    finalised =
        let s = finalised-SameTasks w task db in
        record {
          keyed = subst IsKeyed (sym s.0) keyed;
          found = ap (find (is_task t i)) s.0 ∙ found;
          leased = ap (λ n. is_leased w.owner task.lease_epoch n r) s.1 ∙ leased;
          time = s.1;
        }

    finished_row :
        (ImportWorker.mark_ready w task db).0 ≡ ok tt
        → find (is_task t i) (ImportWorker.finish w task (ok tt) db).1.tasks
          ≡ some (Tasks.completed db.clock r)
    finished_row done = go (ImportWorker.mark_ready w task db) done finalised
      where
        go :
            (o : Res (Unit {0}) × Db)
            → o.0 ≡ ok tt
            → Holds o.1 db.clock
            → find (is_task t i) (ImportWorker.complete w task o.0 o.1).1.tasks
              ≡ some (Tasks.completed db.clock r)
        go (ok tt, d) e h = completed_row d db.clock h
        go (err x, d) e h = absurd (cc)

    retry_or_fail_row :
        (e : Error) (after : ℤ)
        → find (is_task t i) (ImportWorker.retry_or_fail w task e after db).1.tasks
          ≡ some (after_failure w task e after db.clock r)
    unfolding ImportWorker.retry_or_fail
    retry_or_fail_row e after = elim (Bool-cases (is_exhausted w.max_attempts task.attempt_count)) [
      | inl x ↦ rw x (
          after_sync (w.text_of e) db.clock (ImportWorker.sync_error w task (w.text_of e) db)
            (sync_error-ok w task (w.text_of e) db) (synced (w.text_of e)))
      | inr x ↦ rw x (
          retried_row after (w.text_of e) db db.clock
            (record { keyed = keyed; found = found; leased = leased; time = refl }))
    ]

-- An attempt whose Execute fails, or whose renewal fails, ends the lease that the worker still
-- holds then: the task is pending again for one second later, or, after the last of the attempts
-- that the worker allows, failed for good; either way it carries the text of the error.
pub perform_failed :
    (w : Worker) (task : Task) (t i : ℕ) (r : TaskRow) (e : Error) (db : Db)
    → let x = w.executor task db in
      TaskStore.parse_ids w.libs task.tenant_id task.id ≡ ok (t, i)
      → ImportWorker.execution_error w x.result x.renew_error ≡ err e
      → IsKeyed x.after.tasks
      → find (is_task t i) x.after.tasks ≡ some r
      → is_leased w.owner task.lease_epoch x.after.clock r ≡ true
      → find (is_task t i) (ImportWorker.perform w task db).1.tasks
        ≡ some (after_failure w task e ImportWorker.second x.after.clock r)
unfolding ImportWorker.perform
perform_failed w task t i r e db parsed failed keyed found leased = rw failed (
    retry_or_fail_row w task t i r parsed (w.executor task db).after keyed found leased e
      ImportWorker.second)

-- An attempt whose Execute and renewals succeed and whose version could be marked ready completes
-- the task under the lease that the worker still holds then.
perform_done :
    (w : Worker) (task : Task) (t i : ℕ) (r : TaskRow) (db : Db)
    → let x = w.executor task db in
      TaskStore.parse_ids w.libs task.tenant_id task.id ≡ ok (t, i)
      → ImportWorker.execution_error w x.result x.renew_error ≡ ok tt
      → (ImportWorker.mark_ready w task x.after).0 ≡ ok tt
      → IsKeyed x.after.tasks
      → find (is_task t i) x.after.tasks ≡ some r
      → is_leased w.owner task.lease_epoch x.after.clock r ≡ true
      → find (is_task t i) (ImportWorker.perform w task db).1.tasks
        ≡ some (Tasks.completed x.after.clock r)
unfolding ImportWorker.perform
perform_done w task t i r db parsed done ready keyed found leased =
    rw done (finished_row w task t i r parsed (w.executor task db).after keyed found leased ready)
