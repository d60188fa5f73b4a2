-- ===== src/TaskStore/Refinement.antt =====
-- The statements of work_store.go against the domain's task of internal/biz/work/work.go.
use ani_model_service.Prelude.{
  ℕ, String, ◌≡◌, ok, err, ℤ, arith, if◌then◌else◌, true, false, is_positive, interval_of_micros,
  str_eq,
}
use ani_model_service.Errors.{lease_fenced}
use ani_model_service.Database.Rows.{TaskRow}
use ani_model_service.Database.Exec.{Libs}
use ani_model_service.Database.Tasks
use ani_model_service.Database.Tasks.{is_due, is_leased}
use ani_model_service.Work.{Task}
use ani_model_service.Work
use ani_model_service.TaskStore
use ani_model_service.TaskStore.Claiming.{is_full}

module _ (libs : Libs) (now : ℕ) (owner : String) (r : TaskRow) where
  -- A row that the claim statement takes, for a named owner and a positive lease, is a task that
  -- the domain lets the owner claim, with the same result but for the progress.
  pub claimed-claim :
      (micros : ℤ)
      → str_eq owner "" ≡ false
      → is_positive (interval_of_micros micros) ≡ true
      → is_due now r ≡ true
      → is_full r ≡ false
      → Work.claim (TaskStore.task_of_row libs r) owner now (interval_of_micros micros)
        ≡ ok (record (TaskStore.task_of_row libs (Tasks.claimed now owner micros r)) {
          progress_pct = r.progress_pct;
        })
  unfolding Work.claim TaskStore.task_of_row
  claimed-claim micros named pos due room = ground arith

  -- The domain completes the task of a row exactly when the completion statement affects the row,
  -- and with the status, owner and lease that the statement writes.
  pub completed-complete :
      (epoch : ℕ)
      → Work.complete (TaskStore.task_of_row libs r) owner epoch now ≡ (
          if is_leased owner epoch now r
          then ok (record (TaskStore.task_of_row libs (Tasks.completed now r)) {
            progress_pct = r.progress_pct;
            error_message = r.error_message;
            completed_at = TaskStore.time_or_zero r.completed_at;
          })
          else err lease_fenced)
  unfolding Work.complete TaskStore.task_of_row
  completed-complete epoch = ground arith

  pub failed-fail :
      (epoch : ℕ) (message : String)
      → Work.fail (TaskStore.task_of_row libs r) owner epoch now ≡ (
          if is_leased owner epoch now r
          then ok (record (TaskStore.task_of_row libs (Tasks.failed now message r)) {
            error_message = r.error_message;
          })
          else err lease_fenced)
  unfolding Work.fail TaskStore.task_of_row
  failed-fail epoch message = ground arith
