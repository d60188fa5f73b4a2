-- ===== src/TaskStore/Moves/Leased.antt =====
-- Renew, Bind, Complete, Retry and Fail of work_store.go as moves of the leased task.
use ani_model_service.Prelude.{
  ℕ, String, ◌≡◌, refl, Bool, true, ◌&&◌, ℤ, microseconds, arith, ltb, not, Bool-cases, inl, inr,
}
use ani_model_service.Database.Table.{count}
use ani_model_service.Database.Rows.{TaskRow}
use ani_model_service.Database.Exec.{Db, ◌>>=◌, Libs, parse_id}
use ani_model_service.Database.Keeps.{lift_cases}
use ani_model_service.Database.Tasks
use ani_model_service.Database.Tasks.{is_leased, is_due, is_task}
use ani_model_service.TaskStore
use ani_model_service.TaskStore.Moves.{
  Move, renews, binds, completes, retries, fails, Change, keep, write,
}

-- A leased update that must affect one row.
module _ (db : Db) (tenant id epoch : ℕ) (owner : String) where
  leased-Change :
      (f : TaskRow → TaskRow)
      → ((r : TaskRow) → is_leased owner epoch db.clock r ≡ true → Move db.clock r (f r))
      → Change db
          ((Tasks.execrows (λ r. is_task tenant id r && is_leased owner epoch db.clock r) f
              >>= TaskStore.one_row)
            db).1
  leased-Change f k =
      write (λ r. is_task tenant id r && is_leased owner epoch db.clock r) f (ground arith)
        λ r h. k r (ground arith)

module _ (libs : Libs) (db : Db) (tenant task owner : String) (epoch : ℕ) where
  pub complete-Change : Change db (TaskStore.complete libs tenant task owner epoch db).1
  unfolding TaskStore.complete Tasks.complete_import_task
  complete-Change =
      lift_cases (Change db) (TaskStore.parse_ids libs tenant task) _ db (keep refl)
        λ ids. leased-Change db ids.0 ids.1 epoch owner _ (λ r h. completes owner epoch h refl)

  pub retry-Change :
      (after : ℤ) (message : String)
      → Change db (TaskStore.retry libs tenant task owner epoch after message db).1
  unfolding TaskStore.retry Tasks.retry_import_task
  retry-Change after message =
      lift_cases (Change db) (TaskStore.parse_ids libs tenant task) _ db (keep refl) λ ids.
        leased-Change db ids.0 ids.1 epoch owner _
          (λ r h. retries owner epoch (microseconds after) message h refl)

  pub fail-Change :
      (message : String) → Change db (TaskStore.fail_task libs tenant task owner epoch message db).1
  unfolding TaskStore.fail_task Tasks.fail_import_task
  fail-Change message =
      lift_cases (Change db) (TaskStore.parse_ids libs tenant task) _ db (keep refl)
        λ ids. leased-Change db ids.0 ids.1 epoch owner _ (λ r h. fails owner epoch message h refl)

  pub renew-Change :
      (lease : ℤ) → Change db (TaskStore.renew libs tenant task owner epoch lease db).1
  unfolding TaskStore.renew Tasks.renew_import_task_lease
  renew-Change lease =
      lift_cases (Change db) (TaskStore.parse_ids libs tenant task) _ db (keep refl) λ ids.
        leased-Change db ids.0 ids.1 epoch owner _
          (λ r h. renews owner epoch (microseconds lease) h refl)

module _ (db : Db) (tenant id epoch model version : ℕ) (owner : String) where
  bind_row-Change :
      Change db
        ((Tasks.bind_import_task tenant id owner epoch model version >>= TaskStore.one_row) db).1
  unfolding Tasks.bind_import_task
  bind_row-Change = elim (Bool-cases refused) [
    | inl e ↦ rw e (keep refl)
    | inr e ↦ rw e (
        write (Tasks.is_bindable tenant id owner epoch db.clock)
          (Tasks.bound db.clock model version) (ground arith)
          λ r h. binds owner epoch model version (ground arith) (ground arith) refl)
  ]
    where
      refused : Bool
      refused =
          ltb 0 (count (Tasks.is_bindable tenant id owner epoch db.clock) db.tasks)
          && not (Tasks.has_model tenant model db && Tasks.has_version tenant version db)

module _ (libs : Libs) (db : Db) (tenant task owner : String) where
  pub bind-Change :
      (epoch : ℕ) (model version : String)
      → Change db (TaskStore.bind libs tenant task owner epoch model version db).1
  unfolding TaskStore.bind
  bind-Change epoch model version =
      lift_cases (Change db) (TaskStore.parse_ids libs tenant task) _ db (keep refl) λ ids.
        lift_cases (Change db) (parse_id libs "model_id" model) _ db (keep refl) λ m.
          lift_cases (Change db) (parse_id libs "model_version_id" version) _ db (keep refl)
            λ v. bind_row-Change db ids.0 ids.1 epoch m v owner
