-- ===== src/TaskStore/Ownership.antt =====
-- The calls of a lease holder (Renew, Complete, Retry and Fail of work_store.go) decided by the
-- one row of the task.
use ani_model_service.Prelude.{
  ℕ, String, ◌≡◌, refl, ◌∙◌, some, ◌&&◌, ok, err, ℤ, microseconds, if◌then◌else◌, Bool-cases, inl,
  inr,
}
use ani_model_service.Errors.{Res, lease_lost}
use ani_model_service.Database.Table.{find, update, count}
use ani_model_service.Database.Table.Keyed.{keyed_statement}
use ani_model_service.Database.Rows.{TaskRow}
use ani_model_service.Database.Exec.{Db, Exec, Libs, ◌>>=◌, lift, Libs}
use ani_model_service.Database.Tasks
use ani_model_service.Database.Tasks.{is_task, is_leased}
use ani_model_service.TaskStore
use ani_model_service.TaskStore.Invariant.{IsKeyed}

-- What a leased call does: with the live lease of the row it writes the row, and without it it
-- returns ErrLeaseLost and writes nothing.
abbrev pub leased_result :
    (TaskRow → TaskRow) → ℕ → ℕ → String → ℕ → TaskRow → Db → Res (Unit {0}) × Db
leased_result f tenant id owner epoch r db =
    if is_leased owner epoch db.clock r
    then (ok tt, record db { tasks = update (is_task tenant id) f db.tasks })
    else (err lease_lost, db)

lift_ok :
    {A B : Type 0} (m : Res A) (a : A) (k : A → Exec B) (db : Db)
    → m ≡ ok a
    → (lift m >>= k) db ≡ k a db
lift_ok m a k db h = rw h

module _ (db : Db) (keyed : IsKeyed db.tasks) (tenant id : ℕ) (r : TaskRow)
    (found : find (is_task tenant id) db.tasks ≡ some r) (owner : String) (epoch : ℕ) where
  leased_call :
      (f : TaskRow → TaskRow)
      → (Tasks.execrows (λ t. is_task tenant id t && is_leased owner epoch db.clock t) f
            >>= TaskStore.one_row)
          db
        ≡ leased_result f tenant id owner epoch r db
  leased_call f = elim (Bool-cases (is_leased owner epoch db.clock r)) [
    | inl e ↦ rw (facts.0, facts.1, e) refl
    | inr e ↦ rw (facts.0, facts.1, e) refl
  ]
    where
      facts :
          (count (λ t. is_task tenant id t && is_leased owner epoch db.clock t) db.tasks
            ≡ (if is_leased owner epoch db.clock r then 1 else 0))
          × (update (λ t. is_task tenant id t && is_leased owner epoch db.clock t) f db.tasks ≡ (
              if is_leased owner epoch db.clock r
              then update (is_task tenant id) f db.tasks
              else db.tasks))
      facts =
          keyed_statement (is_task tenant id) (is_leased owner epoch db.clock) f db.tasks r
            (keyed tenant id) found

module _ (libs : Libs) (db : Db) (keyed : IsKeyed db.tasks) (tenant task owner : String)
    (epoch t i : ℕ) (r : TaskRow) (parsed : TaskStore.parse_ids libs tenant task ≡ ok (t, i))
    (found : find (is_task t i) db.tasks ≡ some r) where
  -- Complete writes the row as completed exactly when the caller holds its live lease.
  pub complete_lem :
      TaskStore.complete libs tenant task owner epoch db
      ≡ leased_result (Tasks.completed db.clock) t i owner epoch r db
  unfolding TaskStore.complete Tasks.complete_import_task
  complete_lem =
      lift_ok (TaskStore.parse_ids libs tenant task) (t, i) _ db parsed
      ∙ leased_call db keyed t i r found owner epoch (Tasks.completed db.clock)

  pub retry_lem :
      (after : ℤ) (message : String)
      → TaskStore.retry libs tenant task owner epoch after message db
        ≡ leased_result (Tasks.retried db.clock (microseconds after) message) t i owner epoch r db
  unfolding TaskStore.retry Tasks.retry_import_task
  retry_lem after message =
      lift_ok (TaskStore.parse_ids libs tenant task) (t, i) _ db parsed
      ∙ leased_call db keyed t i r found owner epoch
          (Tasks.retried db.clock (microseconds after) message)

  pub fail_lem :
      (message : String)
      → TaskStore.fail_task libs tenant task owner epoch message db
        ≡ leased_result (Tasks.failed db.clock message) t i owner epoch r db
  unfolding TaskStore.fail_task Tasks.fail_import_task
  fail_lem message =
      lift_ok (TaskStore.parse_ids libs tenant task) (t, i) _ db parsed
      ∙ leased_call db keyed t i r found owner epoch (Tasks.failed db.clock message)

  pub renew_lem :
      (lease : ℤ)
      → TaskStore.renew libs tenant task owner epoch lease db
        ≡ leased_result (Tasks.renewed db.clock (microseconds lease)) t i owner epoch r db
  unfolding TaskStore.renew Tasks.renew_import_task_lease
  renew_lem lease =
      lift_ok (TaskStore.parse_ids libs tenant task) (t, i) _ db parsed
      ∙ leased_call db keyed t i r found owner epoch (Tasks.renewed db.clock (microseconds lease))

  -- With one row of the task, each of Complete, Fail, Retry and Renew writes the row when the
  -- owner and epoch of the caller are those of its live lease, and otherwise returns ErrLeaseLost
  -- and changes nothing.
  pub owner_calls :
      (lease after : ℤ) (message : String)
      → (TaskStore.complete libs tenant task owner epoch db
          ≡ leased_result (Tasks.completed db.clock) t i owner epoch r db)
        × (TaskStore.fail_task libs tenant task owner epoch message db
            ≡ leased_result (Tasks.failed db.clock message) t i owner epoch r db)
        × (TaskStore.retry libs tenant task owner epoch after message db
            ≡ leased_result
                (Tasks.retried db.clock (microseconds after) message)
                t
                i
                owner
                epoch
                r
                db)
        × (TaskStore.renew libs tenant task owner epoch lease db
            ≡ leased_result (Tasks.renewed db.clock (microseconds lease)) t i owner epoch r db)
  owner_calls lease after message =
      (complete_lem, fail_lem message, retry_lem after message, renew_lem lease)
