-- ===== src/Tests/Tasks.antt =====
-- Leases and idempotency of one import task (internal/data/postgres/work_store.go).
use ani_model_service.Prelude.{
  ℕ, ◌≡◌, refl, ok, err, some, List, [], ◌∷◌, arith, pos, microseconds, interval_of_micros,
  if◌then◌else◌,
}
use ani_model_service.Errors.{Error}
use ani_model_service.Database.Table.{find, count}
use ani_model_service.Database.Rows.{TaskRow, VersionStatus}
use ani_model_service.Database.Exec.{Db}
use ani_model_service.Database.Due
use ani_model_service.Database.Tasks
use ani_model_service.Database.Tasks.{is_task, is_leased, is_due}
use ani_model_service.Work
use ani_model_service.Work.{Task}
use ani_model_service.TaskStore
use ani_model_service.TaskStore.Moves.{Change}
use ani_model_service.TaskStore.Calls
use ani_model_service.TaskStore.Calls.{Call, step, run}
use ani_model_service.TaskStore.Invariant
use ani_model_service.TaskStore.Invariant.{IsValid, IsSound, has_key}
use ani_model_service.TaskStore.Ownership
use ani_model_service.TaskStore.Ownership.{leased_result}
use ani_model_service.TaskStore.Fencing
use ani_model_service.TaskStore.Claiming
use ani_model_service.TaskStore.Claiming.{claim_result}
use ani_model_service.TaskStore.Refinement
use ani_model_service.TaskStore.Idempotency
use ani_model_service.TaskStore.Idempotency.{Recorded}
use ani_model_service.Tests.Data.{libs, tables, pending_row, leased_row, task}

abbrev pending_db : Db
pending_db = tables (pending_row ∷ []) VersionStatus.pending []

abbrev leased_db : Db
leased_db = tables (leased_row ∷ []) VersionStatus.pending []

pending_db-IsValid : IsValid pending_db
unfolding count
pending_db-IsValid = record {
  sound = (ground arith, tt);
  keyed = λ tenant id. ground arith;
  single = λ tenant key. ground arith;
}

leased_db-IsValid : IsValid leased_db
unfolding count
leased_db-IsValid = record {
  sound = (ground arith, tt);
  keyed = λ tenant id. ground arith;
  single = λ tenant key. ground arith;
}

pending_found : find (is_task 1 2) pending_db.tasks ≡ some pending_row
unfolding find
pending_found = refl

leased_found : find (is_task 1 2) leased_db.tasks ≡ some leased_row
unfolding find
leased_found = refl

parsed : TaskStore.parse_ids libs "tenant" "task" ≡ ok (1, 2)
unfolding TaskStore.parse_ids
parsed = refl

-- A worker takes the task over, and time passes.
abbrev takeover : List (ℕ × Call)
takeover =
    (2000, Call.claim "tenant" "task" "other" (pos 1000))
    ∷ (10, Call.renew "tenant" "task" "other" 5 (pos 1000))
    ∷ []

run-IsFenced_example :
    (TaskStore.complete libs "tenant" "task" "worker" 3 (run libs takeover leased_db)
      ≡ (err Error.lease_lost, run libs takeover leased_db))
    × (TaskStore.fail_task libs "tenant" "task" "worker" 3 "late" (run libs takeover leased_db)
        ≡ (err Error.lease_lost, run libs takeover leased_db))
    × (TaskStore.retry libs "tenant" "task" "worker" 3 (pos 6) "late" (run libs takeover leased_db)
        ≡ (err Error.lease_lost, run libs takeover leased_db))
    × (TaskStore.renew libs "tenant" "task" "worker" 3 (pos 5) (run libs takeover leased_db)
        ≡ (err Error.lease_lost, run libs takeover leased_db))
run-IsFenced_example =
    Fencing.run-IsFenced libs "tenant" "task" "worker" 3 1 2 parsed takeover leased_db leased_row
      leased_db-IsValid leased_found (omega arith) (pos 5) (pos 6) "late"

claim_lem_example :
    TaskStore.claim libs "tenant" "task" "worker" (pos 1000) pending_db
    ≡ claim_result libs "tenant" "task" 1 2 "worker" (pos 1000) pending_row pending_db
claim_lem_example =
    Claiming.claim_lem libs pending_db pending_db-IsValid "tenant" "task" "worker" (pos 1000) 1 2
      pending_row parsed pending_found

abbrev after_claim : Db
after_claim =
    run libs takeover (TaskStore.claim libs "tenant" "task" "worker" (pos 1000) pending_db).1

claim-IsFenced_example :
    (TaskStore.complete libs "tenant" "task" "stale" 3 (after_claim)
      ≡ (err Error.lease_lost, after_claim))
    × (TaskStore.fail_task libs "tenant" "task" "stale" 3 "late" (after_claim)
        ≡ (err Error.lease_lost, after_claim))
    × (TaskStore.retry libs "tenant" "task" "stale" 3 (pos 6) "late" (after_claim)
        ≡ (err Error.lease_lost, after_claim))
    × (TaskStore.renew libs "tenant" "task" "stale" 3 (pos 5) (after_claim)
        ≡ (err Error.lease_lost, after_claim))
unfolding TaskStore.claim TaskStore.parse_ids Tasks.claim_import_task find
claim-IsFenced_example =
    Claiming.claim-IsFenced libs pending_db pending_db-IsValid "tenant" "task" "worker" (pos 1000) 1
      2 pending_row parsed pending_found _ takeover "stale" 3 refl (omega arith) (pos 5) (pos 6)
      "late"

run-IsValid_example : IsValid (run libs takeover leased_db)
run-IsValid_example = Invariant.run-IsValid libs takeover leased_db leased_db-IsValid

step-Change_example :
    Change leased_db (step libs (Call.complete "tenant" "task" "worker" 4) leased_db)
step-Change_example = Calls.step-Change libs (Call.complete "tenant" "task" "worker" 4) leased_db

owner_calls_example :
    (TaskStore.complete libs "tenant" "task" "worker" 4 leased_db
      ≡ leased_result (Tasks.completed 100) 1 2 "worker" 4 leased_row leased_db)
    × (TaskStore.fail_task libs "tenant" "task" "worker" 4 "broken" leased_db
        ≡ leased_result (Tasks.failed 100 "broken") 1 2 "worker" 4 leased_row leased_db)
    × (TaskStore.retry libs "tenant" "task" "worker" 4 (pos 5000) "broken" leased_db
        ≡ leased_result
            (Tasks.retried 100 (microseconds (pos 5000)) "broken")
            1
            2
            "worker"
            4
            leased_row
            leased_db)
    × (TaskStore.renew libs "tenant" "task" "worker" 4 (pos 9000) leased_db
        ≡ leased_result
            (Tasks.renewed 100 (microseconds (pos 9000)))
            1
            2
            "worker"
            4
            leased_row
            leased_db)
owner_calls_example =
    Ownership.owner_calls libs leased_db leased_db-IsValid.keyed "tenant" "task" "worker" 4 1 2
      leased_row parsed leased_found (pos 9000) (pos 5000) "broken"

abbrev no_tasks : Db
no_tasks = tables [] VersionStatus.pending []

create-create_example :
    (tenant : ℕ) × (r : TaskRow) × Recorded libs task tenant
      (TaskStore.create libs (λ d. d) task no_tasks).1
      r
    × (TaskStore.create libs (λ d. d) task (TaskStore.create libs (λ d. d) task no_tasks).1
        ≡ (ok (TaskStore.task_of_row libs r), (TaskStore.create libs (λ d. d) task no_tasks).1))
unfolding TaskStore.create TaskStore.parse_ids TaskStore.fingerprint
    Tasks.get_import_task_by_idempotency Due.insert_task find
create-create_example =
    Idempotency.create-create libs task _ (λ d. d) (λ d. d) no_tasks
      (TaskStore.create libs (λ d. d) task no_tasks).1 (λ text. refl) refl

completed-complete_example :
    Work.complete (TaskStore.task_of_row libs leased_row) "worker" 4 100 ≡ (
      if is_leased "worker" 4 100 leased_row
      then ok (record (TaskStore.task_of_row libs (Tasks.completed 100 leased_row)) {
        progress_pct = 0;
        error_message = "";
        completed_at = 0;
      })
      else err Error.lease_fenced)
completed-complete_example = Refinement.completed-complete libs 100 "worker" leased_row 4

claimed-claim_example :
    Work.claim (TaskStore.task_of_row libs pending_row) "worker" 100 (interval_of_micros (pos 7))
    ≡ ok (record (TaskStore.task_of_row libs (Tasks.claimed 100 "worker" (pos 7) pending_row)) {
      progress_pct = 0;
    })
claimed-claim_example =
    Refinement.claimed-claim libs 100 "worker" pending_row (pos 7) refl refl refl refl
