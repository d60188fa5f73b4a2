-- ===== src/Tests/Scans.antt =====
-- A task of the import worker that fails (internal/worker/import_worker.go).
use ani_model_service.Prelude.{◌≡◌, refl, err, some, none, [], ◌∷◌, arith, true, pos}
use ani_model_service.Errors.{Error}
use ani_model_service.Database.Table.{find, count}
use ani_model_service.Database.Rows.{VersionStatus}
use ani_model_service.Database.Exec.{Db}
use ani_model_service.Database.Tasks
use ani_model_service.Database.Tasks.{is_task}
use ani_model_service.Work.{Task}
use ani_model_service.TaskStore
use ani_model_service.TaskStore.Invariant.{IsValid}
use ani_model_service.ImportWorker
use ani_model_service.ImportWorker.{Worker, Execution, is_exhausted}
use ani_model_service.ImportWorker.Outcomes
use ani_model_service.Tests.Data.{libs, text_of, tables, leased_row, task}

-- An executor that never finds its object.
abbrev failing : Task → Db → Execution
failing t db = record { result = err Error.object_missing; renew_error = none; after = db }

abbrev worker : Worker
worker = record {
  libs = libs;
  text_of = text_of;
  executor = failing;
  binder = none;
  finalizes = true;
  tenant_id = "";
  owner = "worker";
  lease = pos 60000000000;
  batch = pos 10;
  max_attempts = pos 5;
}

abbrev db : Db
db = tables (leased_row ∷ []) VersionStatus.ready []

db-IsValid : IsValid db
unfolding count
db-IsValid = record {
  sound = (ground arith, tt);
  keyed = λ tenant id. ground arith;
  single = λ tenant key. ground arith;
}

abbrev claimed : Task
claimed = record task { lease_epoch = 4; attempt_count = 5; lease_owner = "worker" }

perform_failed_example :
    find (is_task 1 2) (ImportWorker.perform worker claimed db).1.tasks
    ≡ some (Tasks.failed 100 "refused" leased_row)
unfolding is_exhausted TaskStore.parse_ids find
perform_failed_example =
    Outcomes.perform_failed worker claimed 1 2 leased_row Error.object_missing db refl refl
      db-IsValid.keyed refl refl
