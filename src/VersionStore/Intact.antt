-- ===== src/VersionStore/Intact.antt =====
-- Every sequence of calls of version_store.go, artifact_store.go and RetryFailed of
-- work_store.go, and what the lookups of a version then hand out.
use ani_model_service.Prelude.{
  ℕ, String, ◌≡◌, refl, ◌&&◌, ok, err, ℤ, Option, none, some, List, ◌∷◌, [], arith,
}
use ani_model_service.Errors.{Res, Error}
use ani_model_service.Model.{Artifact}
use ani_model_service.Work.{Task}
use ani_model_service.Database.Table.{find}
use ani_model_service.Database.Rows.{TaskRow, is_failed}
use ani_model_service.Database.Exec.{Db, Libs, attempt}
use ani_model_service.Database.Keeps.{lift_cases, bind_keeps}
use ani_model_service.Database.Tasks
use ani_model_service.TaskStore
use ani_model_service.VersionStore
use ani_model_service.VersionStore.Integrity.{IsIntact, update-IsIntact}
use ani_model_service.VersionStore.Calls

pub data Call : Type 0 where
  mark_ready : String → String → Call
  mark_error : String → String → String → Call
  mark_error_and_maybe_model : String → String → String → String → ℕ → String → Call
  set_checksum : String → String → String → ℤ → Call
  create_artifact : Artifact → Call
  retry_failed : String → String → Call

module _ (libs : Libs) where
  reset_row-IsIntact :
      (tenant id : ℕ) (o : Option TaskRow) (db : Db)
      → IsIntact db
      → IsIntact (Tasks.reset_row tenant id db o).1
  reset_row-IsIntact tenant id none db intact = intact
  reset_row-IsIntact tenant id (some r) db intact =
      update-IsIntact intact refl _ _ refl (λ v h b r. cc)

  get-state : (tenant task : String) (db : Db) → (TaskStore.get libs tenant task db).1 ≡ db
  unfolding TaskStore.get Tasks.get_import_task
  get-state tenant task db =
      lift_cases (λ d. d ≡ db) (TaskStore.parse_ids libs tenant task) _ db refl
        (λ ids. ground arith)

  explained-state : (r : Res Task) (db : Db) → (TaskStore.explained libs r db).1 ≡ db
  explained-state (ok t) db = ground arith
  explained-state (err e) db = refl

  retried_failed-IsIntact :
      (tenant task : String) (r : Res TaskRow) (db : Db)
      → IsIntact db
      → IsIntact (TaskStore.retried_failed libs tenant task r db).1
  retried_failed-IsIntact tenant task (ok r) db intact = intact
  retried_failed-IsIntact tenant task (err Error.no_rows) db intact =
      bind_keeps IsIntact (attempt (TaskStore.get libs tenant task)) (TaskStore.explained libs) db
        (rw (get-state tenant task db) intact) λ r d k. rw (explained-state r d) k
  retried_failed-IsIntact tenant task (err _) db intact = intact

  retry_failed-IsIntact :
      (tenant task : String) (db : Db)
      → IsIntact db
      → IsIntact (TaskStore.retry_failed libs tenant task db).1
  unfolding TaskStore.retry_failed Tasks.retry_failed_import_task_and_reset_version
  retry_failed-IsIntact tenant task db intact =
      lift_cases IsIntact (TaskStore.parse_ids libs tenant task) _ db intact λ ids.
        bind_keeps IsIntact (attempt (Tasks.retry_failed_import_task_and_reset_version ids.0 ids.1))
          (TaskStore.retried_failed libs tenant task) db
          (reset_row-IsIntact ids.0 ids.1
            (find (λ t. Tasks.is_task ids.0 ids.1 t && is_failed t.status) db.tasks) db intact)
          λ r d k. retried_failed-IsIntact tenant task r d k

  abbrev pub step : Call → Db → Db
  step (mark_ready tenant version) db = (VersionStore.mark_ready libs tenant version db).1
  step (mark_error tenant version message) db =
      (VersionStore.mark_error libs tenant version message db).1
  step (mark_error_and_maybe_model tenant task version owner epoch message) db =
      (VersionStore.mark_error_and_maybe_model libs tenant task version owner epoch message db).1
  step (set_checksum tenant version checksum size) db =
      (VersionStore.set_checksum libs tenant version checksum size db).1
  step (create_artifact a) db = (VersionStore.create_artifact libs a db).1
  step (retry_failed tenant task) db = (TaskStore.retry_failed libs tenant task db).1

  step-IsIntact : (c : Call) (db : Db) → IsIntact db → IsIntact (step c db)
  step-IsIntact (mark_ready tenant version) db k =
      Calls.mark_ready-IsIntact libs db k tenant version
  step-IsIntact (mark_error tenant version message) db k =
      Calls.mark_error-IsIntact libs db k tenant version message
  step-IsIntact (mark_error_and_maybe_model tenant task version owner epoch message) db k =
      Calls.mark_error_and_maybe_model-IsIntact libs db k tenant task version owner epoch message
  step-IsIntact (set_checksum tenant version checksum size) db k =
      Calls.set_checksum-IsIntact libs db k tenant version checksum size
  step-IsIntact (create_artifact a) db k = Calls.create_artifact-IsIntact libs db k a
  step-IsIntact (retry_failed tenant task) db k = retry_failed-IsIntact tenant task db k

  abbrev pub run : List Call → Db → Db
  run [] db = db
  run (c ∷ calls) db = run calls (step c db)

  -- From tables where each version has at most one artifact, every artifact is valid and every
  -- ready version has its artifact with the digest of the version, any sequence of MarkReady,
  -- MarkError, MarkErrorAndMaybeModel, SetChecksum, CreateArtifact and RetryFailed calls, failed
  -- ones included, leads to such tables again.
  pub run-IsIntact : (calls : List Call) (db : Db) → IsIntact db → IsIntact (run calls db)
  run-IsIntact [] db k = k
  run-IsIntact (c ∷ calls) db k = run-IsIntact calls (step c db) (step-IsIntact c db k)
