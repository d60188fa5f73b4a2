-- ===== src/TaskStore/Moves/Shared.antt =====
-- Create, Claim and RetryFailed of work_store.go as moves.
use ani_model_service.Prelude.{
  ℕ, String, ◌≡◌, refl, ◌∙◌, Bool, ◌&&◌, ok, err, ℤ, microseconds, Option, none, some, arith, any,
  leb, ◌||◌, Bool-cases, Option-cases, inl, inr,
}
use ani_model_service.Errors.{Res, Error}
use ani_model_service.Database.Table.{find}
use ani_model_service.Database.Rows.{TaskRow, is_failed}
use ani_model_service.Database.Exec.{Db, lift, ◌>>=◌, Libs, row, pure}
use ani_model_service.Database.Keeps.{lift_cases}
use ani_model_service.Database.Tasks
use ani_model_service.Database.Tasks.{is_leased, is_due, is_task}
use ani_model_service.Database.Due
use ani_model_service.Work.{Task}
use ani_model_service.TaskStore
use ani_model_service.TaskStore.Moves.{IsNew, claims, resets, Change, keep, write, add}

module _ (libs : Libs) (tenant task : String) where
  lost_claim-state :
      (r : Res TaskRow) (db : Db) → (TaskStore.lost_claim libs tenant task r db).1 ≡ db
  lost_claim-state (ok r) db = refl
  lost_claim-state (err Error.no_rows) db = refl
  lost_claim-state (err _) db = refl

  explained-state : (r : Res Task) (db : Db) → (TaskStore.explained libs r db).1 ≡ db
  explained-state (ok t) db = ground arith
  explained-state (err _) db = refl

  get-state : (db : Db) → (TaskStore.get libs tenant task db).1 ≡ db
  unfolding TaskStore.get Tasks.get_import_task
  get-state db =
      lift_cases (λ d. d ≡ db) (TaskStore.parse_ids libs tenant task) _ db refl
        λ ids. read (find (is_task ids.0 ids.1) db.tasks)
    where
      read :
          (o : Option TaskRow)
          → ((lift (row o) >>= λ r. pure (TaskStore.task_of_row libs r)) db).1 ≡ db
      read none = refl
      read (some r) = refl

  retried_failed-state :
      (r : Res TaskRow) (db : Db) → (TaskStore.retried_failed libs tenant task r db).1 ≡ db
  retried_failed-state (ok r) db = refl
  retried_failed-state (err Error.no_rows) db =
      explained-state (TaskStore.get libs tenant task db).0 (TaskStore.get libs tenant task db).1
      ∙ get-state db
  retried_failed-state (err _) db = refl

module _ (libs : Libs) (db : Db) (tenant task owner : String) where
  claim_row-Change :
      (t id : ℕ) (micros : ℤ) → Change db (Tasks.claim_import_task t id owner micros db).1
  unfolding Tasks.claim_import_task
  claim_row-Change t id micros =
      elim (Option-cases (find (λ r. is_task t id r && is_due db.clock r) db.tasks)) [
        | inl e ↦ rw e (keep refl)
        | inr (r, e) ↦ rw e (elim (Bool-cases (overflows r)) [
          | inl o ↦ rw o (keep refl)
          | inr o ↦ rw o (
              write (λ s. is_task t id s && is_due db.clock s) (Tasks.claimed db.clock owner micros)
                refl λ s h. claims owner micros (ground arith) refl)
        ])
      ]
    where
      overflows : TaskRow → Bool
      overflows r = leb Tasks.max_int32 r.attempt_count || leb Tasks.max_int64 r.lease_epoch

  pub claim-Change : (lease : ℤ) → Change db (TaskStore.claim libs tenant task owner lease db).1
  unfolding TaskStore.claim
  claim-Change lease =
      lift_cases (Change db) (TaskStore.parse_ids libs tenant task) _ db (keep refl) λ ids.
        rw (lost_claim-state libs tenant task (claim_row ids).0 (claim_row ids).1)
          (claim_row-Change ids.0 ids.1 (microseconds lease))
    where
      claim_row : ℕ × ℕ → Res TaskRow × Db
      claim_row ids = Tasks.claim_import_task ids.0 ids.1 owner (microseconds lease) db

  retry_row-Change :
      (t id : ℕ) → Change db (Tasks.retry_failed_import_task_and_reset_version t id db).1
  unfolding Tasks.retry_failed_import_task_and_reset_version
  retry_row-Change t id =
      elim (Option-cases (find (λ r. is_task t id r && is_failed r.status) db.tasks)) [
        | inl e ↦ rw e (keep refl)
        | inr (r, e) ↦ rw e (
            write (λ s. is_task t id s && is_failed s.status) (Tasks.reset db.clock) refl
              λ s h. resets (ground arith) refl)
      ]

  pub retry_failed-Change : Change db (TaskStore.retry_failed libs tenant task db).1
  unfolding TaskStore.retry_failed
  retry_failed-Change =
      lift_cases (Change db) (TaskStore.parse_ids libs tenant task) _ db (keep refl) λ ids.
        rw (retried_failed-state libs tenant task (retry_row ids).0 (retry_row ids).1)
          (retry_row-Change ids.0 ids.1)
    where
      retry_row : ℕ × ℕ → Res TaskRow × Db
      retry_row ids = Tasks.retry_failed_import_task_and_reset_version ids.0 ids.1 db

module _ (libs : Libs) (db : Db) where
  insert-Change : (r : TaskRow) → IsNew r → Change db (Due.insert_task r db).1
  unfolding Due.insert_task
  insert-Change r new = elim (Bool-cases (Due.is_task_type r.task_type)) [
    | inr c ↦ rw c (keep refl)
    | inl c ↦ rw c (elim (Bool-cases (any (Due.clashes r) db.tasks)) [
      | inl k ↦ rw k (keep refl)
      | inr k ↦
          rw k
            (elim (Bool-cases refs) [ inl f ↦ rw f (add r refl k new) | inr f ↦ rw f (keep refl) ])
    ])
  ]
    where
      refs : Bool
      refs =
          Due.refers (λ m. Tasks.has_model r.tenant_id m db) r.model_id
          && Due.refers (λ v. Tasks.has_version r.tenant_id v db) r.model_version_id

  inserted-state :
      (t : Task) (tenant : ℕ) (print : String) (r : Res TaskRow) (d : Db)
      → (TaskStore.inserted libs t tenant print r d).1 ≡ d
  unfolding Tasks.get_import_task_by_idempotency
  inserted-state t tenant print (ok r) d = refl
  inserted-state t tenant print (err Error.unique_violation) d = refl
  inserted-state t tenant print (err _) d = refl

  -- `between` changes nothing here: no other call comes between the two statements.
  looked_up-Change :
      (t : Task) (tenant id : ℕ) (model version : Option ℕ) (print : String) (r : Res TaskRow)
      → Change db (TaskStore.looked_up libs (λ d. d) t tenant id model version print r db).1
  looked_up-Change t tenant id model version print (ok r) = keep (ground arith)
  looked_up-Change t tenant id model version print (err Error.no_rows) =
      rw (inserted-state t tenant print made.0 made.1) (insert-Change fresh (ground arith))
    where
      fresh : TaskRow
      fresh =
          Due.new_task db.clock tenant id model (TaskStore.nullif_nil libs version) t.task_type
            t.source t.repo_id t.revision t.idempotency_key print

      made : Res TaskRow × Db
      made = Due.insert_task fresh db
  looked_up-Change t tenant id model version print (err _) = keep refl

  pub create-Change : (t : Task) → Change db (TaskStore.create libs (λ d. d) t db).1
  unfolding TaskStore.create Tasks.get_import_task_by_idempotency
  create-Change t =
      lift_cases (Change db) (TaskStore.parse_ids libs t.tenant_id t.id) _ db (keep refl) λ ids.
        lift_cases (Change db) (TaskStore.optional_id libs "model_id" t.model_id) _ db (keep refl)
          λ m.
            lift_cases (Change db) (TaskStore.optional_id libs "version_id" t.version_id) _ db
              (keep refl)
              λ v.
                looked_up-Change t ids.0 ids.1 m v (TaskStore.fingerprint libs t)
                  (Tasks.get_import_task_by_idempotency ids.0 t.idempotency_key db).0
