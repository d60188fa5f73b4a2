-- ===== src/ImportWorker/Frames.antt =====
-- What the calls of VersionStore leave alone of the tasks
-- (internal/data/postgres/version_store.go).
use ani_model_service.Prelude.{
  ℕ, String, ◌≡◌, refl, Bool, ok, err, Option, none, some, Bool-cases, inl, inr, ◌==◌,
  if◌then◌else◌,
}
use ani_model_service.Errors.{Res, Error}
use ani_model_service.Database.Table.{find}
use ani_model_service.Database.Rows.{VersionRow, ModelRow}
use ani_model_service.Database.Exec.{Db, Exec, pure, attempt, ◌>>=◌, Libs, parse_id}
use ani_model_service.Database.Keeps.{lift_cases, bind_keeps, transaction_keeps}
use ani_model_service.Database.Versions
use ani_model_service.VersionStore
use ani_model_service.VersionStore.Calls.{get_version-state, replayed_ready-state, lock-state}

-- The calls of VersionStore write no task and take no time.
abbrev pub SameTasks : Db → Db → Type 0
SameTasks db d = (d.tasks ≡ db.tasks) × (d.clock ≡ db.clock)

module _ (libs : Libs) (db : Db) where
  pub mark_ready-SameTasks :
      (tenant version : String) → SameTasks db (VersionStore.mark_ready libs tenant version db).1
  unfolding VersionStore.mark_ready Versions.mark_model_version_ready
  mark_ready-SameTasks tenant version =
      lift_cases (SameTasks db) (VersionStore.parse_model_ids libs tenant version) _ db (refl, refl)
        λ ids.
          bind_keeps (SameTasks db) (Versions.mark_model_version_ready ids.0 ids.1) after db
            (refl, refl)
            λ n d k. elim (Bool-cases (n == 1)) [
              | inl e ↦ rw e k
              | inr e ↦ rw e (
                  bind_keeps (SameTasks db) (attempt (VersionStore.get_version libs tenant version))
                    (VersionStore.replayed_ready libs) d
                    (rw (get_version-state libs tenant version d) k)
                    λ r d' k'. rw (replayed_ready-state libs r d') k')
            ]
    where
      after : ℕ → Exec (Unit {0})
      after n =
          if n == 1
          then pure tt
          else (attempt (VersionStore.get_version libs tenant version)
              >>= VersionStore.replayed_ready libs)

  failed_row-SameTasks :
      (d : Db) (p : VersionRow → Bool) (message : String) (o : Option VersionRow)
      → SameTasks d (Versions.failed_row d.clock o d p message).1
  failed_row-SameTasks d p message none = (refl, refl)
  failed_row-SameTasks d p message (some v) = (refl, refl)

  model_error-SameTasks :
      (tenant model : ℕ) (message : String) (r : Res ModelRow) (d : Db)
      → SameTasks db d
      → SameTasks db (VersionStore.model_error libs tenant model message r d).1
  unfolding Versions.mark_model_error_if_no_ready
  model_error-SameTasks tenant model message (ok m) d k = k
  model_error-SameTasks tenant model message (err Error.no_rows) d k = k
  model_error-SameTasks tenant model message (err _) d k = k

  apply_error-SameTasks :
      (tenant task version : ℕ) (owner : String) (epoch : ℕ) (message : String)
      → SameTasks db (VersionStore.apply_error libs tenant task version owner epoch message db).1
  unfolding VersionStore.apply_error Versions.mark_model_version_error_for_task
  apply_error-SameTasks tenant task version owner epoch message =
      bind_keeps (SameTasks db)
        (Versions.mark_model_version_error_for_task tenant task version owner epoch message) _ db
        (failed_row-SameTasks db (Versions.fails_version tenant task version owner epoch db) message
          (find (Versions.fails_version tenant task version owner epoch db) db.versions))
        λ model d k.
          bind_keeps (SameTasks db) (attempt (Versions.lock_model_for_version_error tenant model))
            (VersionStore.model_error libs tenant model message) d
            (rw (lock-state libs tenant model d) k)
            λ r d' k'. model_error-SameTasks tenant model message r d' k'

  pub mark_error-SameTasks :
      (tenant task version owner : String) (epoch : ℕ) (message : String)
      → SameTasks db
          (VersionStore.mark_error_and_maybe_model libs tenant task version owner epoch message
            db).1
  unfolding VersionStore.mark_error_and_maybe_model
  mark_error-SameTasks tenant task version owner epoch message =
      lift_cases (SameTasks db) (VersionStore.parse_model_ids libs tenant version) _ db (refl, refl)
        λ ids.
          lift_cases (SameTasks db) (parse_id libs "task_id" task) _ db (refl, refl)
            λ t.
              transaction_keeps (SameTasks db) db (refl, refl)
                (VersionStore.apply_error libs ids.0 t ids.1 owner epoch message)
                (apply_error-SameTasks ids.0 t ids.1 owner epoch message)
