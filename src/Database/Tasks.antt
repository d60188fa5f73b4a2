-- ===== src/Database/Tasks.antt =====
-- The statements on model_import_tasks (internal/data/postgres/model.sql.go): the leased updates.
use ani_model_service.Prelude.{
  ℕ, ◌+◌, ◌-◌, ◌^◌, String, Bool, true, false, ◌&&◌, ◌||◌, not, ok, err, ltb, leb, ◌==◌, str_eq,
  if◌then◌else◌, ℤ, add_duration, interval_of_micros, Option, none, some, is_none, any,
}
use ani_model_service.Errors.{Res, Error}
use ani_model_service.Database.Table.{find, update, count}
use ani_model_service.Database.Rows.{
  TaskRow, TaskStatus, is_importing, is_failed, is_active, VersionStatus, is_error,
}
use ani_model_service.Database.Exec.{Db, Exec, row}

-- The largest values of the columns attempt_count INTEGER and lease_epoch BIGINT.
abbrev pub max_int32 : ℕ
max_int32 = 2 ^ 31 - 1

abbrev pub max_int64 : ℕ
max_int64 = 2 ^ 63 - 1

-- tenant_id = $1 AND id = $2
abbrev pub is_task : ℕ → ℕ → TaskRow → Bool
is_task tenant id r = r.tenant_id == tenant && r.id == id

-- lease_until > clock_timestamp()
abbrev pub is_after : Option ℕ → ℕ → Bool
is_after none now = false
is_after (some t) now = ltb now t

-- lease_until IS NULL OR lease_until <= clock_timestamp()
abbrev pub is_lapsed : Option ℕ → ℕ → Bool
is_lapsed none now = true
is_lapsed (some t) now = leb t now

-- status = 'importing' AND lease_owner = $3 AND lease_epoch = $4
--   AND lease_until > clock_timestamp()
abbrev pub is_leased : String → ℕ → ℕ → TaskRow → Bool
is_leased owner epoch now r =
    is_importing r.status
    && (str_eq r.lease_owner owner && (r.lease_epoch == epoch && is_after r.lease_until now))

-- status IN ('pending','importing') AND next_attempt_at <= clock_timestamp()
--   AND (lease_until IS NULL OR lease_until <= clock_timestamp())
abbrev pub is_due : ℕ → TaskRow → Bool
is_due now r = is_active r.status && (leb r.next_attempt_at now && is_lapsed r.lease_until now)

-- UPDATE ... WHERE by :execrows.
abbrev pub execrows : (TaskRow → Bool) → (TaskRow → TaskRow) → Exec ℕ
execrows p f db = (ok (count p db.tasks), record db { tasks = update p f db.tasks })

abbrev pub claimed : ℕ → String → ℤ → TaskRow → TaskRow
claimed now owner micros r = record r {
  status = TaskStatus.importing;
  lease_owner = owner;
  lease_epoch = r.lease_epoch + 1;
  lease_until = some (add_duration now (interval_of_micros micros));
  attempt_count = r.attempt_count + 1;
  updated_at = now;
}

-- An increment past the column's range is 22003 and fails the statement.
abbrev pub claim_row : ℕ → ℕ → String → ℤ → Db → Option TaskRow → Res TaskRow × Db
claim_row tenant id owner micros db none = (err Error.no_rows, db)
claim_row tenant id owner micros db (some r) =
    if leb max_int32 r.attempt_count || leb max_int64 r.lease_epoch
    then (err Error.out_of_range, db)
    else (
      ok (claimed db.clock owner micros r),
      record db {
        tasks =
            update (λ t. is_task tenant id t && is_due db.clock t) (claimed db.clock owner micros)
              db.tasks;
      },
    )

unfoldable pub claim_import_task : ℕ → ℕ → String → ℤ → Exec TaskRow
claim_import_task tenant id owner micros db =
    claim_row tenant id owner micros db
      (find (λ t. is_task tenant id t && is_due db.clock t) db.tasks)

abbrev pub completed : ℕ → TaskRow → TaskRow
completed now r = record r {
  status = TaskStatus.completed;
  progress_pct = 100;
  lease_owner = "";
  lease_until = none;
  completed_at = some now;
  error_message = "";
  updated_at = now;
}

unfoldable pub complete_import_task : ℕ → ℕ → String → ℕ → Exec ℕ
complete_import_task tenant id owner epoch db =
    execrows (λ t. is_task tenant id t && is_leased owner epoch db.clock t) (completed db.clock) db

abbrev pub retried : ℕ → ℤ → String → TaskRow → TaskRow
retried now micros message r = record r {
  status = TaskStatus.pending;
  lease_owner = "";
  lease_until = none;
  next_attempt_at = add_duration now (interval_of_micros micros);
  error_message = message;
  updated_at = now;
}

unfoldable pub retry_import_task : ℕ → ℕ → String → ℕ → ℤ → String → Exec ℕ
retry_import_task tenant id owner epoch micros message db =
    execrows (λ t. is_task tenant id t && is_leased owner epoch db.clock t)
      (retried db.clock micros message) db

abbrev pub failed : ℕ → String → TaskRow → TaskRow
failed now message r = record r {
  status = TaskStatus.failed;
  lease_owner = "";
  lease_until = none;
  error_message = message;
  updated_at = now;
}

unfoldable pub fail_import_task : ℕ → ℕ → String → ℕ → String → Exec ℕ
fail_import_task tenant id owner epoch message db =
    execrows (λ t. is_task tenant id t && is_leased owner epoch db.clock t)
      (failed db.clock message) db

abbrev pub renewed : ℕ → ℤ → TaskRow → TaskRow
renewed now micros r = record r {
  lease_until = some (add_duration now (interval_of_micros micros));
  updated_at = now;
}

unfoldable pub renew_import_task_lease : ℕ → ℕ → String → ℕ → ℤ → Exec ℕ
renew_import_task_lease tenant id owner epoch micros db =
    execrows (λ t. is_task tenant id t && is_leased owner epoch db.clock t)
      (renewed db.clock micros) db

abbrev pub bound : ℕ → ℕ → ℕ → TaskRow → TaskRow
bound now model version r = record r {
  model_id = some model;
  model_version_id = some version;
  updated_at = now;
}

-- FOREIGN KEY (tenant_id, model_id) and (tenant_id, model_version_id)
abbrev pub has_model : ℕ → ℕ → Db → Bool
has_model tenant id db = any (λ m. m.tenant_id == tenant && m.id == id) db.models

abbrev pub has_version : ℕ → ℕ → Db → Bool
has_version tenant id db = any (λ v. v.tenant_id == tenant && v.id == id) db.versions

-- AND model_version_id IS NULL; the foreign keys are checked where a row is written.
abbrev pub is_bindable : ℕ → ℕ → String → ℕ → ℕ → TaskRow → Bool
is_bindable tenant id owner epoch now t =
    is_task tenant id t && (is_leased owner epoch now t && is_none t.model_version_id)

unfoldable pub bind_import_task : ℕ → ℕ → String → ℕ → ℕ → ℕ → Exec ℕ
bind_import_task tenant id owner epoch model version db =
    if ltb 0 (count (is_bindable tenant id owner epoch db.clock) db.tasks)
      && not (has_model tenant model db && has_version tenant version db)
    then (err Error.foreign_key_violation, db)
    else execrows (is_bindable tenant id owner epoch db.clock) (bound db.clock model version) db

unfoldable pub get_import_task : ℕ → ℕ → Exec TaskRow
get_import_task tenant id db = (row (find (is_task tenant id) db.tasks), db)

unfoldable pub get_import_task_by_idempotency : ℕ → String → Exec TaskRow
get_import_task_by_idempotency tenant key db =
    (row (find (λ t. t.tenant_id == tenant && str_eq t.idempotency_key key) db.tasks), db)

abbrev pub reset : ℕ → TaskRow → TaskRow
reset now r = record r {
  status = TaskStatus.pending;
  attempt_count = 0;
  progress_pct = 0;
  lease_owner = "";
  lease_until = none;
  next_attempt_at = now;
  error_message = "";
  completed_at = none;
  updated_at = now;
}

-- v.id = t.model_version_id: NULL equals nothing.
abbrev pub is_id : Option ℕ → ℕ → Bool
is_id none id = false
is_id (some v) id = v == id

abbrev pub reset_row : ℕ → ℕ → Db → Option TaskRow → Res TaskRow × Db
reset_row tenant id db none = (err Error.no_rows, db)
reset_row tenant id db (some r) = (
  ok (reset db.clock r),
  record db {
    versions =
        update
          (λ v. v.tenant_id == r.tenant_id && (is_id r.model_version_id v.id && is_error v.status))
          (λ v. record v {
            status = VersionStatus.pending;
            error_message = "";
            updated_at = db.clock;
          })
          db.versions;
    tasks = update (λ t. is_task tenant id t && is_failed t.status) (reset db.clock) db.tasks;
  },
)

-- The three parts of the statement read one snapshot.
unfoldable pub retry_failed_import_task_and_reset_version : ℕ → ℕ → Exec TaskRow
retry_failed_import_task_and_reset_version tenant id db =
    reset_row tenant id db (find (λ t. is_task tenant id t && is_failed t.status) db.tasks)
