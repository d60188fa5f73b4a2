-- ===== src/Database/Due.antt =====
-- ListDueImportTasks and CreateImportTask of internal/data/postgres/model.sql.go.
use ani_model_service.Prelude.{
  ℕ, String, Bool, true, ◌&&◌, ◌||◌, not, ok, err, ltb, ◌==◌, str_eq, if◌then◌else◌, Option, none,
  some, List, [], ◌∷◌, take, any,
}
use ani_model_service.Errors.{Error}
use ani_model_service.Database.Table.{select}
use ani_model_service.Database.Rows.{TaskRow, TaskStatus}
use ani_model_service.Database.Exec.{Exec}
use ani_model_service.Database.Tasks.{is_task, is_due, has_model, has_version}

-- ORDER BY next_attempt_at, created_at, id
abbrev pub is_before : TaskRow → TaskRow → Bool
is_before a b =
    ltb a.next_attempt_at b.next_attempt_at
    || (a.next_attempt_at == b.next_attempt_at
        && (ltb a.created_at b.created_at
            || (a.created_at == b.created_at && (ltb a.id b.id || a.id == b.id))))

unfoldable pub insert_ordered : TaskRow → List TaskRow → List TaskRow
insert_ordered r [] = r ∷ []
insert_ordered r (x ∷ xs) = if is_before r x then r ∷ x ∷ xs else x ∷ insert_ordered r xs

unfoldable pub order : List TaskRow → List TaskRow
order [] = []
order (x ∷ xs) = insert_ordered x (order xs)

-- $1::uuid IS NULL OR tenant_id = $1
abbrev pub in_scope : Option ℕ → TaskRow → Bool
in_scope none r = true
in_scope (some tenant) r = r.tenant_id == tenant

unfoldable pub list_due_import_tasks : Option ℕ → ℕ → Exec (List TaskRow)
unfolding order insert_ordered select
list_due_import_tasks scope limit db =
    (ok (take limit (order (select (λ r. in_scope scope r && is_due db.clock r) db.tasks))), db)

unfoldable pub list_due_import_tasks_all : ℕ → Exec (List TaskRow)
unfolding order insert_ordered select
list_due_import_tasks_all limit db =
    (ok (take limit (order (select (is_due db.clock) db.tasks))), db)

-- task_type IN ('upload','huggingface','modelscope')
abbrev pub is_task_type : String → Bool
is_task_type t = str_eq t "upload" || (str_eq t "huggingface" || str_eq t "modelscope")

-- A nullable foreign key: NULL refers to nothing and is accepted.
abbrev pub refers : (ℕ → Bool) → Option ℕ → Bool
refers p none = true
refers p (some id) = p id

-- PRIMARY KEY (tenant_id, id) and UNIQUE (tenant_id, idempotency_key)
abbrev pub clashes : TaskRow → TaskRow → Bool
clashes r t =
    is_task r.tenant_id r.id t
    || (t.tenant_id == r.tenant_id && str_eq t.idempotency_key r.idempotency_key)

-- The row of CreateImportTask, with the columns' defaults. NULLIF has made the nil UUID a NULL.
abbrev pub new_task :
    ℕ → ℕ → ℕ → Option ℕ → Option ℕ → String → String → String → String → String → String → TaskRow
new_task now tenant id model version task_type source repo_id revision key fingerprint = record {
  tenant_id = tenant;
  id = id;
  model_id = model;
  model_version_id = version;
  task_type = task_type;
  source = source;
  repo_id = repo_id;
  revision = revision;
  idempotency_key = key;
  request_fingerprint = fingerprint;
  status = TaskStatus.pending;
  attempt_count = 0;
  progress_pct = 0;
  lease_owner = "";
  lease_epoch = 0;
  lease_until = none;
  next_attempt_at = now;
  error_message = "";
  created_at = now;
  updated_at = now;
  completed_at = none;
}

-- INSERT: the CHECK first, then the unique indexes, then the foreign keys.
unfoldable pub insert_task : TaskRow → Exec TaskRow
insert_task r db =
    if not (is_task_type r.task_type)
    then (err Error.check_violation, db)
    else if any (clashes r) db.tasks
    then (err Error.unique_violation, db)
    else if not (
        refers (λ m. has_model r.tenant_id m db) r.model_id
        && refers (λ v. has_version r.tenant_id v db) r.model_version_id)
    then (err Error.foreign_key_violation, db)
    else (ok r, record db { tasks = r ∷ db.tasks })
