-- ===== src/TaskStore.antt =====
-- WorkStore of internal/data/postgres/work_store.go: the import tasks that workers lease.
-- `libs` holds the packages that the store calls.
pub mod Moves
pub mod Calls
pub mod Invariant
pub mod Ownership
pub mod Fencing
pub mod Claiming
pub mod Refinement
pub mod Idempotency
use Prim.Native.String.{◌++◌}
use ani_model_service.Prelude.{
  ℕ, String, Bool, ◌&&◌, ◌||◌, not, ok, err, ltb, ◌==◌, str_eq, if◌then◌else◌, ℤ, pos, negsuc,
  microseconds, Option, none, some, List, map,
}
use ani_model_service.Errors.{Res, Error}
use ani_model_service.Database.Rows.{TaskRow, is_failed}
use ani_model_service.Database.Exec.{Db, Exec, pure, fail, lift, attempt, ◌>>=◌, Libs, parse_id}
use ani_model_service.Database.Tasks
use ani_model_service.Database.Due
use ani_model_service.Work.{Task}

-- internal/biz/idempotency: ReplayMatches.
abbrev pub replay_matches : String → String → Bool
replay_matches stored current = not (str_eq stored "") && str_eq stored current

-- The zero time.Time of a NULL timestamptz.
abbrev pub time_or_zero : Option ℕ → ℕ
time_or_zero none = 0
time_or_zero (some t) = t

-- A statement that must affect exactly one row, else ErrLeaseLost.
abbrev pub one_row : ℕ → Exec (Unit {0})
one_row n = if n == 1 then pure tt else fail Error.lease_lost

module _ (libs : Libs) where
  unfoldable pub parse_ids : String → String → Res (ℕ × ℕ)
  parse_ids tenant task = elim (parse_id libs "tenant_id" tenant) [
    | err e ↦ err e
    | ok t ↦ elim (parse_id libs "task_id" task) [ err e ↦ err e | ok id ↦ ok (t, id) ]
  ]

  abbrev pub nullable_uuid_string : Option ℕ → String
  nullable_uuid_string none = ""
  nullable_uuid_string (some u) = libs.uuid_string u

  -- taskFromFields
  unfoldable pub task_of_row : TaskRow → Task
  task_of_row r = record {
    tenant_id = libs.uuid_string r.tenant_id;
    id = libs.uuid_string r.id;
    lease_owner = r.lease_owner;
    model_id = nullable_uuid_string r.model_id;
    version_id = nullable_uuid_string r.model_version_id;
    task_type = r.task_type;
    source = r.source;
    repo_id = r.repo_id;
    revision = r.revision;
    idempotency_key = r.idempotency_key;
    lease_epoch = r.lease_epoch;
    status = r.status;
    lease_until = time_or_zero r.lease_until;
    attempt_count = r.attempt_count;
    progress_pct = r.progress_pct;
    error_message = r.error_message;
    created_at = r.created_at;
    completed_at = time_or_zero r.completed_at;
  }

  -- An empty text is a NULL; the nil UUID of a version is one as well.
  abbrev pub optional_id : String → String → Res (Option ℕ)
  optional_id field text =
      if str_eq text ""
      then ok none
      else elim (parse_id libs field text) [ err e ↦ err e | ok u ↦ ok (some u) ]

  abbrev pub nullif_nil : Option ℕ → Option ℕ
  nullif_nil none = none
  nullif_nil (some u) = if u == 0 then none else some u

  unfoldable pub fingerprint : Task → String
  fingerprint t = libs.sha256_hex (
      t.task_type
      ++ ("\0"
          ++ (t.source
              ++ ("\0" ++ (t.repo_id ++ ("\0" ++ (t.revision ++ ("\0" ++ t.idempotency_key))))))))

  -- After a unique violation the row that won is read again.
  abbrev pub replay_or : Error → String → Res TaskRow → Res Task
  replay_or e print (ok r) =
      if replay_matches r.request_fingerprint print then ok (task_of_row r) else err e
  replay_or e print (err _) = err e

  -- The task that Create returns for the row it has inserted.
  abbrev pub created : Task → TaskRow → Task
  created t r = record {
    tenant_id = t.tenant_id;
    id = t.id;
    lease_owner = "";
    model_id = t.model_id;
    version_id = t.version_id;
    task_type = r.task_type;
    source = r.source;
    repo_id = r.repo_id;
    revision = r.revision;
    idempotency_key = r.idempotency_key;
    lease_epoch = r.lease_epoch;
    status = r.status;
    lease_until = 0;
    attempt_count = r.attempt_count;
    progress_pct = 0;
    error_message = "";
    created_at = 0;
    completed_at = 0;
  }

  abbrev pub inserted : Task → ℕ → String → Res TaskRow → Exec Task
  inserted t tenant print (ok r) = pure (created t r)
  inserted t tenant print (err Error.unique_violation) = do
    again ← attempt (Tasks.get_import_task_by_idempotency tenant t.idempotency_key)
    lift (replay_or Error.unique_violation print again)
  inserted t tenant print (err e) = fail e

  -- `between` is what other connections commit after the lookup and before the insert.
  abbrev pub looked_up :
      (Db → Db) → Task → ℕ → ℕ → Option ℕ → Option ℕ → String → Res TaskRow → Exec Task
  looked_up between t tenant id model version print (ok r) =
      if replay_matches r.request_fingerprint print
      then pure (task_of_row r)
      else fail Error.unique_violation
  looked_up between t tenant id model version print (err Error.no_rows) = λ db.
      (do
        made ← attempt (λ now.
            Due.insert_task
              (Due.new_task now.clock tenant id model (nullif_nil version) t.task_type t.source
                t.repo_id t.revision t.idempotency_key print)
              now)
        inserted t tenant print made)
        (between db)
  looked_up between t tenant id model version print (err e) = fail e

  unfoldable pub create : (Db → Db) → Task → Exec Task
  create between t = do
    ids ← lift (parse_ids t.tenant_id t.id)
    model ← lift (optional_id "model_id" t.model_id)
    version ← lift (optional_id "version_id" t.version_id)
    existing ← attempt (Tasks.get_import_task_by_idempotency ids.0 t.idempotency_key)
    looked_up between t ids.0 ids.1 model version (fingerprint t) existing

  unfoldable pub get : String → String → Exec Task
  get tenant task = do
    ids ← lift (parse_ids tenant task)
    r ← Tasks.get_import_task ids.0 ids.1
    pure (task_of_row r)

  -- The statement runs in its own transaction; a refusal is explained by a second read.
  abbrev pub explained : Res Task → Exec Task
  explained (ok t) =
      if is_failed t.status then fail Error.no_rows else fail Error.invalid_transition
  explained (err _) = fail Error.no_rows

  abbrev pub retried_failed : String → String → Res TaskRow → Exec Task
  retried_failed tenant task (ok r) = pure (task_of_row r)
  retried_failed tenant task (err Error.no_rows) = do
    current ← attempt (get tenant task)
    explained current
  retried_failed tenant task (err e) = fail e

  unfoldable pub retry_failed : String → String → Exec Task
  retry_failed tenant task = do
    ids ← lift (parse_ids tenant task)
    r ← attempt (Tasks.retry_failed_import_task_and_reset_version ids.0 ids.1)
    retried_failed tenant task r

  abbrev pub claimed_task : String → String → TaskRow → Task
  claimed_task tenant task r = record (task_of_row r) {
    tenant_id = tenant;
    id = task;
    progress_pct = 0;
    error_message = "";
    created_at = 0;
    completed_at = 0;
  }

  abbrev pub lost_claim : String → String → Res TaskRow → Exec Task
  lost_claim tenant task (ok r) = pure (claimed_task tenant task r)
  lost_claim tenant task (err Error.no_rows) = fail Error.lease_lost
  lost_claim tenant task (err e) = fail e

  unfoldable pub claim : String → String → String → ℤ → Exec Task
  claim tenant task owner lease = do
    ids ← lift (parse_ids tenant task)
    r ← attempt (Tasks.claim_import_task ids.0 ids.1 owner (microseconds lease))
    lost_claim tenant task r

  unfoldable pub renew : String → String → String → ℕ → ℤ → Exec (Unit {0})
  renew tenant task owner epoch lease = do
    ids ← lift (parse_ids tenant task)
    n ← Tasks.renew_import_task_lease ids.0 ids.1 owner epoch (microseconds lease)
    one_row n

  unfoldable pub bind : String → String → String → ℕ → String → String → Exec (Unit {0})
  bind tenant task owner epoch model version = do
    ids ← lift (parse_ids tenant task)
    m ← lift (parse_id libs "model_id" model)
    v ← lift (parse_id libs "model_version_id" version)
    n ← Tasks.bind_import_task ids.0 ids.1 owner epoch m v
    one_row n

  unfoldable pub complete : String → String → String → ℕ → Exec (Unit {0})
  complete tenant task owner epoch = do
    ids ← lift (parse_ids tenant task)
    n ← Tasks.complete_import_task ids.0 ids.1 owner epoch
    one_row n

  unfoldable pub retry : String → String → String → ℕ → ℤ → String → Exec (Unit {0})
  retry tenant task owner epoch after message = do
    ids ← lift (parse_ids tenant task)
    n ← Tasks.retry_import_task ids.0 ids.1 owner epoch (microseconds after) message
    one_row n

  unfoldable pub fail_task : String → String → String → ℕ → String → Exec (Unit {0})
  fail_task tenant task owner epoch message = do
    ids ← lift (parse_ids tenant task)
    n ← Tasks.fail_import_task ids.0 ids.1 owner epoch message
    one_row n

  -- An int32 limit outside 1 .. 1000 is replaced by 100.
  abbrev pub due_limit : ℤ → ℕ
  due_limit (pos n) = if n == 0 || ltb 1000 n then 100 else n
  due_limit (negsuc n) = 100

  abbrev pub due_task : TaskRow → Task
  due_task r = record (task_of_row r) {
    progress_pct = 0;
    error_message = "";
    created_at = 0;
    completed_at = 0;
  }

  unfoldable pub list_due : String → ℤ → Exec (List Task)
  list_due tenant limit = do
    scope ← lift (optional_id "tenant_id" tenant)
    rows ← Due.list_due_import_tasks scope (due_limit limit)
    pure (map due_task rows)

  unfoldable pub list_due_all : ℤ → Exec (List Task)
  list_due_all limit = do
    rows ← Due.list_due_import_tasks_all (due_limit limit)
    pure (map due_task rows)
