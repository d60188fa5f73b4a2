-- ===== src/ImportWorker.antt =====
-- Worker of internal/worker/import_worker.go over WorkStore and VersionStore: one due scan.
-- The executor and the binder are the worker's interfaces, so they are fields here. Logging, the
-- health callback and the wake channel of Run are not modelled.
pub mod Frames
pub mod Outcomes
use ani_model_service.Prelude.{
  ℕ, String, Bool, true, false, ◌&&◌, ◌||◌, not, is_positive, ok, err, ltb, leb, str_eq,
  if◌then◌else◌, ℤ, pos, negsuc, Option, none, some, List, [], ◌∷◌,
}
use ani_model_service.Errors.{Res, Error}
use ani_model_service.Text.{is_blank}
use ani_model_service.Database.Exec.{Db, Exec, pure, fail, lift, attempt, ◌>>=◌, ◌>>◌, Libs}
use ani_model_service.Work.{Task}
use ani_model_service.TaskStore
use ani_model_service.VersionStore

-- What Execute and the renewals beside it come to: the result of Execute, the error of a failed
-- Renew that cancelled it, and the tables when Execute has returned. Execute runs for a while, so
-- the tables hold the renewals and whatever else was committed meanwhile.
pub record Execution : Type 0 where
  pub result : Res (Unit {0})
  pub renew_error : Option Error
  pub after : Db

-- `text_of` is err.Error(); the binder is nil or a ResolveBinding; `finalizes` says that the
-- finalizer is the VersionStore, and not nil.
pub record Worker : Type 0 where
  pub libs : Libs
  pub text_of : Error → String
  pub executor : Task → Db → Execution
  pub binder : Option (Task → Exec (String × String))
  pub finalizes : Bool
  pub tenant_id : String
  pub owner : String
  pub lease : ℤ
  pub batch : ℤ
  pub max_attempts : ℤ

abbrev pub second : ℤ
second = pos 1000000000

abbrev pub five_minutes : ℤ
five_minutes = pos 300000000000

-- w.MaxAttempts > 0 && task.AttemptCount >= w.MaxAttempts
unfoldable pub is_exhausted : ℤ → ℕ → Bool
is_exhausted (pos n) attempts = ltb 0 n && leb n attempts
is_exhausted (negsuc n) attempts = false

module _ (w : Worker) where
  -- MarkErrorAndMaybeModel, whose error is only logged.
  abbrev pub sync_error : Task → String → Exec (Unit {0})
  sync_error t message =
      if not (str_eq t.version_id "") && w.finalizes
      then (attempt (
            VersionStore.mark_error_and_maybe_model w.libs t.tenant_id t.id t.version_id w.owner
              t.lease_epoch message)
          >>= λ r. pure tt)
      else pure tt

  unfoldable pub retry_or_fail : Task → Error → ℤ → Exec (Unit {0})
  retry_or_fail t e after =
      if is_exhausted w.max_attempts t.attempt_count
      then (sync_error t (w.text_of e)
          >> TaskStore.fail_task w.libs t.tenant_id t.id w.owner t.lease_epoch (w.text_of e))
      else TaskStore.retry w.libs t.tenant_id t.id w.owner t.lease_epoch after (w.text_of e)

  -- `_ = w.retryOrFail(...); continue`
  abbrev pub give_up : Task → Error → ℤ → Exec (Unit {0})
  give_up t e after = attempt (retry_or_fail t e after) >>= λ r. pure tt

  -- An error of Execute goes before the error of a renewal.
  abbrev pub execution_error : Res (Unit {0}) → Option Error → Res (Unit {0})
  execution_error (err e) renewal = err e
  execution_error (ok u) none = ok tt
  execution_error (ok u) (some e) = err e

  abbrev pub execute : Task → Exec (Res (Unit {0}))
  execute t db = let x = w.executor t db in (ok (execution_error x.result x.renew_error), x.after)

  abbrev pub mark_ready : Task → Exec (Unit {0})
  mark_ready t =
      if w.finalizes && not (str_eq t.version_id "")
      then VersionStore.mark_ready w.libs t.tenant_id t.version_id
      else pure tt

  -- The error of Complete is only logged.
  abbrev pub complete : Task → Res (Unit {0}) → Exec (Unit {0})
  complete t (err e) = give_up t e second
  complete t (ok u) =
      attempt (TaskStore.complete w.libs t.tenant_id t.id w.owner t.lease_epoch) >>= λ r. pure tt

  abbrev pub finish : Task → Res (Unit {0}) → Exec (Unit {0})
  finish t (err e) = give_up t e second
  finish t (ok u) = attempt (mark_ready t) >>= complete t

  -- From "import execution started" on.
  unfoldable pub perform : Task → Exec (Unit {0})
  perform t = execute t >>= finish t

  abbrev pub bound : Task → String → String → Res (Unit {0}) → Exec (Unit {0})
  bound t model version (err e) = give_up t e second
  bound t model version (ok u) = perform (record t { model_id = model; version_id = version })

  abbrev pub resolved : Task → Res (String × String) → Exec (Unit {0})
  resolved t (err e) = give_up t e second
  resolved t (ok (model, version)) =
      if str_eq model "" || str_eq version ""
      then give_up t Error.binding_required second
      else (attempt (TaskStore.bind w.libs t.tenant_id t.id w.owner t.lease_epoch model version)
          >>= bound t model version)

  abbrev pub resolve : Task → Option (Task → Exec (String × String)) → Exec (Unit {0})
  resolve t none = give_up t Error.binding_required five_minutes
  resolve t (some binder) = attempt (binder t) >>= resolved t

  -- A task without a version is bound first.
  abbrev pub claimed : Res Task → Exec (Unit {0})
  claimed (err e) = pure tt
  claimed (ok t) = if str_eq t.version_id "" then resolve t w.binder else perform t

  abbrev pub tenant_of : Task → String
  tenant_of t = if str_eq t.tenant_id "" then w.tenant_id else t.tenant_id

  -- The body of the loop of runOnce.
  unfoldable pub process : Task → Exec (Unit {0})
  process t = attempt (TaskStore.claim w.libs (tenant_of t) t.id w.owner w.lease) >>= claimed

  unfoldable pub process_all : List Task → Exec (Unit {0})
  process_all [] = pure tt
  process_all (t ∷ tasks) = process t >> process_all tasks

  -- A tenant of the worker's own limits the scan.
  unfoldable pub list_due : Exec (List Task)
  unfolding is_blank
  list_due =
      if is_blank w.tenant_id
      then TaskStore.list_due_all w.libs w.batch
      else TaskStore.list_due w.libs w.tenant_id w.batch

  unfoldable pub run_once : Exec (Unit {0})
  run_once = list_due >>= process_all

-- The defaults that Run sets.
abbrev pub defaults : Worker → Worker
defaults w = record w {
  lease = if is_positive w.lease then w.lease else pos 60000000000;
  batch = if is_positive w.batch then w.batch else pos 10;
  max_attempts = if is_positive w.max_attempts then w.max_attempts else pos 5;
}
