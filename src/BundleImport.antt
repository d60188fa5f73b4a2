-- ===== src/BundleImport.antt =====
-- BundleImportStore of internal/data/postgres/import_bundle_store.go: a model, a version and an
-- import task in one transaction. A BundleImportResult is made of the three rows, so the
-- operations return the rows.
pub mod Replay
pub mod Atomic
pub mod Race
use ani_model_service.Prelude.{
  ℕ, String, Bool, true, false, ◌&&◌, ◌||◌, not, ok, err, ◌==◌, str_eq, if◌then◌else◌, Option, none,
  some, List, [],
}
use ani_model_service.Errors.{Res, Error}
use ani_model_service.Database.Table.{find}
use ani_model_service.Database.Rows.{ModelRow, ModelStatus, VersionRow, VersionStatus, TaskRow}
use ani_model_service.Database.Exec.{
  Db, Exec, pure, fail, lift, gets, row, attempt, transaction, ◌>>=◌, ◌>>◌, Libs, parse_id,
}
use ani_model_service.Database.Tasks
use ani_model_service.Database.Due
use ani_model_service.Database.Registrations
use ani_model_service.Model
use ani_model_service.Model.{validate_bundle}

-- bundleIDs: the uuid.New() values of one request.
pub record BundleIds : Type 0 where
  pub model : ℕ
  pub version : ℕ
  pub task : ℕ

abbrev pub Aggregate : Type 0
Aggregate = ModelRow × VersionRow × TaskRow

abbrev pub has_model_key : ℕ → String → ModelRow → Bool
has_model_key tenant key m = m.tenant_id == tenant && str_eq m.idempotency_key key

abbrev pub has_version_key : ℕ → String → VersionRow → Bool
has_version_key tenant key v = v.tenant_id == tenant && str_eq v.idempotency_key key

abbrev pub has_task_key : ℕ → String → TaskRow → Bool
has_task_key tenant key t = t.tenant_id == tenant && str_eq t.idempotency_key key

-- The three lookups of one snapshot: GetBundleModelByIdempotency, GetBundleVersionByIdempotency
-- and GetBundleTaskByIdempotency of model.sql.go.
pub record Found : Type 0 where
  pub model : Option ModelRow
  pub version : Option VersionRow
  pub task : Option TaskRow

unfoldable pub look_up : ℕ → String → Db → Found
look_up tenant key db = record {
  model = find (has_model_key tenant key) db.models;
  version = find (has_version_key tenant key) db.versions;
  task = find (has_task_key tenant key) db.tasks;
}

abbrev pub same_prints : String → Aggregate → Bool
same_prints print (m, v, t) =
    str_eq m.request_fingerprint print
    && (str_eq v.request_fingerprint print && str_eq t.request_fingerprint print)

-- bundleConflict is a PgError with the code of a unique violation.
abbrev pub replayed : String → Aggregate → Res (Option Aggregate)
replayed print a = if same_prints print a then ok (some a) else err Error.unique_violation

-- All three rows, none of them (errBundleAggregateMissing), or a conflict.
abbrev pub judge_rows :
    String → Option ModelRow → Option VersionRow → Option TaskRow → Res (Option Aggregate)
judge_rows print (some m) (some v) (some t) = replayed print (m, v, t)
judge_rows print none none none = ok none
judge_rows print _ _ _ = err Error.unique_violation

abbrev pub judge : String → Found → Res (Option Aggregate)
judge print f = judge_rows print f.model f.version f.task

module _ (ids : BundleIds) (tenant : ℕ) (print : String) (b : Model.BundleImport) where
  abbrev pub bundle_model : ℕ → ModelRow
  bundle_model now = record {
    tenant_id = tenant;
    id = ids.model;
    model_id = b.external_model_id;
    name = b.name;
    display_name = b.display_name;
    description = b.description;
    source = b.provider;
    source_repo_id = b.repo_id;
    capabilities = b.capabilities;
    status = ModelStatus.pending;
    error_message = "";
    total_size_bytes = 0;
    idempotency_key = b.idempotency_key;
    request_fingerprint = print;
    created_at = now;
    updated_at = now;
    deleted_at = none;
  }

  abbrev pub bundle_version : ℕ → VersionRow
  bundle_version now = record {
    tenant_id = tenant;
    id = ids.version;
    model_id = ids.model;
    version = b.version;
    format = b.format;
    status = VersionStatus.pending;
    is_encrypted = false;
    encrypt_algo = "";
    encrypt_hint = "";
    size_bytes = 0;
    checksum_sha256 = "";
    engine_type = b.engine_type;
    engine_image = b.engine_image;
    recommended_image_id = b.recommended_image_id;
    recommended_image_scope = b.recommended_image_scope;
    startup_command = b.startup_command;
    startup_args = [];
    error_message = "";
    idempotency_key = b.idempotency_key;
    request_fingerprint = print;
    created_at = now;
    updated_at = now;
  }

  abbrev pub bundle_task : ℕ → TaskRow
  bundle_task now =
      Due.new_task now tenant ids.task (some ids.model) (some ids.version) b.provider b.provider
        b.repo_id b.revision b.idempotency_key print

  -- CreateBundleModel, CreateBundleVersion and CreateBundleTask
  unfoldable pub create_aggregate : Exec Aggregate
  create_aggregate = do
    now ← gets (λ db. db.clock)
    Registrations.insert_model (bundle_model now)
    Registrations.insert_version (bundle_version now)
    t ← Due.insert_task (bundle_task now)
    pure (bundle_model now, bundle_version now, t)

  -- `race` is what other connections commit between the lookups and the inserts. The inserts meet
  -- it in the unique indexes, and the rollback of the transaction keeps it. An insert waits for a
  -- row that another open transaction has under the same key, so a commit that matters to the
  -- three inserts can be taken to come before the first of them.
  abbrev pub found_or_created : (Db → Db) → Option Aggregate → Exec Aggregate
  found_or_created race (some a) = pure a
  found_or_created race none = λ db. transaction create_aggregate (race db)

  -- importBundleTx, in its transaction
  unfoldable pub import_bundle_tx : (Db → Db) → Exec Aggregate
  import_bundle_tx race = do
    f ← gets (look_up tenant b.idempotency_key)
    r ← lift (judge print f)
    found_or_created race r

  -- replayBundle; none is errBundleAggregateMissing.
  unfoldable pub replay_bundle : Exec (Option Aggregate)
  replay_bundle = do f ← gets (look_up tenant b.idempotency_key); lift (judge print f)

  -- After a unique violation the aggregate that won is read again.
  abbrev pub replay_or : Error → Res (Option Aggregate) → Exec Aggregate
  replay_or e (ok (some a)) = pure a
  replay_or e _ = fail e

  -- `late` is what other connections commit after the rollback and before the rows are read again.
  abbrev pub committed : (Db → Db) → Res Aggregate → Exec Aggregate
  committed late (ok a) = pure a
  committed late (err Error.unique_violation) =
      λ db. (attempt replay_bundle >>= replay_or Error.unique_violation) (late db)
  committed late (err e) = fail e

  -- What other connections commit after the first replay (0), between the lookups and the inserts
  -- of the transaction (1), and before the rows are read again (2).
  abbrev pub imported : (ℕ → Db → Db) → Option Aggregate → Exec Aggregate
  imported others (some a) = pure a
  imported others none =
      λ db. (attempt (import_bundle_tx (others 1)) >>= committed (others 2)) (others 0 db)

-- ImportBundle; `print_of` is bundleFingerprint, the digest of the request's JSON text.
unfoldable pub import_bundle :
    Libs
    → (Model.BundleImport → String)
    → (ℕ → Db → Db)
    → BundleIds
    → Model.BundleImport
    → Exec Aggregate
import_bundle libs print_of others ids b = do
  lift (validate_bundle b)
  tenant ← lift (parse_id libs "tenant_id" b.tenant_id)
  r ← replay_bundle ids tenant (print_of b) b
  imported ids tenant (print_of b) b others r
