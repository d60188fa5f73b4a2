-- ===== src/TrainedArtifactStore.antt =====
-- TrainedArtifactStore of internal/data/postgres/trained_artifact_store.go: the registration of a
-- trained artifact, and its publication as a ready version.
pub mod Complete
pub mod Prepare
pub mod Publishing
pub mod Committing
pub mod Moves
pub mod Calls
pub mod Terminal
pub mod Replay
pub mod Atomic
pub mod Preparing
pub mod Repeating
use mathlib.Core.Option
use ani_model_service.Prelude.{
  ℕ, zero, suc, String, Bool, true, false, ok, err, ltb, ◌==◌, str_eq, if◌then◌else◌, ℤ, pos,
  Option, none, some, List, [],
}
use ani_model_service.Errors.{Res, Error}
use ani_model_service.Database.Rows.{
  ModelRow, ModelStatus, VersionRow, VersionStatus, ArtifactRow, RegistrationRow,
  RegistrationStatus,
}
use ani_model_service.Database.Exec.{
  Db, Exec, pure, fail, lift, gets, attempt, transaction, ◌>>=◌, ◌>>◌, Libs, parse_id,
}
use ani_model_service.Database.Versions
use ani_model_service.Database.Registrations
use ani_model_service.VersionStore.{to_column}

-- TrainedArtifactRegistration
pub record Registration : Type 0 where
  pub tenant_id : String
  pub id : String
  pub idempotency_key : String
  pub request_fingerprint : String
  pub execution_id : String
  pub target_model_id : String
  pub model_name : String
  pub display_name : String
  pub description : String
  pub capabilities : List String
  pub source_model_version_id : String
  pub version : String
  pub file_name : String
  pub format : String
  pub storage_path : String
  pub checksum_sha256 : String
  pub size_bytes : ℤ
  pub engine_type : String
  pub engine_image : String
  pub startup_command : String
  pub recommended_image_id : String
  pub recommended_image_scope : String
  pub status : RegistrationStatus
  pub error_message : String
  pub model_id : String
  pub model_version_id : String
  pub created_at : ℕ
  pub updated_at : ℕ

-- TrainedArtifactRegistrationResult
pub record RegistrationResult : Type 0 where
  pub registration_id : String
  pub model_id : String
  pub model_version_id : String
  pub status : RegistrationStatus
  pub storage_path : String
  pub checksum_sha256 : String
  pub size_bytes : ℕ

abbrev pub not_found_result : {A : Type 0} → Res A → Exec A
not_found_result (err Error.no_rows) = fail Error.registration_not_found
not_found_result r = lift r

-- pgx.ErrNoRows becomes ErrRegistrationNotFound.
abbrev pub or_not_found : {A : Type 0} → Exec A → Exec A
or_not_found m = attempt m >>= not_found_result

-- A current status that makes a second MarkUploaded a success.
abbrev pub already_uploaded : RegistrationStatus → Bool
already_uploaded RegistrationStatus.uploaded = true
already_uploaded RegistrationStatus.ready = true
already_uploaded _ = false

module _ (libs : Libs) where
  -- parseRegistrationIDs
  unfoldable pub parse_registration_ids : String → String → Res (ℕ × ℕ)
  parse_registration_ids tenant id = elim (parse_id libs "tenant_id" tenant) [
    | err e ↦ err e
    | ok t ↦ elim (parse_id libs "registration_id" id) [ err e ↦ err e | ok i ↦ ok (t, i) ]
  ]

  abbrev pub optional_text : Option ℕ → String
  optional_text none = ""
  optional_text (some u) = libs.uuid_string u

  -- scanTrainedArtifact
  unfoldable pub scan_trained_artifact : RegistrationRow → Registration
  scan_trained_artifact r = record {
    tenant_id = libs.uuid_string r.tenant_id;
    id = libs.uuid_string r.id;
    idempotency_key = r.idempotency_key;
    request_fingerprint = r.request_fingerprint;
    execution_id = r.execution_id;
    target_model_id = optional_text r.target_model_id;
    model_name = r.model_name;
    display_name = r.display_name;
    description = r.description;
    capabilities = r.capabilities;
    source_model_version_id = optional_text r.source_model_version_id;
    version = r.version;
    file_name = r.file_name;
    format = r.format;
    storage_path = r.storage_path;
    checksum_sha256 = r.checksum_sha256;
    size_bytes = pos r.size_bytes;
    engine_type = r.engine_type;
    engine_image = r.engine_image;
    startup_command = r.startup_command;
    recommended_image_id = r.recommended_image_id;
    recommended_image_scope = r.recommended_image_scope;
    status = r.status;
    error_message = r.error_message;
    model_id = optional_text r.model_id;
    model_version_id = optional_text r.model_version_id;
    created_at = r.created_at;
    updated_at = r.updated_at;
  }

  -- registrationResult, of a scanned row
  unfoldable pub registration_result : RegistrationRow → RegistrationResult
  registration_result r = record {
    registration_id = libs.uuid_string r.id;
    model_id = optional_text r.model_id;
    model_version_id = optional_text r.model_version_id;
    status = r.status;
    storage_path = r.storage_path;
    checksum_sha256 = r.checksum_sha256;
    size_bytes = r.size_bytes;
  }

  unfoldable pub get : String → String → Exec Registration
  get tenant id = do
    ids ← lift (parse_registration_ids tenant id)
    r ← or_not_found (Registrations.get_registration ids.0 ids.1)
    pure (scan_trained_artifact r)

  unfoldable pub get_by_key : String → String → Exec Registration
  get_by_key tenant key = do
    t ← lift (parse_id libs "tenant_id" tenant)
    r ← or_not_found (Registrations.get_registration_by_key t key)
    pure (scan_trained_artifact r)

  unfoldable pub mark_uploaded : String → String → Exec (Unit {0})
  mark_uploaded tenant id = do
    ids ← lift (parse_registration_ids tenant id)
    n ← Registrations.upload_registration ids.0 ids.1
    if ltb 0 n then pure tt else do
      current ← get tenant id
      if already_uploaded current.status then pure tt else fail Error.registration_terminal

  unfoldable pub fail_registration : String → String → String → Exec (Unit {0})
  fail_registration tenant id message = do
    ids ← lift (parse_registration_ids tenant id)
    n ← Registrations.fail_registration ids.0 ids.1 message
    pure tt

  abbrev pub refused : Res Registration → Exec (Unit {0})
  refused (err Error.registration_not_found) = fail Error.registration_not_found
  refused _ = fail Error.registration_terminal

  unfoldable pub abort : String → String → String → Exec (Unit {0})
  abort tenant id reason = do
    ids ← lift (parse_registration_ids tenant id)
    n ← Registrations.abort_registration ids.0 ids.1 reason
    if n == 0 then (attempt (get tenant id) >>= refused) else pure tt
