-- ===== src/Database/Rows.antt =====
-- The rows of internal/data/postgres/models.go with the constraints of migrations/*.sql: a UUID is
-- a number, a nullable column an option, an integer column a number within its range, and a text
-- column with a CHECK list of values an enumeration. Times are nanoseconds; 0 is the zero time.
use ani_model_service.Prelude.{ℕ, String, List, Option, Bool, true, false}

pub data TaskStatus : Type 0 where
  pending importing completed failed cancelled : TaskStatus

pub data VersionStatus : Type 0 where
  pending importing ready error deleted : VersionStatus

pub data ModelStatus : Type 0 where
  pending downloading ready error deleted : ModelStatus

pub data RegistrationStatus : Type 0 where
  pending uploaded ready failed aborted : RegistrationStatus

-- Model of models.go.
pub record ModelRow : Type 0 where
  pub tenant_id : ℕ
  pub id : ℕ
  pub model_id : String
  pub name : String
  pub display_name : String
  pub description : String
  pub source : String
  pub source_repo_id : String
  pub capabilities : List String
  pub status : ModelStatus
  pub error_message : String
  pub total_size_bytes : ℕ
  pub idempotency_key : String
  pub request_fingerprint : String
  pub created_at : ℕ
  pub updated_at : ℕ
  pub deleted_at : Option ℕ

-- ModelVersion of models.go.
pub record VersionRow : Type 0 where
  pub tenant_id : ℕ
  pub id : ℕ
  pub model_id : ℕ
  pub version : String
  pub format : String
  pub status : VersionStatus
  pub is_encrypted : Bool
  pub encrypt_algo : String
  pub encrypt_hint : String
  pub size_bytes : ℕ
  pub checksum_sha256 : String
  pub engine_type : String
  pub engine_image : String
  pub recommended_image_id : String
  pub recommended_image_scope : String
  pub startup_command : String
  pub startup_args : List String
  pub error_message : String
  pub idempotency_key : String
  pub request_fingerprint : String
  pub created_at : ℕ
  pub updated_at : ℕ

-- ModelArtifact of models.go.
pub record ArtifactRow : Type 0 where
  pub tenant_id : ℕ
  pub id : ℕ
  pub model_version_id : ℕ
  pub provider : String
  pub reference : String
  pub format : String
  pub size_bytes : ℕ
  pub sha256 : String
  pub is_encrypted : Bool
  pub encrypt_algo : String
  pub created_at : ℕ

-- ModelImportTask of models.go.
pub record TaskRow : Type 0 where
  pub tenant_id : ℕ
  pub id : ℕ
  pub model_id : Option ℕ
  pub model_version_id : Option ℕ
  pub task_type : String
  pub source : String
  pub repo_id : String
  pub revision : String
  pub idempotency_key : String
  pub request_fingerprint : String
  pub status : TaskStatus
  pub attempt_count : ℕ
  pub progress_pct : ℕ
  pub lease_owner : String
  pub lease_epoch : ℕ
  pub lease_until : Option ℕ
  pub next_attempt_at : ℕ
  pub error_message : String
  pub created_at : ℕ
  pub updated_at : ℕ
  pub completed_at : Option ℕ

-- A row of trained_artifact_registrations.
pub record RegistrationRow : Type 0 where
  pub tenant_id : ℕ
  pub id : ℕ
  pub idempotency_key : String
  pub request_fingerprint : String
  pub execution_id : String
  pub target_model_id : Option ℕ
  pub model_name : String
  pub display_name : String
  pub description : String
  pub capabilities : List String
  pub source_model_version_id : Option ℕ
  pub version : String
  pub file_name : String
  pub format : String
  pub storage_path : String
  pub size_bytes : ℕ
  pub checksum_sha256 : String
  pub engine_type : String
  pub engine_image : String
  pub startup_command : String
  pub recommended_image_id : String
  pub recommended_image_scope : String
  pub status : RegistrationStatus
  pub error_message : String
  pub model_id : Option ℕ
  pub model_version_id : Option ℕ
  pub created_at : ℕ
  pub updated_at : ℕ

-- The tests that the statements write as `status = '...'` and `status IN (...)`.
abbrev pub is_importing : TaskStatus → Bool
is_importing TaskStatus.importing = true
is_importing _ = false

abbrev pub is_failed : TaskStatus → Bool
is_failed TaskStatus.failed = true
is_failed _ = false

-- IN ('pending','importing')
abbrev pub is_active : TaskStatus → Bool
is_active TaskStatus.pending = true
is_active TaskStatus.importing = true
is_active _ = false

-- IN ('pending', 'importing')
abbrev pub is_open : VersionStatus → Bool
is_open VersionStatus.pending = true
is_open VersionStatus.importing = true
is_open _ = false

abbrev pub is_ready : VersionStatus → Bool
is_ready VersionStatus.ready = true
is_ready _ = false

abbrev pub is_error : VersionStatus → Bool
is_error VersionStatus.error = true
is_error _ = false

abbrev pub is_deleted : VersionStatus → Bool
is_deleted VersionStatus.deleted = true
is_deleted _ = false

-- <> 'deleted'
abbrev pub is_live : ModelStatus → Bool
is_live ModelStatus.deleted = false
is_live _ = true

-- IN ('pending', 'downloading', 'error')
abbrev pub is_unready : ModelStatus → Bool
is_unready ModelStatus.pending = true
is_unready ModelStatus.downloading = true
is_unready ModelStatus.error = true
is_unready _ = false

-- IN ('pending','uploaded')
abbrev pub is_unsettled : RegistrationStatus → Bool
is_unsettled RegistrationStatus.pending = true
is_unsettled RegistrationStatus.uploaded = true
is_unsettled _ = false
