-- ===== src/Tests/Data.antt =====
-- Sample tables, and sample functions for the packages that the stores call
-- (internal/data/postgres).
use ani_model_service.Prelude.{
  ℕ, String, false, ◌==◌, str_eq, if◌then◌else◌, pos, Option, none, some, List, [], ◌∷◌,
}
use ani_model_service.Errors.{Error}
use ani_model_service.Database.Rows.{
  ModelRow, ModelStatus, VersionRow, VersionStatus, ArtifactRow, TaskRow, TaskStatus,
  RegistrationRow, RegistrationStatus,
}
use ani_model_service.Database.Exec.{Db, Libs}
use ani_model_service.Work.{Task}
use ani_model_service.TrainedArtifactStore.{Registration}
use ani_model_service.TrainedArtifactStore.Complete.{Fresh}

abbrev pub parse_uuid : String → Option ℕ
parse_uuid text =
    if str_eq text "tenant"
    then some 1
    else if str_eq text "task"
    then some 2
    else if str_eq text "model"
    then some 3
    else if str_eq text "version"
    then some 4
    else if str_eq text "registration"
    then some 5
    else none

abbrev pub uuid_string : ℕ → String
uuid_string n =
    if n == 1
    then "tenant"
    else if n == 2
    then "task"
    else if n == 3
    then "model"
    else if n == 4
    then "version"
    else if n == 5
    then "registration"
    else "new"

abbrev pub libs : Libs
libs = record { parse_uuid = parse_uuid; uuid_string = uuid_string; sha256_hex = λ text. "digest" }

abbrev pub text_of : Error → String
text_of e = "refused"

abbrev pub digest : String
digest = "aaaaaaaaaaaaaaaaaaaaaaaaaaaaaaaaaaaaaaaaaaaaaaaaaaaaaaaaaaaaaaaa"

abbrev pub model : ModelRow
model = record {
  tenant_id = 1;
  id = 3;
  model_id = "qwen";
  name = "qwen";
  display_name = "";
  description = "";
  source = "upload";
  source_repo_id = "";
  capabilities = [];
  status = ModelStatus.ready;
  error_message = "";
  total_size_bytes = 10;
  idempotency_key = "";
  request_fingerprint = "";
  created_at = 1;
  updated_at = 1;
  deleted_at = none;
}

abbrev pub version : VersionStatus → VersionRow
version status = record {
  tenant_id = 1;
  id = 4;
  model_id = 3;
  version = "v1";
  format = "gguf";
  status = status;
  is_encrypted = false;
  encrypt_algo = "";
  encrypt_hint = "";
  size_bytes = 10;
  checksum_sha256 = digest;
  engine_type = "";
  engine_image = "";
  recommended_image_id = "";
  recommended_image_scope = "";
  startup_command = "";
  startup_args = [];
  error_message = "";
  idempotency_key = "";
  request_fingerprint = "";
  created_at = 1;
  updated_at = 1;
}

abbrev pub artifact : ArtifactRow
artifact = record {
  tenant_id = 1;
  id = 6;
  model_version_id = 4;
  provider = "upload";
  reference = "objects/1";
  format = "gguf";
  size_bytes = 10;
  sha256 = digest;
  is_encrypted = false;
  encrypt_algo = "";
  created_at = 1;
}

abbrev pub task_row : TaskStatus → ℕ → Option ℕ → String → ℕ → TaskRow
task_row status epoch until owner attempts = record {
  tenant_id = 1;
  id = 2;
  model_id = some 3;
  model_version_id = some 4;
  task_type = "huggingface";
  source = "huggingface";
  repo_id = "org/qwen";
  revision = "main";
  idempotency_key = "key";
  request_fingerprint = "digest";
  status = status;
  attempt_count = attempts;
  progress_pct = 0;
  lease_owner = owner;
  lease_epoch = epoch;
  lease_until = until;
  next_attempt_at = 50;
  error_message = "";
  created_at = 1;
  updated_at = 1;
  completed_at = none;
}

abbrev pub pending_row : TaskRow
pending_row = task_row TaskStatus.pending 3 none "" 0

abbrev pub leased_row : TaskRow
leased_row = task_row TaskStatus.importing 4 (some 1000) "worker" 5

abbrev pub task : Task
task = record {
  tenant_id = "tenant";
  id = "task";
  lease_owner = "";
  model_id = "model";
  version_id = "version";
  task_type = "huggingface";
  source = "huggingface";
  repo_id = "org/qwen";
  revision = "main";
  idempotency_key = "key";
  lease_epoch = 3;
  status = TaskStatus.pending;
  lease_until = 0;
  attempt_count = 0;
  progress_pct = 0;
  error_message = "";
  created_at = 1;
  completed_at = 0;
}

abbrev pub registration_row : RegistrationStatus → RegistrationRow
registration_row status = record {
  tenant_id = 1;
  id = 5;
  idempotency_key = "key";
  request_fingerprint = "print";
  execution_id = "";
  target_model_id = some 3;
  model_name = "";
  display_name = "";
  description = "";
  capabilities = [];
  source_model_version_id = none;
  version = "v2";
  file_name = "model.gguf";
  format = "gguf";
  storage_path = "objects/2";
  size_bytes = 20;
  checksum_sha256 = digest;
  engine_type = "vllm";
  engine_image = "vllm:1";
  startup_command = "serve";
  recommended_image_id = "";
  recommended_image_scope = "";
  status = status;
  error_message = "";
  model_id = none;
  model_version_id = none;
  created_at = 1;
  updated_at = 1;
}

abbrev pub registration : Registration
registration = record {
  tenant_id = "tenant";
  id = "registration";
  idempotency_key = "key";
  request_fingerprint = "print";
  execution_id = "";
  target_model_id = "model";
  model_name = "";
  display_name = "";
  description = "";
  capabilities = [];
  source_model_version_id = "";
  version = "v2";
  file_name = "model.gguf";
  format = "gguf";
  storage_path = "objects/2";
  checksum_sha256 = digest;
  size_bytes = pos 20;
  engine_type = "vllm";
  engine_image = "vllm:1";
  startup_command = "serve";
  recommended_image_id = "";
  recommended_image_scope = "";
  status = RegistrationStatus.pending;
  error_message = "";
  model_id = "";
  model_version_id = "";
  created_at = 0;
  updated_at = 0;
}

abbrev pub fresh : Fresh
fresh = record { model = 7; version = 8; artifact = 9 }

-- A tenant's tables at the time 100.
abbrev pub tables : List TaskRow → VersionStatus → List RegistrationRow → Db
tables tasks status registrations = record {
  models = model ∷ [];
  versions = version status ∷ [];
  artifacts = artifact ∷ [];
  tasks = tasks;
  registrations = registrations;
  clock = 100;
}
