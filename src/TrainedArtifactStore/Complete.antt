-- ===== src/TrainedArtifactStore/Complete.antt =====
-- Complete of internal/data/postgres/trained_artifact_store.go.
use ani_model_service.Prelude.{ℕ, String, false, ok, err, Option, none, some, []}
use ani_model_service.Errors.{Res, Error}
use ani_model_service.Database.Rows.{
  ModelRow, ModelStatus, VersionRow, VersionStatus, ArtifactRow, RegistrationRow,
  RegistrationStatus,
}
use ani_model_service.Database.Exec.{
  Exec, pure, fail, lift, gets, attempt, transaction, ◌>>=◌, ◌>>◌, Libs,
}
use ani_model_service.Database.Versions
use ani_model_service.Database.Registrations
use ani_model_service.TrainedArtifactStore.{
  RegistrationResult, or_not_found, parse_registration_ids, registration_result, fail_registration,
}

-- The values of the uuid.New() calls of one Complete.
pub record Fresh : Type 0 where
  pub model : ℕ
  pub version : ℕ
  pub artifact : ℕ

-- mapRegistrationWriteError
abbrev pub map_write_error : Error → Error
map_write_error Error.unique_violation = Error.registration_conflict
map_write_error e = e

abbrev pub mapped_result : {A : Type 0} → Res A → Exec A
mapped_result (ok a) = pure a
mapped_result (err e) = fail (map_write_error e)

abbrev pub mapped : {A : Type 0} → Exec A → Exec A
mapped m = attempt m >>= mapped_result

abbrev pub new_model : ℕ → ℕ → RegistrationRow → ModelRow
new_model now id s = record {
  tenant_id = s.tenant_id;
  id = id;
  model_id = s.model_name;
  name = s.model_name;
  display_name = s.display_name;
  description = s.description;
  source = "upload";
  source_repo_id = "";
  capabilities = s.capabilities;
  status = ModelStatus.pending;
  error_message = "";
  total_size_bytes = 0;
  idempotency_key = "";
  request_fingerprint = "";
  created_at = now;
  updated_at = now;
  deleted_at = none;
}

abbrev pub new_version : ℕ → ℕ → ℕ → RegistrationRow → VersionRow
new_version now id model s = record {
  tenant_id = s.tenant_id;
  id = id;
  model_id = model;
  version = s.version;
  format = s.format;
  status = VersionStatus.pending;
  is_encrypted = false;
  encrypt_algo = "";
  encrypt_hint = "";
  size_bytes = s.size_bytes;
  checksum_sha256 = s.checksum_sha256;
  engine_type = s.engine_type;
  engine_image = s.engine_image;
  recommended_image_id = s.recommended_image_id;
  recommended_image_scope = s.recommended_image_scope;
  startup_command = s.startup_command;
  startup_args = [];
  error_message = "";
  idempotency_key = "";
  request_fingerprint = "";
  created_at = now;
  updated_at = now;
}

abbrev pub new_artifact : ℕ → ℕ → ℕ → RegistrationRow → ArtifactRow
new_artifact now id version s = record {
  tenant_id = s.tenant_id;
  id = id;
  model_version_id = version;
  provider = "upload";
  reference = s.storage_path;
  format = s.format;
  size_bytes = s.size_bytes;
  sha256 = s.checksum_sha256;
  is_encrypted = false;
  encrypt_algo = "";
  created_at = now;
}

-- The model of the version: the locked target, or a new row.
abbrev pub target_model : Fresh → RegistrationRow → Option ℕ → Exec ℕ
target_model fresh s none = do
  now ← gets (λ db. db.clock)
  mapped (Registrations.insert_model (new_model now fresh.model s))
  pure fresh.model
target_model fresh s (some model) = do
  mapped (Registrations.lock_live_model s.tenant_id model)
  pure model

-- From the insert of the version to the last update, with the row that the result is read from.
abbrev pub publish : Fresh → RegistrationRow → ℕ → Exec RegistrationRow
publish fresh s model = do
  now ← gets (λ db. db.clock)
  mapped (Registrations.insert_version (new_version now fresh.version model s))
  mapped (Versions.create_model_artifact (new_artifact now fresh.artifact fresh.version s))
  Registrations.grow_model s.tenant_id model s.size_bytes
  Registrations.set_version_ready s.tenant_id fresh.version
  Registrations.set_model_ready s.tenant_id model
  Registrations.publish_registration s.tenant_id s.id model fresh.version
  pure (Registrations.published now model fresh.version s)

abbrev pub complete_session : Fresh → RegistrationRow → RegistrationStatus → Exec RegistrationRow
complete_session fresh s RegistrationStatus.ready = pure s
complete_session fresh s RegistrationStatus.failed = fail Error.registration_terminal
complete_session fresh s RegistrationStatus.aborted = fail Error.registration_terminal
complete_session fresh s status = do
  model ← target_model fresh s s.target_model_id
  publish fresh s model

-- The transaction of Complete.
unfoldable pub complete_row : Fresh → ℕ → ℕ → Exec RegistrationRow
complete_row fresh tenant id = transaction (do
  s ← or_not_found (Registrations.get_registration tenant id)
  complete_session fresh s s.status)

module _ (libs : Libs) where
  -- The deferred function of Complete: on an error, after the rollback, the registration fails.
  -- `text_of` is err.Error().
  abbrev pub settled :
      (Error → String) → String → String → Res RegistrationRow → Exec RegistrationResult
  settled text_of tenant id (ok r) = pure (registration_result libs r)
  settled text_of tenant id (err e) = do
    ignored ← attempt (fail_registration libs tenant id (text_of e))
    fail e

  unfoldable pub complete : (Error → String) → Fresh → String → String → Exec RegistrationResult
  complete text_of fresh tenant id = do
    ids ← lift (parse_registration_ids libs tenant id)
    done ← attempt (complete_row fresh ids.0 ids.1)
    settled text_of tenant id done
