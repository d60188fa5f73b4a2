-- ===== src/TrainedArtifactStore/Prepare.antt =====
-- Prepare of internal/data/postgres/trained_artifact_store.go.
use ani_model_service.Prelude.{
  ℕ, zero, suc, String, ok, err, str_eq, if◌then◌else◌, Option, none, some,
}
use ani_model_service.Errors.{Res, Error}
use ani_model_service.Database.Rows.{RegistrationRow, RegistrationStatus}
use ani_model_service.Database.Exec.{
  Db, Exec, pure, fail, lift, gets, attempt, ◌>>=◌, Libs, parse_id,
}
use ani_model_service.Database.Registrations
use ani_model_service.VersionStore.{to_column}
use ani_model_service.TrainedArtifactStore.{
  Registration, parse_registration_ids, scan_trained_artifact,
}

module _ (libs : Libs) where
  -- An empty text is a NULL.
  abbrev pub optional_id : String → String → Res (Option ℕ)
  optional_id field text =
      if str_eq text ""
      then ok none
      else elim (parse_id libs field text) [ err e ↦ err e | ok u ↦ ok (some u) ]

  abbrev pub new_registration : ℕ → ℕ → ℕ → Option ℕ → Option ℕ → Registration → RegistrationRow
  new_registration now tenant id target source r = record {
    tenant_id = tenant;
    id = id;
    idempotency_key = r.idempotency_key;
    request_fingerprint = r.request_fingerprint;
    execution_id = r.execution_id;
    target_model_id = target;
    model_name = r.model_name;
    display_name = r.display_name;
    description = r.description;
    capabilities = r.capabilities;
    source_model_version_id = source;
    version = r.version;
    file_name = r.file_name;
    format = r.format;
    storage_path = r.storage_path;
    size_bytes = to_column r.size_bytes;
    checksum_sha256 = r.checksum_sha256;
    engine_type = r.engine_type;
    engine_image = r.engine_image;
    startup_command = r.startup_command;
    recommended_image_id = r.recommended_image_id;
    recommended_image_scope = r.recommended_image_scope;
    status = RegistrationStatus.pending;
    error_message = "";
    model_id = none;
    model_version_id = none;
    created_at = now;
    updated_at = now;
  }

  -- none: the insert met a unique index, and Prepare calls itself again.
  abbrev pub inserted : Res RegistrationRow → Exec (Option Registration)
  inserted (ok r) = pure (some (scan_trained_artifact libs r))
  inserted (err Error.unique_violation) = pure none
  inserted (err e) = fail e

  abbrev pub insert : ℕ → ℕ → Registration → Exec (Option Registration)
  insert tenant id r = do
    target ← lift (optional_id "target_model_id" r.target_model_id)
    source ← lift (optional_id "source_model_version_id" r.source_model_version_id)
    now ← gets (λ db. db.clock)
    made ←
        attempt (Registrations.insert_registration (new_registration now tenant id target source r))
    inserted made

  -- `between` is what other connections commit after the lookup and before the insert.
  abbrev pub found :
      (Db → Db) → ℕ → ℕ → Registration → Res RegistrationRow → Exec (Option Registration)
  found between tenant id r (ok s) =
      if str_eq s.request_fingerprint r.request_fingerprint
      then pure (some (scan_trained_artifact libs s))
      else fail Error.registration_conflict
  found between tenant id r (err Error.no_rows) = λ db. insert tenant id r (between db)
  found between tenant id r (err e) = fail e

  -- One pass of Prepare.
  unfoldable pub prepare_once : (Db → Db) → Registration → Exec (Option Registration)
  prepare_once between r = do
    ids ← lift (parse_registration_ids libs r.tenant_id r.id)
    existing ← attempt (Registrations.get_registration_by_key ids.0 r.idempotency_key)
    found between ids.0 ids.1 r existing

  -- What the recursive call does with the passes that are left; none when they run out.
  abbrev pub repeated :
      (Db → Option (Res Registration × Db))
      → Res (Option Registration) × Db
      → Option (Res Registration × Db)
  repeated again (ok (some r), db) = some (ok r, db)
  repeated again (ok none, db) = again db
  repeated again (err e, db) = some (err e, db)

  -- Prepare, with at most this many passes.
  unfoldable pub prepare : ℕ → (Db → Db) → Registration → Db → Option (Res Registration × Db)
  prepare zero between r db = none
  prepare (suc n) between r db =
      let again = prepare n between r in repeated again (prepare_once between r db)
