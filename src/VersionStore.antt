-- ===== src/VersionStore.antt =====
-- VersionStore of internal/data/postgres/version_store.go and ArtifactStore of artifact_store.go.
pub mod Integrity
pub mod Calls
pub mod Intact
pub mod Lookup
pub mod Creation
pub mod Recreation
pub mod Marking
use ani_model_service.Prelude.{
  ℕ, String, Bool, true, false, ◌&&◌, ◌||◌, not, ok, err, ltb, ◌==◌, str_eq, if◌then◌else◌, ℤ, pos,
  negsuc, Option, any, is_none,
}
use ani_model_service.Errors.{Res, Error}
use ani_model_service.Model.{Version, Artifact, validate_artifact}
use ani_model_service.Database.Rows.{ModelRow, VersionRow, ArtifactRow, is_deleted, is_live}
use ani_model_service.Database.Exec.{
  Db, Exec, pure, fail, lift, gets, attempt, transaction, ◌>>=◌, ◌>>◌, Libs, parse_id,
}
use ani_model_service.Database.Versions
use ani_model_service.Database.Versions.{is_version, is_model}

-- resolvedVersionSize
abbrev pub resolved_version_size : ℕ → ℕ → ℕ
resolved_version_size version artifact = if ltb 0 artifact then artifact else version

-- A negative bigint parameter cannot be a column's value.
abbrev pub to_column : ℤ → ℕ
to_column (pos n) = n
to_column (negsuc n) = 0

-- A statement that must affect exactly one row, else pgx.ErrNoRows.
abbrev pub one_row : ℕ → Exec (Unit {0})
one_row n = if n == 1 then pure tt else fail Error.no_rows

module _ (libs : Libs) where
  -- parseModelIDs
  unfoldable pub parse_model_ids : String → String → Res (ℕ × ℕ)
  parse_model_ids tenant model = elim (parse_id libs "tenant_id" tenant) [
    | err e ↦ err e
    | ok t ↦ elim (parse_id libs "model_id" model) [ err e ↦ err e | ok id ↦ ok (t, id) ]
  ]

  -- The Version of a joined row, under the caller's tenant and version texts.
  unfoldable pub version_of_row : String → String → VersionRow × ModelRow × ArtifactRow → Version
  version_of_row tenant id (v, m, a) = record {
    tenant_id = tenant;
    id = id;
    model_id = libs.uuid_string v.model_id;
    external_model_id = m.model_id;
    version = v.version;
    format = v.format;
    status = v.status;
    artifact_provider = a.provider;
    artifact_reference = a.reference;
    artifact_sha256 = a.sha256;
    engine_type = v.engine_type;
    engine_image = v.engine_image;
    startup_command = v.startup_command;
    recommended_image_id = v.recommended_image_id;
    recommended_image_scope = v.recommended_image_scope;
    startup_args = v.startup_args;
    idempotency_key = "";
    size_bytes = pos (resolved_version_size v.size_bytes a.size_bytes);
    is_encrypted = v.is_encrypted;
    encrypt_algo = v.encrypt_algo;
    encrypt_hint = v.encrypt_hint;
    created_at = v.created_at;
  }

  unfoldable pub get_version : String → String → Exec Version
  get_version tenant id = do
    ids ← lift (parse_model_ids tenant id)
    r ← Versions.get_ready_model_version ids.0 ids.1
    pure (version_of_row tenant id r)

  -- EXISTS a live version of the id under another tenant, AND NOT EXISTS one under this tenant.
  abbrev pub is_foreign : ℕ → ℕ → Db → Bool
  is_foreign tenant id db =
      any
        (λ v.
          v.id == id
          && (not (v.tenant_id == tenant)
              && (not (is_deleted v.status)
                  && any
                      (λ m.
                        is_model v.tenant_id v.model_id m
                        && (is_live m.status && is_none m.deleted_at))
                      db.models)))
        db.versions
      && not (any (is_version tenant id) db.versions)

  abbrev pub finetuning_source : String → String → Res Version → Exec Version
  finetuning_source tenant id (ok v) = pure v
  finetuning_source tenant id (err Error.no_rows) = do
    ids ← lift (parse_model_ids tenant id)
    foreign ← gets (is_foreign ids.0 ids.1)
    if foreign then fail Error.finetuning_source_forbidden else fail Error.no_rows
  finetuning_source tenant id (err e) = fail e

  unfoldable pub get_finetuning_source : String → String → Exec Version
  get_finetuning_source tenant id = do
    r ← attempt (get_version tenant id)
    finetuning_source tenant id r

  unfoldable pub get_version_by_external_ref : String → String → String → Exec Version
  get_version_by_external_ref tenant model version = do
    t ← lift (parse_id libs "tenant_id" tenant)
    r ← Versions.get_ready_model_version_by_external_ref t model version
    pure (version_of_row tenant (libs.uuid_string r.0.id) r)

  -- A version that is ready already counts as a success.
  abbrev pub replayed_ready : Res Version → Exec (Unit {0})
  replayed_ready (ok v) = pure tt
  replayed_ready (err e) = fail Error.no_rows

  unfoldable pub mark_ready : String → String → Exec (Unit {0})
  mark_ready tenant version = do
    ids ← lift (parse_model_ids tenant version)
    n ← Versions.mark_model_version_ready ids.0 ids.1
    if n == 1 then pure tt else do r ← attempt (get_version tenant version); replayed_ready r

  unfoldable pub mark_error : String → String → String → Exec (Unit {0})
  mark_error tenant version message = do
    ids ← lift (parse_model_ids tenant version)
    n ← Versions.mark_model_version_error ids.0 ids.1 message
    one_row n

  -- The version stays failed if its model is gone.
  abbrev pub model_error : ℕ → ℕ → String → Res ModelRow → Exec (Unit {0})
  model_error tenant model message (ok m) =
      Versions.mark_model_error_if_no_ready tenant model message >>= λ n. pure tt
  model_error tenant model message (err Error.no_rows) = pure tt
  model_error tenant model message (err e) = fail e

  unfoldable pub apply_error : ℕ → ℕ → ℕ → String → ℕ → String → Exec (Unit {0})
  apply_error tenant task version owner epoch message = do
    model ← Versions.mark_model_version_error_for_task tenant task version owner epoch message
    locked ← attempt (Versions.lock_model_for_version_error tenant model)
    model_error tenant model message locked

  unfoldable pub mark_error_and_maybe_model :
      String → String → String → String → ℕ → String → Exec (Unit {0})
  mark_error_and_maybe_model tenant task version owner epoch message = do
    ids ← lift (parse_model_ids tenant version)
    t ← lift (parse_id libs "task_id" task)
    transaction (apply_error ids.0 t ids.1 owner epoch message)

  unfoldable pub set_checksum : String → String → String → ℤ → Exec (Unit {0})
  set_checksum tenant version checksum size = do
    ids ← lift (parse_model_ids tenant version)
    n ← Versions.set_model_version_checksum ids.0 ids.1 checksum size
    one_row n

  -- artifactFromRow
  unfoldable pub artifact_of_row : ArtifactRow → Artifact
  artifact_of_row a = record {
    tenant_id = libs.uuid_string a.tenant_id;
    id = libs.uuid_string a.id;
    model_version_id = libs.uuid_string a.model_version_id;
    provider = a.provider;
    reference = a.reference;
    format = a.format;
    sha256 = a.sha256;
    size_bytes = pos a.size_bytes;
    is_encrypted = a.is_encrypted;
    encrypt_algo = a.encrypt_algo;
  }

  abbrev pub artifact_row : ℕ → ℕ → ℕ → Artifact → ℕ → ArtifactRow
  artifact_row tenant id version a now = record {
    tenant_id = tenant;
    id = id;
    model_version_id = version;
    provider = a.provider;
    reference = a.reference;
    format = a.format;
    size_bytes = to_column a.size_bytes;
    sha256 = a.sha256;
    is_encrypted = a.is_encrypted;
    encrypt_algo = a.encrypt_algo;
    created_at = now;
  }

  -- ArtifactStore.CreateArtifact
  unfoldable pub create_artifact : Artifact → Exec Artifact
  create_artifact a = do
    lift (validate_artifact a)
    ids ← lift (parse_model_ids a.tenant_id a.id)
    version ← lift (parse_id libs "model_version_id" a.model_version_id)
    now ← gets (λ db. db.clock)
    r ← Versions.create_model_artifact (artifact_row ids.0 ids.1 version a now)
    pure (artifact_of_row r)

  -- ArtifactStore.GetArtifact
  unfoldable pub get_artifact : String → String → Exec Artifact
  get_artifact tenant version = do
    t ← lift (parse_id libs "tenant_id" tenant)
    v ← lift (parse_id libs "model_version_id" version)
    r ← Versions.get_model_artifact t v
    pure (artifact_of_row r)
