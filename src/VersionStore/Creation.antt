-- ===== src/VersionStore/Creation.antt =====
-- CreateVersion of internal/data/postgres/version_store.go, with GetModelVersionByIdempotency and
-- CreateModelVersion of model.sql.go.
use ani_model_service.Prelude.{
  ℕ, String, Bool, false, ◌&&◌, not, ok, err, ◌==◌, str_eq, if◌then◌else◌, ℤ, pos, negsuc, List,
  any,
}
use ani_model_service.Errors.{Res, Error}
use ani_model_service.Model.{Version}
use ani_model_service.Database.Table.{find}
use ani_model_service.Database.Rows.{VersionRow, VersionStatus, is_live}
use ani_model_service.Database.Exec.{
  Db, Exec, pure, fail, lift, row, attempt, ◌>>=◌, ◌>>◌, Libs, parse_id,
}
use ani_model_service.Database.Registrations
use ani_model_service.Database.Versions.{is_model}
use ani_model_service.VersionStore.{parse_model_ids}

-- The struct that versionFingerprint marshals.
pub record Printed : Type 0 where
  pub model_id : String
  pub version : String
  pub format : String
  pub artifact_reference : String
  pub artifact_sha256 : String
  pub engine_type : String
  pub engine_image : String
  pub startup_command : String
  pub startup_args : List String
  pub recommended_image_id : String
  pub recommended_image_scope : String

abbrev pub printed : Version → Printed
printed v = record {
  model_id = v.model_id;
  version = v.version;
  format = v.format;
  artifact_reference = v.artifact_reference;
  artifact_sha256 = v.artifact_sha256;
  engine_type = v.engine_type;
  engine_image = v.engine_image;
  startup_command = v.startup_command;
  startup_args = v.startup_args;
  recommended_image_id = v.recommended_image_id;
  recommended_image_scope = v.recommended_image_scope;
}

abbrev pub has_key : ℕ → String → VersionRow → Bool
has_key tenant key v = v.tenant_id == tenant && str_eq v.idempotency_key key

-- GetModelVersionByIdempotency
unfoldable pub get_version_by_idempotency : ℕ → String → Exec VersionRow
get_version_by_idempotency tenant key db = (row (find (has_key tenant key) db.versions), db)

-- The row of CreateModelVersion: a pending version that is not encrypted.
abbrev pub new_version : ℕ → ℕ → ℕ → ℕ → ℕ → Version → String → VersionRow
new_version now tenant id model size v print = record {
  tenant_id = tenant;
  id = id;
  model_id = model;
  version = v.version;
  format = v.format;
  status = VersionStatus.pending;
  is_encrypted = false;
  encrypt_algo = "";
  encrypt_hint = "";
  size_bytes = size;
  checksum_sha256 = v.artifact_sha256;
  engine_type = v.engine_type;
  engine_image = v.engine_image;
  recommended_image_id = v.recommended_image_id;
  recommended_image_scope = v.recommended_image_scope;
  startup_command = v.startup_command;
  startup_args = v.startup_args;
  error_message = "";
  idempotency_key = v.idempotency_key;
  request_fingerprint = print;
  created_at = now;
  updated_at = now;
}

-- CHECK (size_bytes >= 0)
abbrev pub insert_sized : ℕ → ℕ → ℕ → Version → String → ℤ → Exec VersionRow
insert_sized tenant id model v print (pos size) db =
    (Registrations.insert_version (new_version db.clock tenant id model size v print)
        >> pure (new_version db.clock tenant id model size v print))
      db
insert_sized tenant id model v print (negsuc n) db = (err Error.check_violation, db)

-- CreateModelVersion: no live parent model means no row.
unfoldable pub insert_version : ℕ → ℕ → ℕ → Version → String → Exec VersionRow
insert_version tenant id model v print db =
    if any (λ m. is_model tenant model m && is_live m.status) db.models
    then insert_sized tenant id model v print v.size_bytes db
    else (err Error.no_rows, db)

-- versionFromRow
unfoldable pub version_from_row : Libs → String → VersionRow → Version
version_from_row libs tenant v = record {
  tenant_id = tenant;
  id = libs.uuid_string v.id;
  model_id = libs.uuid_string v.model_id;
  external_model_id = "";
  version = v.version;
  format = v.format;
  status = v.status;
  artifact_provider = "";
  artifact_reference = "";
  artifact_sha256 = v.checksum_sha256;
  engine_type = v.engine_type;
  engine_image = v.engine_image;
  startup_command = v.startup_command;
  recommended_image_id = v.recommended_image_id;
  recommended_image_scope = v.recommended_image_scope;
  startup_args = v.startup_args;
  idempotency_key = "";
  size_bytes = pos v.size_bytes;
  is_encrypted = v.is_encrypted;
  encrypt_algo = v.encrypt_algo;
  encrypt_hint = v.encrypt_hint;
  created_at = v.created_at;
}

-- `json` is the text that json.Marshal makes of the struct.
module _ (libs : Libs) (json : Printed → String) where
  -- versionFingerprint
  unfoldable pub version_fingerprint : Version → String
  version_fingerprint v = libs.sha256_hex (json (printed v))

  -- `between` is what other connections commit after the lookup and before the insert.
  abbrev pub looked_up : (Db → Db) → ℕ → ℕ → ℕ → Version → Res VersionRow → Exec VersionRow
  looked_up between tenant id model v (ok r) =
      if not (str_eq r.request_fingerprint (version_fingerprint v))
      then fail Error.unique_violation
      else pure r
  looked_up between tenant id model v (err Error.no_rows) =
      λ db. insert_version tenant id model v (version_fingerprint v) (between db)
  looked_up between tenant id model v (err e) = fail e

  unfoldable pub create_row : (Db → Db) → ℕ → ℕ → ℕ → Version → Exec VersionRow
  create_row between tenant id model v =
      if not (str_eq v.idempotency_key "")
      then (attempt (get_version_by_idempotency tenant v.idempotency_key)
          >>= looked_up between tenant id model v)
      else λ db. insert_version tenant id model v (version_fingerprint v) (between db)

  -- CreateVersion
  unfoldable pub create_version : (Db → Db) → Version → Exec Version
  create_version between v = do
    ids ← lift (parse_model_ids libs v.tenant_id v.id)
    model ← lift (parse_id libs "model_id" v.model_id)
    r ← create_row between ids.0 ids.1 model v
    pure (version_from_row libs v.tenant_id r)
