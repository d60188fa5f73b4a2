-- ===== src/Service/Uploads.antt =====
-- CreateModelVersion of internal/service/model.go, which also finalises an upload. The object
-- storage and the audit store are interfaces, so they are functions here.
use ani_model_service.Prelude.{
  ℕ, String, Bool, true, false, ◌||◌, not, ok, err, str_eq, if◌then◌else◌, ℤ, Option, none, some,
  [],
}
use ani_model_service.Errors.{Res, Error}
use ani_model_service.Model.{Version, Artifact, validate_version, validate_engine_defaults, fails}
use ani_model_service.Identity.{Principal}
use ani_model_service.Database.Rows.{ModelRow, VersionStatus, is_ready}
use ani_model_service.Database.Exec.{Db, Libs}
use ani_model_service.VersionStore
use ani_model_service.VersionStore.Creation.{Printed, create_version}
use ani_model_service.Service.{
  Handler, answer, refuse, ◌then◌, call, map_store, authenticated, resolve_model,
}

-- CreateModelVersionRequest
pub record Request : Type 0 where
  pub tenant_id : String
  pub model_id : String
  pub version : String
  pub format : String
  pub size_bytes : ℤ
  pub checksum_sha256 : String
  pub engine_type : String
  pub engine_image : String
  pub recommended_image_id : String
  pub recommended_image_scope : String
  pub startup_command : String
  pub idempotency_key : String
  pub storage_path : String
  pub is_encrypted : Bool
  pub encrypt_algo : String

-- ObjectExists and VerifyChecksum of storage.Port, on a tenant and an object
pub record Storage : Type 0 where
  pub object_exists : String → String → Res Bool
  pub verify_checksum : String → String → String → Res (Unit {0})

-- auditbiz.Event: the fields that a creation of a version sets
pub record AuditEvent : Type 0 where
  pub tenant_id : String
  pub actor : String
  pub workload : String
  pub request_id : String
  pub model_id : String
  pub model_version_id : String
  pub action : String
  pub after_state : VersionStatus

-- The service: a store that is not configured is false or none, and one that is configured is the
-- VersionStore or the ArtifactStore. `others n` is what other connections commit before the n-th
-- call, and the two ids are those of uuid.NewString.
pub record Service : Type 0 where
  pub libs : Libs
  pub json : Printed → String
  pub versions : Bool
  pub artifacts : Bool
  pub storage : Option Storage
  pub audit : Option (AuditEvent → Res (Unit {0}))
  pub others : ℕ → Db → Db
  pub version_id : String
  pub artifact_id : String

module _ (s : Service) where
  abbrev pub audited : Res (Unit {0}) → Handler (Unit {0})
  audited (ok u) = answer tt
  audited (err e) = refuse 500 "AUDIT_UNAVAILABLE"

  -- recordAudit
  abbrev pub record_audit : Option (AuditEvent → Res (Unit {0})) → AuditEvent → Handler (Unit {0})
  record_audit none e = answer tt
  record_audit (some insert) e = audited (insert e)

  module _ (request : Request) (p : Principal) where
    abbrev pub draft : ModelRow → Version
    draft m = record {
      tenant_id = p.tenant_id;
      id = s.version_id;
      model_id = s.libs.uuid_string m.id;
      external_model_id = m.model_id;
      version = request.version;
      format = request.format;
      status = VersionStatus.pending;
      artifact_provider = "";
      artifact_reference = "";
      artifact_sha256 = request.checksum_sha256;
      engine_type = request.engine_type;
      engine_image = request.engine_image;
      startup_command = request.startup_command;
      recommended_image_id = request.recommended_image_id;
      recommended_image_scope = request.recommended_image_scope;
      startup_args = [];
      idempotency_key = request.idempotency_key;
      size_bytes = request.size_bytes;
      is_encrypted = false;
      encrypt_algo = "";
      encrypt_hint = "";
      created_at = 0;
    }

    abbrev pub uploaded_artifact : Version → Artifact
    uploaded_artifact v = record {
      tenant_id = p.tenant_id;
      id = s.artifact_id;
      model_version_id = v.id;
      provider = "upload";
      reference = request.storage_path;
      format = request.format;
      sha256 = request.checksum_sha256;
      size_bytes = request.size_bytes;
      is_encrypted = request.is_encrypted;
      encrypt_algo = request.encrypt_algo;
    }

    -- r with the provider and the path of the upload
    abbrev pub at_path : Version → Version
    at_path v = record v { artifact_provider = "upload"; artifact_reference = request.storage_path }

    abbrev pub event : Version → AuditEvent
    event v = record {
      tenant_id = p.tenant_id;
      actor = p.actor;
      workload = p.workload;
      request_id = p.request_id;
      model_id = v.model_id;
      model_version_id = v.id;
      action = "model_version.create";
      after_state = v.status;
    }

    abbrev pub audit_version : Version → Handler Version
    audit_version v = record_audit s.audit (event v) then λ u. answer v

    -- The artifact row and MarkReady of a verified object
    unfoldable pub publish : Version → Handler Version
    publish v =
        call (s.others 3) map_store (VersionStore.create_artifact s.libs (uploaded_artifact v))
        then (λ a. call (s.others 4) map_store (VersionStore.mark_ready s.libs p.tenant_id v.id))
        then λ u. audit_version (at_path (record v { status = VersionStatus.ready }))

    abbrev pub checked : Version → Res (Unit {0}) → Handler Version
    checked v (ok u) = publish v
    checked v (err Error.checksum_mismatch) = refuse 400 "CHECKSUM_MISMATCH"
    checked v (err e) = refuse 502 "STORAGE_PROVIDER_ERROR"

    abbrev pub found : Storage → Version → Res Bool → Handler Version
    found st v (err e) = refuse 502 "STORAGE_PROVIDER_ERROR"
    found st v (ok false) = refuse 404 "STORAGE_OBJECT_NOT_FOUND"
    found st v (ok true) =
        checked v (st.verify_checksum p.tenant_id request.storage_path request.checksum_sha256)

    abbrev pub verified : Option Storage → Version → Handler Version
    verified none v = refuse 503 "MODEL_DEPENDENCY_UNAVAILABLE"
    verified (some st) v =
        if not s.artifacts
        then refuse 503 "MODEL_DEPENDENCY_UNAVAILABLE"
        else found st v (st.object_exists p.tenant_id request.storage_path)

    -- The version is stored; a request with a path finalises the upload, a replay of a ready
    -- version does not.
    abbrev pub stored : Version → Handler Version
    stored v =
        if str_eq request.storage_path ""
        then audit_version v
        else if is_ready v.status
        then answer (at_path v)
        else verified s.storage v

    abbrev pub create_for : ModelRow → Handler Version
    create_for m =
        if fails (validate_version (draft m))
          || fails (
              validate_engine_defaults request.engine_type request.engine_image
                request.startup_command)
        then refuse 400 "INVALID_ARGUMENT"
        else (call (s.others 1) map_store (create_version s.libs s.json (s.others 2) (draft m))
            then λ r. stored (record r { external_model_id = m.model_id }))

  -- CreateModelVersion
  unfoldable pub create_model_version : Option Principal → Request → Handler Version
  create_model_version context request = authenticated context request.tenant_id λ p.
      if not s.versions
      then refuse 503 "MODEL_STORE_UNAVAILABLE"
      else (resolve_model (s.others 0) s.libs p.tenant_id request.model_id
          then create_for request p)
