-- ===== src/Tests/Uploads.antt =====
-- An upload that CreateModelVersion finalises (internal/service/model.go).
use ani_model_service.Prelude.{◌≡◌, refl, true, false, ok, pos, some, [], arith, eq_iff}
use ani_model_service.Text.{trim_text, is_sha256}
use ani_model_service.Model.{
  Version, validate_version, validate_engine_defaults, validate_recommended_image,
  validate_artifact,
}
use ani_model_service.Identity.{Principal, require_tenant, from_context}
use ani_model_service.Database.Table.{find, count}
use ani_model_service.Database.Rows.{VersionStatus}
use ani_model_service.Database.Exec.{Db}
use ani_model_service.Database.Registrations
use ani_model_service.Database.Versions
use ani_model_service.VersionStore
use ani_model_service.VersionStore.{parse_model_ids}
use ani_model_service.VersionStore.Integrity.{IsIntact}
use ani_model_service.VersionStore.Creation.{
  create_version, create_row, insert_version, get_version_by_idempotency, version_fingerprint,
  version_from_row, new_version,
}
use ani_model_service.Service.{resolve_model, get_model, get_model_by_external_id}
use ani_model_service.Service.Uploads.{
  Service, Request, Storage, create_model_version, publish, draft,
}
use ani_model_service.Service.Intact
use ani_model_service.Service.Verified
use ani_model_service.Service.Verified.{Outcome}
use ani_model_service.Tests.Data
use ani_model_service.Tests.Versions.{ready_tables-IsIntact}
use ani_model_service.Tests.Data.{libs, tables, digest}

abbrev principal : Principal
principal = record {
  tenant_id = "tenant";
  actor = "ann";
  workload = "governance";
  request_id = "r1";
  scopes = [];
}

abbrev storage : Storage
storage = record {
  object_exists = λ tenant path. ok true;
  verify_checksum = λ tenant path sha. ok tt;
}

abbrev service : Service
service = record {
  libs = libs;
  json = λ p. p.version;
  versions = true;
  artifacts = true;
  storage = some storage;
  audit = some (λ e. ok tt);
  others = λ n d. d;
  version_id = "task";
  artifact_id = "registration";
}

abbrev request : Request
request = record {
  tenant_id = "tenant";
  model_id = "qwen";
  version = "v9";
  format = "gguf";
  size_bytes = pos 7;
  checksum_sha256 = digest;
  engine_type = "vllm";
  engine_image = "vllm:1";
  recommended_image_id = "";
  recommended_image_scope = "";
  startup_command = "serve";
  idempotency_key = "again";
  storage_path = "objects/2";
  is_encrypted = false;
  encrypt_algo = "";
}

abbrev db : Db
db = tables [] VersionStatus.ready []

abbrev finalised : Db
finalised = (create_model_version service (some principal) request db).1

abbrev answered : Version
answered =
    record (version_from_row libs "tenant"
      (new_version 100 1 2 3 7 (draft service request principal (record Data.model {})) "digest")) {
        external_model_id = "qwen";
        status = VersionStatus.ready;
        artifact_provider = "upload";
        artifact_reference = "objects/2";
      }

create_model_version_ok_example :
    (p : Principal) × (require_tenant (some principal) "tenant" ≡ ok p)
    × Outcome service request p answered finalised
unfolding create_model_version resolve_model get_model get_model_by_external_id create_version
    create_row insert_version get_version_by_idempotency version_fingerprint version_from_row
    Registrations.insert_version Registrations.is_image_pair parse_model_ids find require_tenant
    from_context publish VersionStore.create_artifact VersionStore.mark_ready validate_artifact
    validate_version validate_recommended_image validate_engine_defaults
    Versions.create_model_artifact Versions.mark_model_version_ready count trim_text is_sha256
create_model_version_ok_example =
    Verified.create_model_version_ok service (some principal) request answered db finalised
      (ground (arith, eq_iff "objects/2" "")) refl

create_model_version-IsIntact_example : IsIntact finalised
create_model_version-IsIntact_example =
    Intact.create_model_version-IsIntact service (λ n d k. k) (some principal) request db
      (ready_tables-IsIntact [] [])
