-- ===== src/Tests/Models.antt =====
-- Creations of a model and of a version that are sent twice (internal/data/postgres/model_store.go
-- and version_store.go).
use ani_model_service.Prelude.{pos, false, String, ◌≡◌, refl, ok, [], ◌∷◌, eq_iff, arith}
use ani_model_service.Database.Table.{find}
use ani_model_service.Database.Rows.{VersionStatus}
use ani_model_service.Database.Exec.{Db}
use ani_model_service.Database.Registrations
use ani_model_service.VersionStore.{parse_model_ids}
use ani_model_service.VersionStore.Creation.{
  Printed, create_version, create_row, insert_version, get_version_by_idempotency,
  version_fingerprint, version_from_row, new_version,
}
use ani_model_service.VersionStore.Recreation
use ani_model_service.Model.{Version}
use ani_model_service.ModelStore
use ani_model_service.ModelStore.{Fields, create_model_with_external_id}
use ani_model_service.ModelStore.Creation
use ani_model_service.Tests.Data.{libs, tables, digest}

abbrev fields : Fields
fields = record {
  external_model_id = "llama";
  name = "llama";
  display_name = "";
  description = "";
  source = "upload";
  capabilities = "chat" ∷ [];
}

abbrev json : Fields → String
json f = f.name

abbrev db : Db
db = tables [] VersionStatus.ready []

-- The tables after the creation, which another connection can have committed.
abbrev after : Db → Db
after d = (create_model_with_external_id libs json (λ x. x) "tenant" "task" fields "key" d).1

create_model-create_model_example :
    create_model_with_external_id libs json (λ x. db) "tenant" "version" fields "key" (after db)
    ≡ (ok (ModelStore.new_model 100 1 2 fields "key" "digest"), after db)
unfolding create_model_with_external_id ModelStore.create_parsed ModelStore.insert_model
    ModelStore.get_model_by_idempotency ModelStore.fingerprint Registrations.insert_model
    parse_model_ids find
create_model-create_model_example =
    Creation.create_model-create_model libs json (λ x. x) (λ x. db) "tenant" "task" "version" 4
      fields "key" db (after db) (ModelStore.new_model 100 1 2 fields "key" "digest")
      (ground (arith, eq_iff "key" "")) refl refl

abbrev version : Version
version = record {
  tenant_id = "tenant";
  id = "task";
  model_id = "model";
  external_model_id = "";
  version = "v9";
  format = "gguf";
  status = VersionStatus.pending;
  artifact_provider = "";
  artifact_reference = "";
  artifact_sha256 = digest;
  engine_type = "";
  engine_image = "";
  startup_command = "";
  recommended_image_id = "";
  recommended_image_scope = "";
  startup_args = [];
  idempotency_key = "again";
  size_bytes = pos 7;
  is_encrypted = false;
  encrypt_algo = "";
  encrypt_hint = "";
  created_at = 0;
}

abbrev print : Printed → String
print p = p.version

abbrev created : Db → Db
created d = (create_version libs print (λ x. x) version d).1

create_version-create_version_example :
    create_version libs print (λ x. db) (record version { id = "version" }) (created db)
    ≡ (ok (version_from_row libs "tenant" (new_version 100 1 2 3 7 version "digest")), created db)
unfolding create_version create_row insert_version get_version_by_idempotency version_fingerprint
    Registrations.insert_version parse_model_ids find Registrations.is_image_pair
create_version-create_version_example =
    Recreation.create_version-create_version libs print (λ x. x) (λ x. db) "version" 4 version
      (version_from_row libs "tenant" (new_version 100 1 2 3 7 version "digest")) db (created db)
      (ground (arith, eq_iff "again" "")) refl refl
