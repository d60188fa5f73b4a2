-- ===== src/Tests/Bundles.antt =====
-- A bundle import that is sent twice (internal/data/postgres/import_bundle_store.go), and the page
-- and principal of a request (internal/service/pagination.go, internal/identity/context.go).
use ani_model_service.Prelude.{
  ℕ, ◌==◌, if◌then◌else◌, String, ◌≡◌, ◌≢◌, ◌↔◌, ◌⊎◌, refl, ok, err, none, some, [], ◌∷◌, pos,
  negsuc,
}
use ani_model_service.Errors.{Error}
use ani_model_service.Database.Table.{find}
use ani_model_service.Database.Rows.{VersionStatus}
use ani_model_service.Database.Exec.{Db}
use ani_model_service.Database.Due
use ani_model_service.Database.Registrations
use ani_model_service.Model
use ani_model_service.Model.{
  validate_bundle, validate_model_name, check_name_chars, validate_engine_defaults,
  validate_recommended_image,
}
use ani_model_service.BundleImport
use ani_model_service.BundleImport.{BundleIds, import_bundle}
use ani_model_service.BundleImport.Replay
use ani_model_service.BundleImport.Atomic
use ani_model_service.BundleImport.Race
use ani_model_service.Pagination.{Page, resolve_page, invalid_argument}
use ani_model_service.Pagination.Bounds
use ani_model_service.Identity
use ani_model_service.Identity.{Principal, require_tenant}
use ani_model_service.Tests.Data.{libs, tables}

abbrev bundle : Model.BundleImport
bundle = record {
  tenant_id = "tenant";
  idempotency_key = "key";
  name = "llama";
  display_name = "";
  description = "";
  external_model_id = "llama";
  capabilities = "chat" ∷ [];
  version = "v1";
  format = "gguf";
  engine_type = "vllm";
  engine_image = "vllm:1";
  startup_command = "serve";
  provider = "huggingface";
  repo_id = "org/llama";
  revision = "main";
  recommended_image_id = "";
  recommended_image_scope = "";
}

abbrev ids : BundleIds
ids = record { model = 21; version = 22; task = 23 }

abbrev db : Db
db = tables [] VersionStatus.ready []

abbrev print_of : Model.BundleImport → String
print_of b = "print"

abbrev alone : ℕ → Db → Db
alone n d = d

abbrev after : Db
after = (import_bundle libs print_of alone ids bundle db).1

-- Another request of the key commits its three rows before the inserts.
abbrev rival : ℕ → Db → Db
rival n d = if n == 1 then after else d

abbrev late : BundleIds
late = record { model = 31; version = 32; task = 33 }

import_bundle-import_bundle_example :
    import_bundle libs print_of alone late bundle
      (import_bundle libs print_of rival late bundle db).1
    ≡ (
      ok (
        BundleImport.bundle_model ids 1 "print" bundle 100,
        BundleImport.bundle_version ids 1 "print" bundle 100,
        BundleImport.bundle_task ids 1 "print" bundle 100,
      ),
      (import_bundle libs print_of rival late bundle db).1,
    )
unfolding import_bundle validate_bundle BundleImport.replay_bundle BundleImport.look_up
    BundleImport.import_bundle_tx BundleImport.create_aggregate Registrations.insert_model
    Registrations.insert_version Registrations.is_image_pair Due.insert_task find
    validate_model_name validate_engine_defaults validate_recommended_image
import_bundle-import_bundle_example =
    Replay.import_bundle-import_bundle libs print_of bundle rival alone late late db _ refl

import_bundle_race_example : import_bundle libs print_of rival late bundle db ≡ (
  Race.after_reading
      (BundleImport.judge "print" (BundleImport.look_up 1 bundle.idempotency_key after)),
  after,
)
unfolding import_bundle validate_bundle BundleImport.replay_bundle BundleImport.look_up
    BundleImport.import_bundle_tx BundleImport.create_aggregate Registrations.insert_model
    Registrations.insert_version Registrations.is_image_pair Due.insert_task find
    validate_model_name validate_engine_defaults validate_recommended_image
import_bundle_race_example =
    Race.import_bundle_race libs print_of rival late bundle 1 db
      (BundleImport.bundle_model ids 1 "print" bundle 100) refl refl refl refl refl

abbrev nameless : Model.BundleImport
nameless = record bundle { name = "qwen"; external_model_id = "qwen" }

import_bundle_err_example :
    Atomic.IsCommitted alone db (import_bundle libs print_of alone ids nameless db).1
unfolding import_bundle validate_bundle BundleImport.replay_bundle BundleImport.look_up
    BundleImport.import_bundle_tx BundleImport.create_aggregate Registrations.insert_model find
    validate_model_name validate_engine_defaults validate_recommended_image
import_bundle_err_example =
    Atomic.import_bundle_err libs print_of alone ids nameless db Error.unique_violation refl

abbrev third : Page
third = record { limit = 20; offset = 40 }

resolve_page_iff_example :
    (resolve_page (some (pos 3)) none ≡ ok third) ↔ Bounds.Accepted (some (pos 3)) none third
resolve_page_iff_example = Bounds.resolve_page_iff (some (pos 3)) none third

negative_page : resolve_page (some (negsuc 0)) none ≡ err invalid_argument
unfolding resolve_page
negative_page = refl

abbrev principal : Principal
principal = record {
  tenant_id = "tenant";
  actor = "user";
  workload = "console";
  request_id = "1";
  scopes = [];
}

require_tenant_iff_example :
    (require_tenant (some principal) principal.tenant_id ≡ ok principal) ↔ (
      (some principal ≡ some principal)
      × (principal.tenant_id ≢ "")
      × (principal.actor ≢ "")
      × (principal.workload ≢ "")
      × ((principal.tenant_id ≡ "") ⊎ (principal.tenant_id ≡ principal.tenant_id)))
require_tenant_iff_example =
    Identity.require_tenant_iff (some principal) principal.tenant_id principal
