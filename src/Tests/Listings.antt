-- ===== src/Tests/Listings.antt =====
-- A list of three models, read in pages and after a row (internal/data/postgres/model_store.go).
use ani_model_service.Prelude.{
  ◌+◌, ◌==◌, ◌≢◌, ap, false, true, ◌↔◌, ◌-◌, ◌*◌, ◌≡◌, refl, String, ◌&&◌, ok, pos, List, [], ◌∷◌,
  length, take, drop, arith,
}
use ani_model_service.Database.Table.{select, count}
use ani_model_service.Database.Rows.{ModelRow, VersionRow, ModelStatus, VersionStatus, is_live}
use ani_model_service.Database.Exec.{Db}
use ani_model_service.Listing.{ListOptions, Position, place, newest_first}
use ani_model_service.Listing.Models.{is_listed, model_position, list_models}
use ani_model_service.Listing.Order.{Descends}
use ani_model_service.Listing.Keyset
use ani_model_service.Listing.Keyset.{after_row, skipping, models_of, IsKeyed}
use ani_model_service.Listing.Versions
use ani_model_service.Listing.Versions.{
  joined_version, version_position, list_versions_page, list_versions, count_versions,
  count_model_versions, select_versions,
}
use ani_model_service.Listing.VersionPages
use ani_model_service.VersionStore.{parse_model_ids}
use ani_model_service.Model.{Version}
use ani_model_service.Listing.Pages
use ani_model_service.Listing.Pages.{gather, page_request}
use ani_model_service.Tests.Data.{libs, tables, model, version}

abbrev lower : String → String
lower s = s

abbrev options : ListOptions
options = record {
  status = "";
  keyword = "";
  source = "";
  capability = "";
  limit = pos 2;
  offset = pos 0;
  before_created_at = 0;
  before_id = "";
}

abbrev older : ModelRow
older = record model { id = 2; created_at = 40; status = ModelStatus.ready }

abbrev newer : ModelRow
newer = record model { id = 4; created_at = 50; status = ModelStatus.ready }

abbrev foreign : ModelRow
foreign = record model { tenant_id = 9; created_at = 60; status = ModelStatus.ready }

abbrev middle : ModelRow
middle = record model { created_at = 40; status = ModelStatus.pending }

abbrev gone : ModelRow
gone = record model { id = 5; created_at = 70; status = ModelStatus.deleted }

abbrev db : Db
db = record (tables [] VersionStatus.ready []) {
  models = older ∷ gone ∷ newer ∷ foreign ∷ middle ∷ [];
}

differ : (k j : Position) → (k.0 * 10 + k.1 == j.0 * 10 + j.1) ≡ false → k ≢ j
differ k j h e = ground (arith, h, ap (λ x. x.0 * 10 + x.1) e)

keyed : IsKeyed (λ m. m.tenant_id) model_position db.models
keyed = (
  (
    differ (1, 5) (1, 2) refl,
    (differ (1, 4) (1, 2) refl, (differ (9, 3) (1, 2) refl, (differ (1, 3) (1, 2) refl, tt))),
  ),
  (
    (differ (1, 4) (1, 5) refl, (differ (9, 3) (1, 5) refl, (differ (1, 3) (1, 5) refl, tt))),
    (
      (differ (9, 3) (1, 4) refl, (differ (1, 3) (1, 4) refl, tt)),
      ((differ (1, 3) (9, 3) refl, tt), (tt, tt)),
    ),
  ),
)

list_models_pages_example :
    (gather (λ k. page_request lower libs "tenant" options 2 k db) 2
      ≡ ok (models_of lower 1 options db))
    × Descends model_position (models_of lower 1 options db)
    × (count (λ m. is_live m.status) (models_of lower 1 options db)
        ≡ count (λ m. is_listed lower 1 options m && is_live m.status) db.models)
    × (page_request lower libs "tenant" options 2 2 db
        ≡ ok (
          take 2 (drop ((2 - 1) * 2) (models_of lower 1 options db)),
          length (models_of lower 1 options db),
        ))
list_models_pages_example =
    Pages.list_models_pages lower libs "tenant" options 1 db 2 2 2 (λ m. is_live m.status) refl
      (omega arith) (omega arith) (omega arith) (omega arith) (omega arith)
      (unfold count in omega arith) keyed

list_models-keyset_example :
    (list_models lower libs "tenant" (after_row libs newer 5 options) db
      ≡ (ok (take 5 (middle ∷ older ∷ [])), db))
    × (list_models lower libs "tenant" (skipping 1 5 options) db
        ≡ (ok (take 5 (middle ∷ older ∷ [])), db))
list_models-keyset_example =
    Keyset.list_models-keyset lower libs "tenant" 1 options 5 db [] newer (middle ∷ older ∷ []) refl
      (omega arith) (omega arith) (omega arith) refl (ground arith) (ground arith) keyed
      (unfold select newest_first place in refl)

abbrev pending_version : VersionRow
pending_version = record (version VersionStatus.pending) { id = 8; version = "v2" }

abbrev versions : Db
versions = record (tables [] VersionStatus.ready []) {
  versions = pending_version ∷ version VersionStatus.ready ∷ [];
}

abbrev ready_only : ListOptions
ready_only = record options { status = "ready" }

abbrev listed : List Version
listed = VersionPages.versions_of libs "tenant" "model" (1, 3) ready_only versions

version_keys : IsKeyed (λ r. r.tenant_id) version_position versions.versions
version_keys = ((differ (1, (version VersionStatus.ready).id) (1, 8) refl, tt), (tt, tt))

list_versions_pages_example :
    (gather (VersionPages.page_request libs "tenant" "model" (1, 3) ready_only versions 1) 2
      ≡ ok listed)
    × Descends version_position
        (VersionPages.rows_of libs "tenant" "model" (1, 3) ready_only versions)
    × (count (λ r. false) (VersionPages.rows_of libs "tenant" "model" (1, 3) ready_only versions)
        ≡ count (λ r. Versions.is_listed versions 1 3 ready_only r && false) versions.versions)
    × ((Versions.is_listed versions 1 3 ready_only pending_version ≡ true)
        ↔ VersionPages.IsShown versions 1 3 "ready" pending_version)
    × (VersionPages.page_request libs "tenant" "model" (1, 3) ready_only versions 1 1
        ≡ ok (take 1 (drop ((1 - 1) * 1) listed), length listed))
unfolding parse_model_ids
list_versions_pages_example =
    VersionPages.list_versions_pages libs "tenant" "model" (1, 3) ready_only versions 1 2 1
      (λ r. false) pending_version refl (omega arith) (omega arith) (omega arith) (omega arith)
      (omega arith) (unfold count in omega arith) version_keys
