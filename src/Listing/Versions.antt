-- ===== src/Listing/Versions.antt =====
-- The lists of the versions of a model: ListModelVersions and CountModelVersions of
-- internal/data/postgres/model.sql.go, and the operations of version_store.go on them.
use ani_model_service.Prelude.{
  ℕ, String, Bool, ◌&&◌, not, ◌==◌, Option, none, some, pos, List, map, any,
}
use ani_model_service.Model.{Version}
use ani_model_service.Database.Table.{find, count}
use ani_model_service.Database.Rows.{
  ModelRow, VersionRow, VersionStatus, ArtifactRow, is_live, is_deleted,
}
use ani_model_service.Database.Exec.{Db, Exec, pure, lift, gets, transaction, ◌>>=◌, Libs}
use ani_model_service.Database.Versions.{is_model, is_artifact}
use ani_model_service.VersionStore.{parse_model_ids}
use ani_model_service.Listing.{ListOptions, Position, list_boundary, int32_of, query}
use ani_model_service.Listing.Models.{is_wanted}

abbrev pub version_position : VersionRow → Position
version_position v = (v.created_at, v.id)

abbrev pub version_status_text : VersionStatus → String
version_status_text VersionStatus.pending = "pending"
version_status_text VersionStatus.importing = "importing"
version_status_text VersionStatus.ready = "ready"
version_status_text VersionStatus.error = "error"
version_status_text VersionStatus.deleted = "deleted"

-- The WHERE clause that both statements have, with the join on the live model
abbrev pub is_listed : Db → ℕ → ℕ → ListOptions → VersionRow → Bool
is_listed db tenant model o v =
    (v.tenant_id == tenant && v.model_id == model)
    && (not (is_deleted v.status)
        && (any (λ m. is_model v.tenant_id v.model_id m && is_live m.status) db.models
            && is_wanted o.status (version_status_text v.status)))

abbrev pub external_id : Option ModelRow → String
external_id none = ""
external_id (some m) = m.model_id

-- COALESCE(a.provider, ''), COALESCE(a.reference, '')
abbrev pub provider_of : Option ArtifactRow → String
provider_of none = ""
provider_of (some a) = a.provider

abbrev pub reference_of : Option ArtifactRow → String
reference_of none = ""
reference_of (some a) = a.reference

unfoldable pub count_model_versions : ℕ → ℕ → ListOptions → Exec ℕ
count_model_versions tenant model o = gets (λ db. count (is_listed db tenant model o) db.versions)

unfoldable pub select_versions : ℕ → ℕ → ListOptions → Option Position → Exec (List VersionRow)
select_versions tenant model o before db = (
  query version_position (is_listed db tenant model o) before (int32_of o.offset) o.limit
      db.versions,
  db,
)

module _ (libs : Libs) where
  -- listedVersion of a row and the joined columns. Its checksum and its size are those of the
  -- version row.
  unfoldable pub listed_version : VersionRow → Option ModelRow → Option ArtifactRow → Version
  listed_version v m a = record {
    tenant_id = libs.uuid_string v.tenant_id;
    id = libs.uuid_string v.id;
    model_id = libs.uuid_string v.model_id;
    external_model_id = external_id m;
    version = v.version;
    format = v.format;
    status = v.status;
    artifact_provider = provider_of a;
    artifact_reference = reference_of a;
    artifact_sha256 = v.checksum_sha256;
    engine_type = v.engine_type;
    engine_image = v.engine_image;
    startup_command = v.startup_command;
    recommended_image_id = v.recommended_image_id;
    recommended_image_scope = v.recommended_image_scope;
    startup_args = v.startup_args;
    idempotency_key = "";
    size_bytes = pos v.size_bytes;
    is_encrypted = v.is_encrypted;
    encrypt_algo = v.encrypt_algo;
    encrypt_hint = v.encrypt_hint;
    created_at = v.created_at;
  }

  abbrev pub joined_version : Db → VersionRow → Version
  joined_version db v =
      listed_version v (find (is_model v.tenant_id v.model_id) db.models)
        (find (is_artifact v.tenant_id v.id) db.artifacts)

  -- ListVersions
  unfoldable pub list_versions : String → String → ListOptions → Exec (List Version)
  list_versions tenant model o = do
    ids ← lift (parse_model_ids libs tenant model)
    before ← lift (list_boundary libs o)
    rows ← select_versions ids.0 ids.1 o before
    gets (λ db. map (joined_version db) rows)

  -- CountModelVersions of the store
  unfoldable pub count_versions : String → String → ListOptions → Exec ℕ
  count_versions tenant model o =
      lift (parse_model_ids libs tenant model) >>= λ ids. count_model_versions ids.0 ids.1 o

  -- ListVersionsPage: both statements in one repeatable-read transaction
  unfoldable pub list_versions_page : String → String → ListOptions → Exec (List Version × ℕ)
  list_versions_page tenant model o = transaction (do
    total ← count_versions tenant model o
    versions ← list_versions tenant model o
    pure (versions, total))
