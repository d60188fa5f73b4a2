-- ===== src/Tests/Imports.antt =====
-- An imported object that is recorded twice, and the paths of an archive
-- (internal/worker/import_executor.go).
use ani_model_service.Prelude.{◌≡◌, ◌↔◌, ◌⊎◌, refl, ok, [], pos, All}
use ani_model_service.Text.{is_sha256, codes, has_prefix}
use ani_model_service.Text.Paths.{clean, segments, resolve, resolve_all, join, dot_dot}
use ani_model_service.Text.Paths.Cleaning.{IsPlain}
use ani_model_service.Model.{validate_artifact}
use ani_model_service.Database.Rows.{VersionStatus}
use ani_model_service.Database.Exec.{Db}
use ani_model_service.Database.Versions
use ani_model_service.Work.{Task}
use ani_model_service.VersionStore
use ani_model_service.ImportExecutor.{ImportResult, persist_artifact}
use ani_model_service.ImportExecutor.Recording
use ani_model_service.ImportExecutor.Archive
use ani_model_service.ImportExecutor.Archive.{validate_archive_path}
use ani_model_service.Tests.Data.{libs, tables, task, digest}

abbrev result : ImportResult
result = record {
  object_ref = "tenant/model.tar";
  format = "gguf";
  size_bytes = pos 30;
  checksum_sha256 = digest;
}

abbrev db : Db
db = record (tables [] VersionStatus.pending []) { artifacts = [] }

abbrev imported : Task
imported = record task { id = "registration" }

abbrev after : Db
after = (persist_artifact libs imported result db).1

persist-persist_example : persist_artifact libs imported result after ≡ (ok tt, after)
unfolding persist_artifact VersionStore.create_artifact VersionStore.parse_model_ids
    validate_artifact is_sha256 Versions.create_model_artifact
persist-persist_example = Recording.persist-persist libs imported result db after refl refl

validate_archive_path_iff_example : (validate_archive_path "weights/model.gguf" ≡ ok tt) ↔ (
    Archive.IsClean (codes "weights/model.gguf")
    × ((codes "weights/model.gguf" ≡ dot_dot)
        ⊎ All IsPlain (segments (codes "weights/model.gguf"))))
validate_archive_path_iff_example = Archive.validate_archive_path_iff "weights/model.gguf"

-- The parent directory is accepted.
validate_archive_path_parent : validate_archive_path ".." ≡ ok tt
unfolding validate_archive_path clean segments resolve_all resolve join has_prefix
validate_archive_path_parent = refl
