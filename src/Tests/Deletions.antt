-- ===== src/Tests/Deletions.antt =====
-- A deletion of a model (internal/data/postgres/deletion_store.go).
use ani_model_service.Prelude.{String, ok, [], Bool, any, str_eq}
use ani_model_service.Database.Rows.{VersionStatus}
use ani_model_service.Database.Exec.{Db}
use ani_model_service.Deletion.{ReferenceChecker}
use ani_model_service.Deletion.Protection
use ani_model_service.Tests.Data.{tables}

abbrev db : Db
db = tables [] VersionStatus.ready []

abbrev is_active : String → Bool
is_active id = str_eq id "version"

abbrev refs : ReferenceChecker
refs tenant batch = ok (any is_active batch)
