-- ===== src/Tests/Versions.antt =====
-- A version that becomes ready and is looked up (internal/data/postgres/version_store.go).
use ani_model_service.Prelude.{◌≡◌, refl, false, some, List, [], ◌∷◌, arith, pos, true, eq_iff}
use ani_model_service.Text.{is_sha256}
use ani_model_service.Database.Table.{find, update, count}
use ani_model_service.Database.Rows.{VersionRow, is_ready, VersionStatus, TaskRow, RegistrationRow}
use ani_model_service.Database.Exec.{Db}
use ani_model_service.Database.Versions
use ani_model_service.Model.{
  Version, Artifact, validate_artifact, deployment_input, validate_version,
}
use ani_model_service.VersionStore
use ani_model_service.VersionStore.Integrity.{IsIntact}
use ani_model_service.VersionStore.Intact
use ani_model_service.VersionStore.Intact.{Call, run}
use ani_model_service.VersionStore.Lookup
use ani_model_service.Tests.Data.{libs, tables, pending_row, digest, artifact, version, model}

abbrev pending_db : Db
pending_db = tables (pending_row ∷ []) VersionStatus.pending []

abbrev ready_db : Db
ready_db = tables (pending_row ∷ []) VersionStatus.ready []

digest-is_sha256 : is_sha256 digest ≡ true
unfolding is_sha256
digest-is_sha256 = refl

pending_db-IsIntact : IsIntact pending_db
unfolding count find
pending_db-IsIntact = record {
  single = λ tenant version. ground arith;
  artifacts = (
    record {
      digest = digest-is_sha256;
      provided = ground (arith, eq_iff "upload" "");
      referenced = ground (arith, eq_iff "objects/1" "");
    },
    tt,
  );
  backed = (λ h. cc, tt);
}

pub ready_tables-IsIntact :
    (tasks : List TaskRow) (registrations : List RegistrationRow)
    → IsIntact (tables tasks VersionStatus.ready registrations)
unfolding count find
ready_tables-IsIntact tasks registrations = record {
  single = λ tenant version. ground arith;
  artifacts = pending_db-IsIntact.artifacts;
  backed = (
    λ h. (
      artifact,
      refl,
      refl,
      ground (arith, eq_iff "objects/1" ""),
      ground (arith, eq_iff digest ""),
    ),
    tt,
  );
}

abbrev calls : List Call
calls =
    Call.mark_ready "tenant" "version"
    ∷ Call.set_checksum "tenant" "version" digest (pos 10)
    ∷ Call.mark_error "tenant" "version" "late"
    ∷ []

run-IsIntact_example : IsIntact (run libs calls pending_db)
run-IsIntact_example = Intact.run-IsIntact libs calls pending_db pending_db-IsIntact

abbrev looked_up : Version
looked_up =
    VersionStore.version_of_row libs "tenant" "version"
      (version VersionStatus.ready, model, artifact)

-- The same tables without an artifact; then an artifact is created and the version marked ready.
abbrev bare_db : Db
bare_db = record pending_db { artifacts = [] }

abbrev uploaded : Artifact
uploaded = record {
  tenant_id = "tenant";
  id = "registration";
  model_version_id = "version";
  provider = "upload";
  reference = "objects/1";
  format = "gguf";
  sha256 = digest;
  size_bytes = pos 10;
  is_encrypted = false;
  encrypt_algo = "";
}

abbrev publishing : List Call
publishing = Call.create_artifact uploaded ∷ Call.mark_ready "tenant" "version" ∷ []

run-deployable_example :
    (deployment_input looked_up ≡ validate_version looked_up)
    × (is_sha256 looked_up.artifact_sha256 ≡ true)
    × (v : VersionRow) × (find (Versions.is_version 1 4) (run libs publishing bare_db).versions
        ≡ some v)
    × (is_ready v.status ≡ true)
    × (looked_up.artifact_sha256 ≡ v.checksum_sha256)
unfolding VersionStore.get_version VersionStore.parse_model_ids Versions.get_ready_model_version
    find VersionStore.create_artifact VersionStore.mark_ready Versions.mark_model_version_ready
    update Versions.create_model_artifact count is_sha256 validate_artifact
    VersionStore.version_of_row
run-deployable_example =
    Lookup.run-deployable libs publishing bare_db "tenant" "version" (1, 4) looked_up refl
      (refl, tt) refl refl
