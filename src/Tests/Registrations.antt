-- ===== src/Tests/Registrations.antt =====
-- The registration and publication of a trained artifact
-- (internal/data/postgres/trained_artifact_store.go).
use ani_model_service.Prelude.{◌≡◌, refl, ok, some, is_none, List, [], ◌∷◌, arith, false, eq_iff}
use ani_model_service.Errors.{Error}
use ani_model_service.Text.{is_sha256}
use ani_model_service.Database.Table.{find, update, count}
use ani_model_service.Database.Rows.{VersionStatus, RegistrationStatus}
use ani_model_service.Database.Exec.{Db}
use ani_model_service.Database.Versions
use ani_model_service.Database.Registrations
use ani_model_service.Database.Registrations.{is_registration}
use ani_model_service.VersionStore.Integrity.{IsIntact}
use ani_model_service.TrainedArtifactStore
use ani_model_service.TrainedArtifactStore.Complete
use ani_model_service.TrainedArtifactStore.Prepare
use ani_model_service.TrainedArtifactStore.Moves.{IsKeyed}
use ani_model_service.TrainedArtifactStore.Calls.{Call, run}
use ani_model_service.TrainedArtifactStore.Terminal
use ani_model_service.TrainedArtifactStore.Replay
use ani_model_service.TrainedArtifactStore.Atomic
use ani_model_service.TrainedArtifactStore.Atomic.{SameCatalog}
use ani_model_service.TrainedArtifactStore.Preparing
use ani_model_service.TrainedArtifactStore.Repeating
use ani_model_service.Tests.Data.{libs, text_of, fresh, tables, registration_row, registration}
use ani_model_service.Tests.Versions.{ready_tables-IsIntact}

abbrev uploaded_db : Db
uploaded_db = tables [] VersionStatus.ready (registration_row RegistrationStatus.uploaded ∷ [])

abbrev failed_db : Db
failed_db = tables [] VersionStatus.ready (registration_row RegistrationStatus.failed ∷ [])

abbrev empty_db : Db
empty_db = tables [] VersionStatus.ready []

uploaded_db-IsKeyed : IsKeyed uploaded_db.registrations
unfolding count
uploaded_db-IsKeyed tenant id = ground arith

failed_db-IsKeyed : IsKeyed failed_db.registrations
unfolding count
failed_db-IsKeyed tenant id = ground arith

abbrev calls : List Call
calls =
    Call.abort "tenant" "registration" "unwanted"
    ∷ Call.mark_uploaded "tenant" "registration"
    ∷ Call.complete fresh "tenant" "registration"
    ∷ []

run-settled_example :
    find (is_registration 1 5) (run libs text_of calls failed_db).registrations
    ≡ some (registration_row RegistrationStatus.failed)
unfolding find
run-settled_example =
    Terminal.run-settled libs text_of calls failed_db 1 5
      (registration_row RegistrationStatus.failed) failed_db-IsKeyed refl refl

abbrev published : Db
published = (Complete.complete libs text_of fresh "tenant" "registration" uploaded_db).1

complete-complete_example :
    Complete.complete libs text_of
      (record fresh { version = 10 })
      "tenant"
      "registration"
      (run libs text_of calls published)
    ≡ (
      ok (
          TrainedArtifactStore.registration_result libs
            (Registrations.published 100 3 8 (registration_row RegistrationStatus.uploaded))),
      run libs text_of calls published,
    )
unfolding Complete.complete Complete.complete_row TrainedArtifactStore.parse_registration_ids
    Registrations.get_registration Registrations.lock_live_model Registrations.insert_version
    Registrations.is_image_pair Versions.create_model_artifact is_sha256 Registrations.grow_model
    Registrations.set_version_ready Registrations.set_model_ready Registrations.publish_registration
    find update count
complete-complete_example =
    Replay.complete-complete libs text_of "tenant" "registration" fresh
      (record fresh { version = 10 }) uploaded_db _ calls uploaded_db-IsKeyed refl

complete_err_example :
    SameCatalog failed_db (Complete.complete libs text_of fresh "tenant" "registration" failed_db).1
unfolding Complete.complete Complete.complete_row TrainedArtifactStore.parse_registration_ids
    Registrations.get_registration find
complete_err_example =
    Atomic.complete_err libs text_of fresh "tenant" "registration" failed_db
      Error.registration_terminal refl

complete-IsIntact_example : IsIntact published
complete-IsIntact_example =
    Atomic.complete-IsIntact libs text_of fresh "tenant" "registration" uploaded_db
      (ready_tables-IsIntact [] (registration_row RegistrationStatus.uploaded ∷ []))
      (ground (arith, eq_iff "objects/2" ""), tt)

prepare_settles_example : is_none (Prepare.prepare libs 2 (λ d. d) registration empty_db) ≡ false
unfolding TrainedArtifactStore.parse_registration_ids
prepare_settles_example =
    Preparing.prepare_settles libs registration 1 5 (λ d. d) empty_db refl refl

abbrev pending_db : Db
pending_db = tables [] VersionStatus.ready (registration_row RegistrationStatus.pending ∷ [])

prepare-prepare_example :
    Prepare.prepare libs 3 (λ d. empty_db) registration pending_db
    ≡ some (
      ok (
          TrainedArtifactStore.scan_trained_artifact libs
            (registration_row RegistrationStatus.pending)),
      pending_db,
    )
unfolding Prepare.prepare Prepare.prepare_once TrainedArtifactStore.parse_registration_ids
    Registrations.get_registration_by_key find
prepare-prepare_example =
    Repeating.prepare-prepare libs registration 1 5 1 2 (λ d. d) (λ d. empty_db) pending_db
      (TrainedArtifactStore.scan_trained_artifact libs
        (registration_row RegistrationStatus.pending))
      pending_db refl refl
