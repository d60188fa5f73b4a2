-- ===== src/Errors.antt =====
-- The error values of the stores, the domain packages and the workers, as one type.
use ani_model_service.Prelude.{String, Result}

-- The errors that the stores return, and those of the domain packages that they pass on.
pub data Error : Type 0 where
  -- uuid.Parse failed on the field of this name
  invalid_id : String → Error
  -- pgx.ErrNoRows
  no_rows : Error
  -- PostgreSQL 23505, 23503, 23514 and 22003
  unique_violation foreign_key_violation check_violation out_of_range : Error
  -- ErrLeaseLost
  lease_lost : Error
  -- workbiz.ErrInvalidTransition, ErrLeaseFenced
  invalid_transition lease_fenced : Error
  -- modelbiz.ErrInvalidModel, ErrInvalidModelVersion, ErrInvalidBundleImport, ErrModelNotReady
  invalid_model invalid_model_version invalid_bundle_import model_not_ready : Error
  -- modelbiz.ErrRegistrationNotFound, ErrRegistrationConflict, ErrRegistrationTerminal
  registration_not_found registration_conflict registration_terminal : Error
  -- modelbiz.ErrReferenceCheckUnavailable, ErrModelInUse
  reference_check_unavailable model_in_use : Error
  -- modelbiz.ErrFinetuningSourceForbidden
  finetuning_source_forbidden : Error
  -- storage.ErrChecksumMismatch, ErrURLExpired, ErrProvider
  checksum_mismatch url_expired storage_provider : Error
  -- importer.ErrProvider, worker.ErrObjectMissing, ErrArtifactStoreUnavailable,
  -- ErrVersionBindingRequired
  importer_provider object_missing artifact_store_unavailable binding_required : Error
  -- an error value made on the spot, by its message
  message : String → Error

abbrev pub Res : Type 0 → Type 0
Res A = Result Error A
