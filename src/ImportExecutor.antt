-- ===== src/ImportExecutor.antt =====
-- What ImportExecutor of internal/worker/import_executor.go records of an imported object, and the
-- checks of the object before it. The providers, the archive stream and logging are not modelled.
pub mod Creation
pub mod Recording
pub mod Archive
use ani_model_service.Prelude.{
  ℕ, String, Bool, true, false, ◌&&◌, ◌||◌, not, ok, err, ◌==◌, str_eq, if◌then◌else◌, ℤ, pos,
  negsuc,
}
use ani_model_service.Errors.{Res, Error}
use ani_model_service.Text.{is_blank, byte_length}
use ani_model_service.Database.Exec.{Db, Exec, pure, fail, lift, attempt, ◌>>=◌, ◌>>◌, Libs}
use ani_model_service.Model.{Artifact}
use ani_model_service.Work.{Task}
use ani_model_service.VersionStore

-- importer.Result
pub record ImportResult : Type 0 where
  pub object_ref : String
  pub format : String
  pub size_bytes : ℤ
  pub checksum_sha256 : String

-- ObjectExists and VerifyChecksum of storage.Port.
pub record Storage : Type 0 where
  pub object_exists : String → String → Res Bool
  pub verify_checksum : String → String → String → Res (Unit {0})

-- What Upload comes to: its result, the bytes that went through, and the hex text of their digest.
pub record Upload : Type 0 where
  pub result : Res (Unit {0})
  pub bytes : ℕ
  pub digest : String

abbrev pub same_size : ℤ → ℤ → Bool
same_size (pos m) (pos n) = m == n
same_size (negsuc m) (negsuc n) = m == n
same_size _ _ = false

abbrev pub artifact_format : String → String
artifact_format format = if str_eq format "" then "pytorch" else format

abbrev pub wanted : Task → ImportResult → Artifact
wanted t r = record {
  tenant_id = t.tenant_id;
  id = t.id;
  model_version_id = t.version_id;
  provider = t.source;
  reference = r.object_ref;
  format = artifact_format r.format;
  sha256 = r.checksum_sha256;
  size_bytes = r.size_bytes;
  is_encrypted = false;
  encrypt_algo = "";
}

abbrev pub same_facts : Artifact → Artifact → Bool
same_facts a b =
    str_eq a.reference b.reference
    && (str_eq a.sha256 b.sha256
        && (str_eq a.format b.format && same_size a.size_bytes b.size_bytes))

-- The artifact that is there already, or the error of CreateArtifact.
abbrev pub replayed : Artifact → Res Artifact → Exec (Unit {0})
replayed want (err e) = fail Error.unique_violation
replayed want (ok existing) =
    if same_facts existing want then pure tt else fail Error.checksum_mismatch

module _ (libs : Libs) where
  abbrev pub persisted : Task → Artifact → Res Artifact → Exec (Unit {0})
  persisted t want (ok a) = pure tt
  persisted t want (err Error.unique_violation) =
      attempt (VersionStore.get_artifact libs t.tenant_id t.version_id) >>= replayed want
  persisted t want (err e) = fail e

  -- persistArtifact, with an artifact store
  unfoldable pub persist_artifact : Task → ImportResult → Exec (Unit {0})
  persist_artifact t r =
      if str_eq t.version_id ""
      then pure tt
      else (attempt (VersionStore.create_artifact libs (wanted t r)) >>= persisted t (wanted t r))

  -- The end of Execute and of uploadStream, with a checksum store.
  unfoldable pub record_result : Task → ImportResult → Exec (Unit {0})
  record_result t r = do
    persist_artifact t r
    VersionStore.set_checksum libs t.tenant_id t.version_id r.checksum_sha256 r.size_bytes

  abbrev pub if_exists : Bool → Exec (Unit {0})
  if_exists true = pure tt
  if_exists false = fail Error.object_missing

  -- Execute with a provider that only names an object.
  unfoldable pub execute_fetched : Storage → Task → ImportResult → Exec (Unit {0})
  unfolding is_blank
  execute_fetched storage t r =
      if is_blank r.object_ref || not (byte_length r.checksum_sha256 == 64)
      then fail Error.checksum_mismatch
      else do
        exists ← lift (storage.object_exists t.tenant_id r.object_ref)
        if_exists exists
        lift (storage.verify_checksum t.tenant_id r.object_ref r.checksum_sha256)
        record_result t r

  abbrev pub expected_or : String → String → String
  expected_or expected digest = if str_eq expected "" then digest else expected

  -- uploadStream, with a storage that is an Uploader
  unfoldable pub upload_stream :
      Storage → Task → String → String → String → Upload → Exec (Unit {0})
  upload_stream storage t object_ref format expected upload = do
    lift upload.result
    exists ← lift (storage.object_exists t.tenant_id object_ref)
    if_exists exists
    lift (storage.verify_checksum t.tenant_id object_ref (expected_or expected upload.digest))
    record_result t (record {
      object_ref = object_ref;
      format = format;
      size_bytes = pos upload.bytes;
      checksum_sha256 = expected_or expected upload.digest;
    })
