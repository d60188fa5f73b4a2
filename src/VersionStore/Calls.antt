-- ===== src/VersionStore/Calls.antt =====
-- The calls of version_store.go and artifact_store.go, with RetryFailed of work_store.go, which
-- also writes versions: each keeps every ready version backed by its artifact.
use ani_model_service.Prelude.{
  ℕ, String, ◌≡◌, refl, ok, err, ℤ, any, arith, Bool-cases, inl, inr, eq_iff, ◌==◌,
}
use ani_model_service.Errors.{Res, Error}
use ani_model_service.Text.{is_sha256}
use ani_model_service.Model.{Artifact, validate_artifact, Version}
use ani_model_service.Database.Rows.{ArtifactRow, ModelRow}
use ani_model_service.Database.Exec.{
  Db, Exec, lift, ◌>>=◌, ◌>>◌, Libs, parse_id, gets, pure, attempt,
}
use ani_model_service.Database.Versions
use ani_model_service.Database.Keeps.{lift_cases, bind_keeps, transaction_keeps}
use ani_model_service.VersionStore
use ani_model_service.VersionStore.Integrity.{
  IsIntact, IsArtifact, ready-IsIntact, error-IsIntact, checksum-IsIntact, error_for_task-IsIntact,
  add_artifact, same-IsIntact,
}

module _ (libs : Libs) where
  pub get_version-state :
      (tenant id : String) (db : Db) → (VersionStore.get_version libs tenant id db).1 ≡ db
  unfolding VersionStore.get_version Versions.get_ready_model_version
  get_version-state tenant id db =
      lift_cases (λ d. d ≡ db) (VersionStore.parse_model_ids libs tenant id) _ db refl
        λ ids. ground arith

  pub replayed_ready-state :
      (r : Res Version) (db : Db) → (VersionStore.replayed_ready libs r db).1 ≡ db
  replayed_ready-state (ok v) db = refl
  replayed_ready-state (err e) db = refl

one_row-state : (n : ℕ) (db : Db) → (VersionStore.one_row n db).1 ≡ db
one_row-state n db = ground arith

module _ (libs : Libs) (db : Db) (intact : IsIntact db) where
  one_row_keeps : (m : Exec ℕ) → IsIntact (m db).1 → IsIntact ((m >>= VersionStore.one_row) db).1
  one_row_keeps m h =
      bind_keeps IsIntact m VersionStore.one_row db h (λ n d k. rw (one_row-state n d) k)

  pub mark_ready-IsIntact :
      (tenant version : String) → IsIntact (VersionStore.mark_ready libs tenant version db).1
  unfolding VersionStore.mark_ready
  mark_ready-IsIntact tenant version =
      lift_cases IsIntact (VersionStore.parse_model_ids libs tenant version) _ db intact λ ids.
        bind_keeps IsIntact (Versions.mark_model_version_ready ids.0 ids.1) _ db
          (ready-IsIntact db intact ids.0 ids.1)
          λ n d k. elim (Bool-cases (n == 1)) [ inl e ↦ rw e k | inr e ↦ rw e (replayed d k) ]
    where
      replayed :
          (d : Db)
          → IsIntact d
          → IsIntact
              ((attempt (VersionStore.get_version libs tenant version)
                  >>= VersionStore.replayed_ready libs)
                d).1
      replayed d k =
          bind_keeps IsIntact (attempt (VersionStore.get_version libs tenant version))
            (VersionStore.replayed_ready libs) d (rw (get_version-state libs tenant version d) k)
            λ r d' k'. rw (replayed_ready-state libs r d') k'

  pub mark_error-IsIntact :
      (tenant version message : String)
      → IsIntact (VersionStore.mark_error libs tenant version message db).1
  unfolding VersionStore.mark_error
  mark_error-IsIntact tenant version message =
      lift_cases IsIntact (VersionStore.parse_model_ids libs tenant version) _ db intact λ ids.
        one_row_keeps (Versions.mark_model_version_error ids.0 ids.1 message)
          (error-IsIntact db intact ids.0 ids.1 message)

  pub set_checksum-IsIntact :
      (tenant version checksum : String) (size : ℤ)
      → IsIntact (VersionStore.set_checksum libs tenant version checksum size db).1
  unfolding VersionStore.set_checksum
  set_checksum-IsIntact tenant version checksum size =
      lift_cases IsIntact (VersionStore.parse_model_ids libs tenant version) _ db intact λ ids.
        one_row_keeps (Versions.set_model_version_checksum ids.0 ids.1 checksum size)
          (checksum-IsIntact db intact ids.0 ids.1 checksum size)

module _ (libs : Libs) where
  no_ready-IsIntact :
      (tenant model : ℕ) (message : String) (d : Db)
      → IsIntact d
      → IsIntact (Versions.mark_model_error_if_no_ready tenant model message d).1
  unfolding Versions.mark_model_error_if_no_ready
  no_ready-IsIntact tenant model message d k = same-IsIntact k refl refl

  pub lock-state :
      (tenant model : ℕ) (d : Db) → (Versions.lock_model_for_version_error tenant model d).1 ≡ d
  unfolding Versions.lock_model_for_version_error
  lock-state tenant model d = refl

  model_error-IsIntact :
      (tenant model : ℕ) (message : String) (r : Res ModelRow) (d : Db)
      → IsIntact d
      → IsIntact (VersionStore.model_error libs tenant model message r d).1
  model_error-IsIntact tenant model message (ok m) d k =
      bind_keeps IsIntact (Versions.mark_model_error_if_no_ready tenant model message)
        (λ n. pure tt) d (no_ready-IsIntact tenant model message d k) (λ n d' k'. k')
  model_error-IsIntact tenant model message (err Error.no_rows) d k = k
  model_error-IsIntact tenant model message (err _) d k = k

module _ (libs : Libs) (db : Db) (intact : IsIntact db) where
  apply_error-IsIntact :
      (tenant task version : ℕ) (owner : String) (epoch : ℕ) (message : String)
      → IsIntact (VersionStore.apply_error libs tenant task version owner epoch message db).1
  unfolding VersionStore.apply_error
  apply_error-IsIntact tenant task version owner epoch message =
      bind_keeps IsIntact
        (Versions.mark_model_version_error_for_task tenant task version owner epoch message) _ db
        (error_for_task-IsIntact db intact tenant task version owner epoch message)
        λ model d k.
          bind_keeps IsIntact (attempt (Versions.lock_model_for_version_error tenant model))
            (VersionStore.model_error libs tenant model message) d
            (rw (lock-state libs tenant model d) k)
            λ r d' k'. model_error-IsIntact libs tenant model message r d' k'

  pub mark_error_and_maybe_model-IsIntact :
      (tenant task version owner : String) (epoch : ℕ) (message : String)
      → IsIntact
          (VersionStore.mark_error_and_maybe_model libs tenant task version owner epoch message
            db).1
  unfolding VersionStore.mark_error_and_maybe_model
  mark_error_and_maybe_model-IsIntact tenant task version owner epoch message =
      lift_cases IsIntact (VersionStore.parse_model_ids libs tenant version) _ db intact λ ids.
        lift_cases IsIntact (parse_id libs "task_id" task) _ db intact λ t.
          transaction_keeps IsIntact db intact
            (VersionStore.apply_error libs ids.0 t ids.1 owner epoch message)
            (apply_error-IsIntact ids.0 t ids.1 owner epoch message)

  created-IsIntact :
      (a : ArtifactRow) → IsArtifact a → IsIntact (Versions.create_model_artifact a db).1
  unfolding Versions.create_model_artifact
  created-IsIntact a sound = elim (Bool-cases (is_sha256 a.sha256)) [
    | inr e ↦ rw e intact
    | inl e ↦ elim (Bool-cases (any (Versions.artifact_clashes a) db.artifacts)) [
      | inl e' ↦ rw (e, e') intact
      | inr e' ↦
          elim (Bool-cases (any (Versions.is_version a.tenant_id a.model_version_id) db.versions)) [
            | inr e'' ↦ rw (e, e', e'') intact
            | inl e'' ↦ rw (e, e', e'') (add_artifact db intact a sound e')
          ]
    ]
  ]

  validated-IsArtifact :
      (a : Artifact) (tenant id version now : ℕ)
      → validate_artifact a ≡ ok tt
      → IsArtifact (VersionStore.artifact_row libs tenant id version a now)
  unfolding validate_artifact
  validated-IsArtifact a tenant id version now h = record {
    digest = ground arith;
    provided = ground (arith, eq_iff a.provider "");
    referenced = ground (arith, eq_iff a.reference "");
  }

  pub create_artifact-IsIntact :
      (a : Artifact) → IsIntact (VersionStore.create_artifact libs a db).1
  unfolding VersionStore.create_artifact
  create_artifact-IsIntact a = go (validate_artifact a) refl
    where
      go :
          (r : Res (Unit {0}))
          → validate_artifact a ≡ r
          → IsIntact
              ((lift r
                  >> (lift (VersionStore.parse_model_ids libs a.tenant_id a.id) >>= λ ids.
                      lift (parse_id libs "model_version_id" a.model_version_id) >>= λ version.
                      gets (λ db. db.clock) >>= λ now.
                      Versions.create_model_artifact
                        (VersionStore.artifact_row libs ids.0 ids.1 version a now)
                      >>= λ r. pure (VersionStore.artifact_of_row libs r)))
                db).1
      go (err e) h = intact
      go (ok u) h =
          lift_cases IsIntact (VersionStore.parse_model_ids libs a.tenant_id a.id) _ db intact
            λ ids.
              lift_cases IsIntact (parse_id libs "model_version_id" a.model_version_id) _ db intact
                λ version.
                  bind_keeps IsIntact
                    (Versions.create_model_artifact
                      (VersionStore.artifact_row libs ids.0 ids.1 version a db.clock))
                    (λ r. pure (VersionStore.artifact_of_row libs r)) db
                    (created-IsIntact _ (validated-IsArtifact a ids.0 ids.1 version db.clock h))
                    λ r d k. k
