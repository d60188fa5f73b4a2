-- ===== src/TrainedArtifactStore/Publishing.antt =====
-- What one commit of Complete writes (internal/data/postgres/trained_artifact_store.go).
use ani_model_service.Prelude.{
  ℕ, ◌+◌, ltb, ◌≡◌, refl, true, false, ◌&&◌, ok, err, List, ◌∷◌, any, arith, Bool-cases, inl, inr,
}
use ani_model_service.Errors.{Res}
use ani_model_service.Model.{is_format}
use ani_model_service.Text.{is_sha256}
use ani_model_service.Database.Table.{update, update_none, count_of_any, any_weaken}
use ani_model_service.Database.Rows.{VersionRow, ArtifactRow, RegistrationRow}
use ani_model_service.Database.Exec.{Db, Exec}
use ani_model_service.Database.After.{After, bind-After}
use ani_model_service.Database.Tasks
use ani_model_service.Database.Tasks.{has_model}
use ani_model_service.Database.Versions
use ani_model_service.Database.Versions.{is_version, artifact_clashes}
use ani_model_service.Database.Registrations
use ani_model_service.Database.Registrations.{is_registration, version_clashes, is_image_pair}
use ani_model_service.TrainedArtifactStore.Complete
use ani_model_service.TrainedArtifactStore.Complete.{
  Fresh, mapped, publish, new_version, new_artifact,
}

-- The writes of one publication.
pub record Published (fresh : Fresh) (s : RegistrationRow) (model : ℕ) (before : Db)
    (r : RegistrationRow) (after : Db) : Type 0 where
  pub result : r ≡ Registrations.published before.clock model fresh.version s
  pub version_fresh :
      any (version_clashes (new_version before.clock fresh.version model s)) before.versions ≡ false
  pub artifact_fresh :
      any
        (artifact_clashes (new_artifact before.clock fresh.artifact fresh.version s))
        before.artifacts
      ≡ false
  pub digest : is_sha256 s.checksum_sha256 ≡ true
  pub versions :
      after.versions
      ≡ Versions.version_ready before.clock (new_version before.clock fresh.version model s)
        ∷ before.versions
  pub artifacts :
      after.artifacts ≡ new_artifact before.clock fresh.artifact fresh.version s ∷ before.artifacts
  pub registrations :
      after.registrations
      ≡ update
          (is_registration s.tenant_id s.id)
          (Registrations.published before.clock model fresh.version)
          before.registrations
  pub clock : after.clock ≡ before.clock

pub mapped-After :
    {A : Type 0} (Q : A → Db → Type 0) (m : Exec A) (db : Db)
    → After Q (m db)
    → After Q (mapped m db)
mapped-After {A = A} Q m db q = go (m db) q
  where
    go : (o : Res A × Db) → After Q o → After Q (Complete.mapped_result o.0 o.1)
    go (ok a, d) q = q
    go (err e, d) q = tt

pub insert_version-After :
    (v : VersionRow) (db : Db)
    → After
        (λ (u : Unit {0}) d.
          (any (version_clashes v) db.versions ≡ false)
          × (d ≡ record db { versions = v ∷ db.versions }))
        (Registrations.insert_version v db)
unfolding Registrations.insert_version
insert_version-After v db =
    elim (Bool-cases
      (is_format v.format && is_image_pair v.recommended_image_id v.recommended_image_scope)) [
        | inr e ↦ rw e tt
        | inl e ↦ elim (Bool-cases (any (version_clashes v) db.versions)) [
          | inl c ↦ rw (e, c) tt
          | inr c ↦ elim (Bool-cases (has_model v.tenant_id v.model_id db)) [
            | inr h ↦ rw (e, c, h) tt
            | inl h ↦ rw (e, c, h) (refl, refl)
          ]
        ]
      ]

create_model_artifact-After :
    (a : ArtifactRow) (db : Db)
    → After
        (λ r d.
          ((is_sha256 a.sha256 ≡ true) × (any (artifact_clashes a) db.artifacts ≡ false))
          × (d ≡ record db { artifacts = a ∷ db.artifacts }))
        (Versions.create_model_artifact a db)
unfolding Versions.create_model_artifact
create_model_artifact-After a db = elim (Bool-cases (is_sha256 a.sha256)) [
  | inr e ↦ rw e tt
  | inl e ↦ elim (Bool-cases (any (artifact_clashes a) db.artifacts)) [
    | inl c ↦ rw (e, c) tt
    | inr c ↦
        elim (Bool-cases (any (Versions.is_version a.tenant_id a.model_version_id) db.versions)) [
          | inr h ↦ rw (e, c, h) tt
          | inl h ↦ rw (e, c, h) ((refl, refl), refl)
        ]
  ]
]

abbrev grown : ℕ → ℕ → ℕ → Db → Db
grown tenant model size db = record db {
  models =
      update (Versions.is_model tenant model)
        (λ m. record m { total_size_bytes = m.total_size_bytes + size; updated_at = db.clock })
        db.models;
}

grow_model-After :
    (tenant model size : ℕ) (db : Db)
    → After
        (λ (u : Unit {0}) d. Unit {0} × (d ≡ grown tenant model size db))
        (Registrations.grow_model tenant model size db)
unfolding Registrations.grow_model
grow_model-After tenant model size db =
    elim (Bool-cases (
      any (λ m. Versions.is_model tenant model m && ltb Tasks.max_int64 (m.total_size_bytes + size))
        db.models)) [ inl e ↦ rw e tt | inr e ↦ rw e (tt, refl) ]

-- The update of the new version's row meets no other row.
version_only :
    (now : ℕ) (v : VersionRow) (versions : List VersionRow)
    → any (version_clashes v) versions ≡ false
    → update (is_version v.tenant_id v.id) (Versions.version_ready now) (v ∷ versions)
      ≡ Versions.version_ready now v ∷ versions
unfolding update
version_only now v versions clash = ground (
  arith,
  update_none (is_version v.tenant_id v.id) (Versions.version_ready now) versions (
      count_of_any (is_version v.tenant_id v.id) versions (
        any_weaken (is_version v.tenant_id v.id) (version_clashes v) (λ w h. ground arith) versions
          clash)),
)

pub publish-After :
    (fresh : Fresh) (s : RegistrationRow) (model : ℕ) (db : Db)
    → After (Published fresh s model db) (publish fresh s model db)
unfolding Registrations.set_version_ready Registrations.set_model_ready
    Registrations.publish_registration
publish-After fresh s model db =
    bind-After (Published fresh s model db) (λ u. any (version_clashes v) db.versions ≡ false)
      (λ u. with_version) (mapped (Registrations.insert_version v) db) _
      (mapped-After _ (Registrations.insert_version v) db (insert_version-After v db))
      λ u version_fresh.
        bind-After (Published fresh s model db)
          (λ r. (is_sha256 a.sha256 ≡ true) × (any (artifact_clashes a) db.artifacts ≡ false))
          (λ r. with_artifact) (mapped (Versions.create_model_artifact a) with_version) _
          (mapped-After _ (Versions.create_model_artifact a) with_version
            (create_model_artifact-After a with_version))
          λ r (digest, artifact_fresh).
            bind-After (Published fresh s model db) (λ u. Unit {0})
              (λ u. grown s.tenant_id model s.size_bytes with_artifact)
              (Registrations.grow_model s.tenant_id model s.size_bytes with_artifact) _
              (grow_model-After s.tenant_id model s.size_bytes with_artifact)
              λ u t. record {
                result = refl;
                version_fresh = version_fresh;
                artifact_fresh = artifact_fresh;
                digest = digest;
                versions = version_only db.clock v db.versions version_fresh;
                artifacts = refl;
                registrations = refl;
                clock = refl;
              }
  where
    v : VersionRow
    v = new_version db.clock fresh.version model s

    a : ArtifactRow
    a = new_artifact db.clock fresh.artifact fresh.version s

    with_version : Db
    with_version = record db { versions = v ∷ db.versions }

    with_artifact : Db
    with_artifact = record with_version { artifacts = a ∷ db.artifacts }
