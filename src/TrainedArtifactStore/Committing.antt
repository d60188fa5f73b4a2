-- ===== src/TrainedArtifactStore/Committing.antt =====
-- The transaction of Complete (internal/data/postgres/trained_artifact_store.go).
use ani_model_service.Prelude.{
  ℕ, ◌≡◌, refl, true, ◌&&◌, ok, err, Option, none, some, List, ◌∷◌, any, Bool-cases, inl, inr,
}
use ani_model_service.Errors.{Res}
use ani_model_service.Database.Table.{find}
use ani_model_service.Database.Rows.{
  ModelRow, RegistrationRow, RegistrationStatus, is_unsettled, is_live,
}
use ani_model_service.Database.Exec.{Db, pure, lift, row, ◌>>=◌}
use ani_model_service.Database.After.{After, bind-After, transaction-After}
use ani_model_service.Database.Versions
use ani_model_service.Database.Versions.{is_version, artifact_clashes}
use ani_model_service.Database.Registrations
use ani_model_service.Database.Registrations.{is_registration, version_clashes, is_image_pair}
use ani_model_service.TrainedArtifactStore.{or_not_found}
use ani_model_service.TrainedArtifactStore.Complete
use ani_model_service.TrainedArtifactStore.Complete.{
  Fresh, mapped, publish, new_version, new_artifact,
}
use ani_model_service.TrainedArtifactStore.Publishing.{Published, mapped-After, publish-After}

-- The ways in which the transaction of Complete commits.
pub data Completed (fresh : Fresh) (tenant id : ℕ) (before : Db) (r : RegistrationRow) (after : Db)
    : Type 0 where
  already :
      find (is_registration tenant id) before.registrations ≡ some r
      → r.status ≡ RegistrationStatus.ready
      → after ≡ before
      → Completed fresh tenant id before r after
  publishes :
      (s : RegistrationRow) (model : ℕ)
      → find (is_registration tenant id) before.registrations ≡ some s
      → is_unsettled s.status ≡ true
      → Published fresh s model before r after
      → Completed fresh tenant id before r after

abbrev pub with_models : List ModelRow → Db → Db
with_models models db = record db { models = models }

other_models :
    (fresh : Fresh) (s : RegistrationRow) (model : ℕ) (models : List ModelRow) (db : Db)
    (r : RegistrationRow) (after : Db)
    → Published fresh s model (with_models models db) r after
    → Published fresh s model db r after
other_models fresh s model models db r after p = record {
  result = p.result;
  version_fresh = p.version_fresh;
  artifact_fresh = p.artifact_fresh;
  digest = p.digest;
  versions = p.versions;
  artifacts = p.artifacts;
  registrations = p.registrations;
  clock = p.clock;
}

pub insert_model-After :
    (m : ModelRow) (db : Db)
    → After
        (λ (u : Unit {0}) d. Unit {0} × (d ≡ with_models (m ∷ db.models) db))
        (Registrations.insert_model m db)
unfolding Registrations.insert_model
insert_model-After m db = elim (Bool-cases (any (Registrations.model_clashes m) db.models)) [
  | inl e ↦ rw e tt
  | inr e ↦ rw e (tt, refl)
]

lock_live_model-After :
    (tenant id : ℕ) (db : Db)
    → After
        (λ (u : Unit {0}) d. Unit {0} × (d ≡ with_models db.models db))
        (Registrations.lock_live_model tenant id db)
unfolding Registrations.lock_live_model
lock_live_model-After tenant id db =
    elim (Bool-cases (any (λ m. Versions.is_model tenant id m && is_live m.status) db.models)) [
      | inl e ↦ rw e (tt, refl)
      | inr e ↦ rw e tt
    ]

After-map :
    {A : Type 0} (P Q : A → Db → Type 0)
    → ((a : A) (d : Db) → P a d → Q a d)
    → (o : Res A × Db) → After P o
    → After Q o
After-map P Q h (ok a, d) p = h a d p
After-map P Q h (err e, d) p = tt

module _ (fresh : Fresh) (s : RegistrationRow) (db : Db) where
  abbrev Publishes : RegistrationRow → Db → Type 0
  Publishes r after = (model : ℕ) × Published fresh s model db r after

  publish_from :
      (models : List ModelRow) (model : ℕ)
      → After Publishes (publish fresh s model (with_models models db))
  publish_from models model =
      After-map (Published fresh s model (with_models models db)) Publishes
        (λ r d p. (model, other_models fresh s model models db r d p))
        (publish fresh s model (with_models models db))
        (publish-After fresh s model (with_models models db))

  abbrev target_models : Option ℕ → List ModelRow
  target_models none = Complete.new_model db.clock fresh.model s ∷ db.models
  target_models (some model) = db.models

  target_model-After :
      (target : Option ℕ)
      → After
          (λ (model : ℕ) d. Unit {0} × (d ≡ with_models (target_models target) db))
          (Complete.target_model fresh s target db)
  target_model-After none =
      bind-After (λ (model : ℕ) d. Unit {0} × (d ≡ with_models (target_models none) db))
        (λ u. Unit {0}) (λ u. with_models (target_models none) db)
        (mapped (Registrations.insert_model m) db) (λ u. pure fresh.model)
        (mapped-After _ (Registrations.insert_model m) db (insert_model-After m db))
        λ u t. (tt, refl)
    where
      m : ModelRow
      m = Complete.new_model db.clock fresh.model s
  target_model-After (some model) =
      bind-After (λ (model : ℕ) d. Unit {0} × (d ≡ with_models db.models db)) (λ u. Unit {0})
        (λ u. with_models db.models db)
        (mapped (Registrations.lock_live_model s.tenant_id model) db) (λ u. pure model)
        (mapped-After _ (Registrations.lock_live_model s.tenant_id model) db
          (lock_live_model-After s.tenant_id model db))
        λ u t. (tt, refl)

  complete_live-After :
      After Publishes ((Complete.target_model fresh s s.target_model_id >>= publish fresh s) db)
  complete_live-After =
      bind-After Publishes (λ (model : ℕ). Unit {0})
        (λ model. with_models (target_models s.target_model_id) db)
        (Complete.target_model fresh s s.target_model_id db) (publish fresh s)
        (target_model-After s.target_model_id)
        λ model t. publish_from (target_models s.target_model_id) model

module _ (fresh : Fresh) (tenant id : ℕ) (db : Db) where
  published_row :
      (s : RegistrationRow)
      → find (is_registration tenant id) db.registrations ≡ some s
      → is_unsettled s.status ≡ true
      → After
          (Completed fresh tenant id db)
          ((Complete.target_model fresh s s.target_model_id >>= publish fresh s) db)
  published_row s e u =
      After-map (Publishes fresh s db) (Completed fresh tenant id db)
        (λ r d (model, p). publishes s model e u p) _ (complete_live-After fresh s db)

  complete_session-After :
      (s : RegistrationRow) (status : RegistrationStatus)
      → s.status ≡ status
      → find (is_registration tenant id) db.registrations ≡ some s
      → After (Completed fresh tenant id db) (Complete.complete_session fresh s status db)
  complete_session-After s RegistrationStatus.ready h e = already e h refl
  complete_session-After s RegistrationStatus.failed h e = tt
  complete_session-After s RegistrationStatus.aborted h e = tt
  complete_session-After s RegistrationStatus.pending h e = published_row s e (rw h refl)
  complete_session-After s RegistrationStatus.uploaded h e = published_row s e (rw h refl)

  pub complete_row-After :
      After (Completed fresh tenant id db) (Complete.complete_row fresh tenant id db)
  unfolding Complete.complete_row Registrations.get_registration
  complete_row-After =
      transaction-After (Completed fresh tenant id db)
        (or_not_found (Registrations.get_registration tenant id) >>= λ s.
          Complete.complete_session fresh s s.status)
        db (go (find (is_registration tenant id) db.registrations) refl)
    where
      go :
          (o : Option RegistrationRow)
          → find (is_registration tenant id) db.registrations ≡ o
          → After
              (Completed fresh tenant id db)
              ((or_not_found (lift (row o)) >>= λ s. Complete.complete_session fresh s s.status) db)
      go none e = tt
      go (some s) e = complete_session-After s s.status refl e
