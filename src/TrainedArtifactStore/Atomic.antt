-- ===== src/TrainedArtifactStore/Atomic.antt =====
-- Complete of internal/data/postgres/trained_artifact_store.go: an error publishes nothing, and a
-- commit keeps every ready version backed by its artifact.
use mathlib.Core.Path.{subst}
use ani_model_service.Prelude.{ℕ, String, ◌≡◌, refl, sym, ◌≢◌, true, ok, err, arith, All, eq_iff}
use ani_model_service.Errors.{Res, Error}
use ani_model_service.Text.{is_sha256}
use ani_model_service.Database.Table.{find, find-All}
use ani_model_service.Database.Rows.{RegistrationRow}
use ani_model_service.Database.Exec.{Db, fail, lift, attempt, ◌>>=◌, Libs}
use ani_model_service.Database.Keeps.{lift_cases, bind_keeps}
use ani_model_service.Database.After.{After}
use ani_model_service.Database.Registrations
use ani_model_service.Database.Registrations.{is_registration}
use ani_model_service.VersionStore.Integrity.{IsIntact, IsArtifact, add_artifact, same-IsIntact}
use ani_model_service.TrainedArtifactStore
use ani_model_service.TrainedArtifactStore.{RegistrationResult, parse_registration_ids}
use ani_model_service.TrainedArtifactStore.Complete
use ani_model_service.TrainedArtifactStore.Complete.{Fresh, complete_row, settled, new_artifact}
use ani_model_service.TrainedArtifactStore.Publishing.{Published}
use ani_model_service.TrainedArtifactStore.Committing.{Completed, complete_row-After}
use ani_model_service.TrainedArtifactStore.Calls.{complete_row_err}

-- The tables other than the registrations are the same.
pub record SameCatalog (db d : Db) : Type 0 where
  pub models : d.models ≡ db.models
  pub versions : d.versions ≡ db.versions
  pub artifacts : d.artifacts ≡ db.artifacts
  pub tasks : d.tasks ≡ db.tasks

same_catalog : (db : Db) → SameCatalog db db
same_catalog db = record { models = refl; versions = refl; artifacts = refl; tasks = refl }

fail-SameCatalog :
    (libs : Libs) (tenant id message : String) (db : Db)
    → SameCatalog db (TrainedArtifactStore.fail_registration libs tenant id message db).1
unfolding TrainedArtifactStore.fail_registration Registrations.fail_registration
fail-SameCatalog libs tenant id message db =
    lift_cases (SameCatalog db) (parse_registration_ids libs tenant id) _ db (same_catalog db)
      λ ids. record { models = refl; versions = refl; artifacts = refl; tasks = refl }

module _ (libs : Libs) (text_of : Error → String) (fresh : Fresh) (tenant id : String) where
  settled_err :
      (db : Db) (o : Res RegistrationRow × Db) (e : Error)
      → ((x : Error) → o.0 ≡ err x → o.1 ≡ db)
      → (settled libs text_of tenant id o.0 o.1).0 ≡ err e
      → SameCatalog db (settled libs text_of tenant id o.0 o.1).1
  settled_err db (ok r, d) e k h = absurd (cc)
  settled_err db (err x, d) e k h =
      subst (λ d. SameCatalog db (settled libs text_of tenant id (err x) d).1) (sym (k x refl))
        (bind_keeps {B = RegistrationResult} (SameCatalog db)
          (attempt (TrainedArtifactStore.fail_registration libs tenant id (text_of x)))
          (λ ignored. fail x) db (fail-SameCatalog libs tenant id (text_of x) db) λ r d c. c)

  -- A Complete that returns an error leaves the models, versions, artifacts and tasks as they
  -- were.
  pub complete_err :
      (db : Db) (e : Error)
      → (Complete.complete libs text_of fresh tenant id db).0 ≡ err e
      → SameCatalog db (Complete.complete libs text_of fresh tenant id db).1
  unfolding Complete.complete
  complete_err db e h = go (parse_registration_ids libs tenant id) h
    where
      go :
          (p : Res (ℕ × ℕ))
          → ((lift p >>= λ ids.
                attempt (complete_row fresh ids.0 ids.1) >>= settled libs text_of tenant id)
              db).0
            ≡ err e
          → SameCatalog db
              ((lift p >>= λ ids.
                  attempt (complete_row fresh ids.0 ids.1) >>= settled libs text_of tenant id)
                db).1
      go (err x) h = same_catalog db
      go (ok ids) h =
          settled_err db (complete_row fresh ids.0 ids.1 db) e
            (complete_row_err fresh ids.0 ids.1 db) h

digest-nonempty : (digest : String) → is_sha256 digest ≡ true → digest ≢ ""
unfolding is_sha256
digest-nonempty digest h e = let z : is_sha256 "" ≡ true = subst (λ s. is_sha256 s ≡ true) e h in cc

-- A row with the path of its object.
abbrev pub HasPath : RegistrationRow → Type 0
HasPath r = r.storage_path ≢ ""

module _ (fresh : Fresh) (db : Db) (intact : IsIntact db) where
  Published-IsIntact :
      (s : RegistrationRow) (model : ℕ) (r : RegistrationRow) (after : Db)
      → HasPath s
      → Published fresh s model db r after
      → IsIntact after
  unfolding find
  Published-IsIntact s model r after path p =
      let a = new_artifact db.clock fresh.artifact fresh.version s in
      let sound : IsArtifact a = record {
        digest = p.digest;
        provided = ground (arith, eq_iff "upload" "");
        referenced = path;
      } in
      let added = add_artifact db intact a sound p.artifact_fresh in
      record {
        single = λ tenant version. rw p.artifacts (added.single tenant version);
        artifacts = rw p.artifacts added.artifacts;
        backed =
            rw (p.artifacts, p.versions)
              (
                λ ready. (a, ground arith, refl, path, digest-nonempty s.checksum_sha256 p.digest),
                added.backed,
              );
      }

  Completed-IsIntact :
      (tenant id : ℕ) (r : RegistrationRow) (after : Db)
      → All HasPath db.registrations
      → Completed fresh tenant id db r after
      → IsIntact after
  Completed-IsIntact tenant id r after paths (Completed.already e h same) =
      subst IsIntact (sym same) intact
  Completed-IsIntact tenant id r after paths (Completed.publishes s model e u p) =
      Published-IsIntact s model r after
        (find-All HasPath (is_registration tenant id) db.registrations s e paths) p

module _ (libs : Libs) (text_of : Error → String) (fresh : Fresh) (tenant id : String) where
  catalog-IsIntact : (db d : Db) → SameCatalog db d → IsIntact db → IsIntact d
  catalog-IsIntact db d same intact = same-IsIntact intact same.artifacts same.versions

  settled-IsIntact :
      (db : Db) (t i : ℕ) (o : Res RegistrationRow × Db)
      → IsIntact db
      → All HasPath db.registrations
      → After (Completed fresh t i db) o
      → ((x : Error) → o.0 ≡ err x → o.1 ≡ db)
      → IsIntact (settled libs text_of tenant id o.0 o.1).1
  settled-IsIntact db t i (ok r, d) intact paths a k =
      Completed-IsIntact fresh db intact t i r d paths a
  settled-IsIntact db t i (err x, d) intact paths a k =
      catalog-IsIntact db (settled libs text_of tenant id (err x) d).1
        (settled_err libs text_of fresh tenant id db (err x, d) x k refl) intact

  -- When each registration has a storage path, Complete keeps every ready version, the one that it
  -- publishes included, backed by its one artifact with the digest of the version.
  pub complete-IsIntact :
      (db : Db)
      → IsIntact db
      → All HasPath db.registrations
      → IsIntact (Complete.complete libs text_of fresh tenant id db).1
  unfolding Complete.complete
  complete-IsIntact db intact paths =
      lift_cases IsIntact (parse_registration_ids libs tenant id) _ db intact λ ids.
        settled-IsIntact db ids.0 ids.1 (complete_row fresh ids.0 ids.1 db) intact paths
          (complete_row-After fresh ids.0 ids.1 db) (complete_row_err fresh ids.0 ids.1 db)
