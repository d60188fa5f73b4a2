-- ===== src/VersionStore/Lookup.antt =====
-- GetVersion of version_store.go against Version.DeploymentInput of internal/biz/model/model.go.
use ani_model_service.Prelude.{
  ℕ, String, ◌≡◌, refl, sym, ap, ◌∙◌, true, false, List, [], ◌∷◌, All, not, ◌||◌, ok, err, Option,
  none, some, arith, Bool-cases, inl, inr, eq_iff, str_eq, if◌then◌else◌,
}
use ani_model_service.Errors.{Res, Error}
use ani_model_service.Text.{is_sha256}
use ani_model_service.Model.{Version, deployment_input, validate_version}
use ani_model_service.Database.Table.{find, find-All, count}
use ani_model_service.Database.Rows.{VersionRow, ModelRow, ArtifactRow, is_ready, is_live}
use ani_model_service.Database.Exec.{Db, Libs, row, lift, pure, ◌>>=◌}
use ani_model_service.Database.Versions
use ani_model_service.Database.Versions.{is_artifact, join_artifact, join_model, join_version}
use ani_model_service.VersionStore
use ani_model_service.VersionStore.Integrity.{IsIntact, IsArtifact, Backed}
use ani_model_service.VersionStore.Intact.{Call, run, run-IsIntact}

abbrev Joined : Type 0
Joined = VersionRow × ModelRow × ArtifactRow

-- What a join of a ready version with its artifact satisfies.
abbrev pub IsServable : Joined → Type 0
IsServable r = (is_ready r.0.status ≡ true) × IsArtifact r.2 × (r.2.sha256 ≡ r.0.checksum_sha256)

-- A join gives nothing, or the version with its live model and its artifact.
abbrev Served : VersionRow → Option Joined → Type 0
Served v none = Unit {0}
Served v (some r) = (r.0 ≡ v) × IsServable r

module _ (db : Db) (intact : IsIntact db) (v : VersionRow) (backed : Backed db.artifacts v) where
  join_artifact-Served :
      (m : ModelRow) (o : Option ArtifactRow)
      → is_ready v.status ≡ true
      → find (is_artifact v.tenant_id v.id) db.artifacts ≡ o
      → Served v (join_artifact v m o)
  join_artifact-Served m none h e = tt
  join_artifact-Served m (some a) h e = elim (Bool-cases (str_eq a.sha256 "")) [
    | inl x ↦ rw x tt
    | inr x ↦
        let (b, f, same, _, _) = backed h in
        let ab : b ≡ a = ground (arith, e, f) in
        rw x (
          refl,
          (
            h,
            find-All IsArtifact (is_artifact v.tenant_id v.id) db.artifacts a e intact.artifacts,
            sym (ap (λ (c : ArtifactRow). c.sha256) ab) ∙ same,
          ),
        )
  ]

  join_model-Served :
      (o : Option ModelRow) → is_ready v.status ≡ true → Served v (join_model db v o)
  join_model-Served none h = tt
  join_model-Served (some m) h = elim (Bool-cases (is_live m.status)) [
    | inr x ↦ rw x tt
    | inl x ↦ rw x (join_artifact-Served m _ h refl)
  ]

  join_version-Served : Served v (join_version db (some v))
  join_version-Served = elim (Bool-cases (is_ready v.status)) [
    | inr x ↦ rw x tt
    | inl x ↦ rw x (join_model-Served _ x)
  ]

servable-deployable :
    (libs : Libs) (tenant id : String) (r : Joined)
    → IsServable r
    → deployment_input (VersionStore.version_of_row libs tenant id r)
      ≡ validate_version (VersionStore.version_of_row libs tenant id r)
unfolding deployment_input VersionStore.version_of_row
servable-deployable libs tenant id (v, m, a) (ready, sound, same) =
    checked (validate_version (VersionStore.version_of_row libs tenant id (v, m, a)))
  where
    checked :
        (r : Res (Unit {0}))
        → elim r [
          | err e ↦ err e
          | ok _ ↦
              if not (is_ready v.status)
                || (str_eq a.provider "" || (str_eq a.reference "" || not (is_sha256 a.sha256)))
              then err Error.model_not_ready
              else ok tt
        ]
          ≡ r
    checked (err e) = refl
    checked (ok tt) = ground (
      arith,
      ready,
      sound.digest,
      sound.provided,
      sound.referenced,
      eq_iff a.provider "",
      eq_iff a.reference "",
    )

-- What GetVersion hands out is the join of the version row of the id.
module _ (libs : Libs) (tenant id : String) (db : Db) (ids : ℕ × ℕ) where
  abbrev pub Found : Version → Type 0
  Found w =
      (r : Joined) × (find (Versions.is_version ids.0 ids.1) db.versions ≡ some r.0)
      × IsServable r
      × (w ≡ VersionStore.version_of_row libs tenant id r)

  joined_ok :
      (v : VersionRow) (o : Option Joined) (w : Version)
      → find (Versions.is_version ids.0 ids.1) db.versions ≡ some v
      → Served v o
      → ((lift (row o) >>= λ r. pure (VersionStore.version_of_row libs tenant id r)) db).0 ≡ ok w
      → Found w
  joined_ok v none w e s h = absurd (cc)
  joined_ok v (some r) w e (same, s) h = (r, e ∙ ap some (sym same), s, cc)

  rows_ok :
      (o : Option VersionRow) (w : Version)
      → IsIntact db
      → find (Versions.is_version ids.0 ids.1) db.versions ≡ o
      → ((lift (row (join_version db o)) >>= λ r.
            pure (VersionStore.version_of_row libs tenant id r))
          db).0
        ≡ ok w
      → Found w
  rows_ok none w intact e h = absurd (cc)
  rows_ok (some v) w intact e h =
      joined_ok v (join_version db (some v)) w e
        (join_version-Served db intact v (
          find-All (Backed db.artifacts) (Versions.is_version ids.0 ids.1) db.versions v e
            intact.backed))
        h

  pub get_version_ok :
      (w : Version)
      → IsIntact db
      → VersionStore.parse_model_ids libs tenant id ≡ ok ids
      → (VersionStore.get_version libs tenant id db).0 ≡ ok w
      → Found w
  unfolding VersionStore.get_version Versions.get_ready_model_version
  get_version_ok w intact p h =
      rows_ok (find (Versions.is_version ids.0 ids.1) db.versions) w intact refl (rw p at h)

no_artifacts-IsIntact :
    (db : Db) → db.artifacts ≡ [] → All (λ v. is_ready v.status ≡ false) db.versions → IsIntact db
unfolding count
no_artifacts-IsIntact db e none_ready = record {
  single = λ tenant version. rw e (omega arith);
  artifacts = rw e tt;
  backed = unready db.versions none_ready;
}
  where
    unready :
        (vs : List VersionRow)
        → All (λ v. is_ready v.status ≡ false) vs
        → All (Backed db.artifacts) vs
    unready [] h = tt
    unready (v ∷ vs) h = ((λ r. absurd (ground (arith, h.0, r))), unready vs h.1)

-- From tables without an artifact and without a ready version, after any sequence of MarkReady,
-- MarkError, MarkErrorAndMaybeModel, SetChecksum, CreateArtifact and RetryFailed calls, a version
-- that GetVersion returns is refused for deployment only for what Version.Validate refuses, and it
-- has the digest of a ready row of its id, which is a SHA-256.
pub run-deployable :
    (libs : Libs) (calls : List Call) (db : Db) (tenant id : String) (ids : ℕ × ℕ) (w : Version)
    → db.artifacts ≡ []
    → All (λ v. is_ready v.status ≡ false) db.versions
    → VersionStore.parse_model_ids libs tenant id ≡ ok ids
    → (VersionStore.get_version libs tenant id (run libs calls db)).0 ≡ ok w
    → (deployment_input w ≡ validate_version w)
      × (is_sha256 w.artifact_sha256 ≡ true)
      × (v : VersionRow) × (find (Versions.is_version ids.0 ids.1) (run libs calls db).versions
          ≡ some v)
      × (is_ready v.status ≡ true)
      × (w.artifact_sha256 ≡ v.checksum_sha256)
unfolding VersionStore.version_of_row
run-deployable libs calls db tenant id ids w e none_ready p h =
    let d = run libs calls db in
    let intact = run-IsIntact libs calls db (no_artifacts-IsIntact db e none_ready) in
    let (r, f, s, same) = get_version_ok libs tenant id d ids w intact p h in
    rw same (servable-deployable libs tenant id r s, s.1.digest, r.0, f, s.0, s.2)
