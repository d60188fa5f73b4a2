-- ===== src/ImportExecutor/Creation.antt =====
-- The cases of CreateArtifact (internal/data/postgres/artifact_store.go) for the artifact of an import.
use ani_model_service.Prelude.{
  ℕ, String, ◌≡◌, ◌⊎◌, refl, ◌∙◌, true, false, ok, err, ℤ, pos, negsuc, is_negative, some, none,
  Option, any, ◌∷◌, arith, eq_iff, Bool-cases, inl, inr,
}
use ani_model_service.Errors.{Res, Error}
use ani_model_service.Text.{is_sha256}
use ani_model_service.Database.Rows.{ArtifactRow}
use ani_model_service.Database.Exec.{Db, Libs, parse_id}
use ani_model_service.Database.Versions
use ani_model_service.Database.Versions.{artifact_clashes, is_artifact}
use ani_model_service.Model.{Artifact, validate_artifact}
use ani_model_service.Work.{Task}
use ani_model_service.VersionStore
use ani_model_service.VersionStore.{artifact_row, artifact_of_row, to_column}
use ani_model_service.ImportExecutor.{ImportResult, wanted, same_facts, same_size}

-- What an INSERT of an artifact with a valid digest leads to.
pub data Creation (a : ArtifactRow) (db : Db) : Res ArtifactRow × Db → Type 0 where
  creates :
      any (artifact_clashes a) db.artifacts ≡ false
      → Creation a db (ok a, record db { artifacts = a ∷ db.artifacts })
  clashes :
      any (artifact_clashes a) db.artifacts ≡ true → Creation a db (err Error.unique_violation, db)
  unchecked : Creation a db (err Error.check_violation, db)
  dangles : Creation a db (err Error.foreign_key_violation, db)

pub creation : (a : ArtifactRow) (db : Db) → Creation a db (Versions.create_model_artifact a db)
unfolding Versions.create_model_artifact
creation a db = elim (Bool-cases (is_sha256 a.sha256)) [
  | inr e ↦ rw e unchecked
  | inl e ↦ elim (Bool-cases (any (artifact_clashes a) db.artifacts)) [
    | inl c ↦ rw (e, c) (clashes c)
    | inr c ↦
        elim (Bool-cases (any (Versions.is_version a.tenant_id a.model_version_id) db.versions)) [
          | inr f ↦ rw (e, c, f) dangles
          | inl f ↦ rw (e, c, f) (creates c)
        ]
  ]
]

same_size_refl : (n : ℤ) → same_size n n ≡ true
same_size_refl (pos n) = ground arith
same_size_refl (negsuc n) = ground arith

column_size : (n : ℤ) → is_negative n ≡ false → same_size (pos (to_column n)) n ≡ true
column_size (pos n) h = ground arith
column_size (negsuc n) h = absurd (cc)

module _ (libs : Libs) (t : Task) (r : ImportResult) where
  pub same_own_facts :
      (tenant id version now : ℕ)
      → is_negative r.size_bytes ≡ false
      → same_facts
          (artifact_of_row libs (artifact_row libs tenant id version (wanted t r) now))
          (wanted t r)
        ≡ true
  unfolding artifact_of_row
  same_own_facts tenant id version now h = ground (
    arith,
    column_size r.size_bytes h,
    eq_iff r.object_ref r.object_ref,
    eq_iff r.checksum_sha256 r.checksum_sha256,
    eq_iff (wanted t r).format (wanted t r).format,
  )

pub validate_cases :
    (a : Artifact)
    → ((validate_artifact a ≡ ok tt)
        × (is_sha256 a.sha256 ≡ true)
        × (is_negative a.size_bytes ≡ false))
      ⊎ (validate_artifact a ≡ err Error.invalid_model_version)
unfolding validate_artifact
validate_cases a = ground arith

pub parse_cases :
    (libs : Libs) (field text : String)
    → ((u : ℕ) × (parse_id libs field text ≡ ok u))
      ⊎ (parse_id libs field text ≡ err (Error.invalid_id field))
parse_cases libs field text = go (libs.parse_uuid text)
  where
    go :
        (o : Option ℕ)
        → ((u : ℕ) × (elim o [ none ↦ err (Error.invalid_id field) | some u ↦ ok u ] ≡ ok u))
          ⊎ (elim o [ none ↦ err (Error.invalid_id field) | some u ↦ ok u ]
              ≡ err (Error.invalid_id field))
    go none = inr refl
    go (some u) = inl (u, refl)

pub model_ids_cases :
    (libs : Libs) (tenant model : String)
    → ((ids : ℕ × ℕ) × (VersionStore.parse_model_ids libs tenant model ≡ ok ids)
        × (parse_id libs "tenant_id" tenant ≡ ok ids.0))
      ⊎ ((field : String) × (VersionStore.parse_model_ids libs tenant model
            ≡ err (Error.invalid_id field)))
unfolding VersionStore.parse_model_ids
model_ids_cases libs tenant model =
    go (parse_id libs "tenant_id" tenant) (parse_id libs "model_id" model) refl
      (parse_cases libs "tenant_id" tenant) (parse_cases libs "model_id" model)
  where
    both : Res ℕ → Res ℕ → Res (ℕ × ℕ)
    both x y = elim x [ err e ↦ err e | ok t ↦ elim y [ err e ↦ err e | ok id ↦ ok (t, id) ] ]

    go :
        (x y : Res ℕ)
        → parse_id libs "tenant_id" tenant ≡ x
        → ((u : ℕ) × (x ≡ ok u)) ⊎ (x ≡ err (Error.invalid_id "tenant_id"))
        → ((u : ℕ) × (y ≡ ok u)) ⊎ (y ≡ err (Error.invalid_id "model_id"))
        → ((ids : ℕ × ℕ) × (both x y ≡ ok ids) × (parse_id libs "tenant_id" tenant ≡ ok ids.0))
          ⊎ ((field : String) × (both x y ≡ err (Error.invalid_id field)))
    go x y e (inr h) k = inr ("tenant_id", rw h refl)
    go x y e (inl (t, h)) (inr k) = inr ("model_id", rw (h, k) refl)
    go x y e (inl (t, h)) (inl (m, k)) = inl ((t, m), rw (h, k) refl, e ∙ h)
