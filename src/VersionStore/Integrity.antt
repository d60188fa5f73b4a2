-- ===== src/VersionStore/Integrity.antt =====
-- A ready version is backed by its artifact: version_store.go, artifact_store.go and
-- RetryFailed of work_store.go.
use mathlib.Core.Path.{subst}
use ani_model_service.Prelude.{
  ℕ, ◌≤◌, String, ◌≡◌, refl, sym, ◌∙◌, ◌≢◌, Bool, true, false, ◌&&◌, not, str_eq, ℤ, Option, none,
  some, List, ◌∷◌, any, All, arith, Bool-cases, inl, inr, eq_iff,
}
use ani_model_service.Text.{is_sha256}
use ani_model_service.Database.Table.{
  find, update, count, All-update, All-map, count_of_any, any_weaken, find-count,
}
use ani_model_service.Database.Table.Keyed.{any_keyed}
use ani_model_service.Database.Rows.{VersionRow, ArtifactRow, is_ready}
use ani_model_service.Database.Exec.{Db}
use ani_model_service.Database.Versions
use ani_model_service.Database.Versions.{is_artifact, backs}

-- The artifact row of a ready version: an object reference, and the version's own checksum.
abbrev pub Backed : List ArtifactRow → VersionRow → Type 0
Backed rows v =
    is_ready v.status ≡ true
    → (a : ArtifactRow) × (find (is_artifact v.tenant_id v.id) rows ≡ some a)
      × (a.sha256 ≡ v.checksum_sha256)
      × (a.reference ≢ "")
      × (a.sha256 ≢ "")

pub record IsArtifact (a : ArtifactRow) : Type 0 where
  pub digest : is_sha256 a.sha256 ≡ true
  pub provided : a.provider ≢ ""
  pub referenced : a.reference ≢ ""

pub record IsIntact (db : Db) : Type 0 where
  pub single : (tenant version : ℕ) → count (is_artifact tenant version) db.artifacts ≤ 1
  pub artifacts : All IsArtifact db.artifacts
  pub backed : All (Backed db.artifacts) db.versions

-- A write to versions that leaves the artifacts alone, row by row.
module _ {db db' : Db} (intact : IsIntact db) (same : db'.artifacts ≡ db.artifacts) where
  pub update-IsIntact :
      (p : VersionRow → Bool) (f : VersionRow → VersionRow)
      → db'.versions ≡ update p f db.versions
      → ((v : VersionRow) → p v ≡ true → Backed db.artifacts v → Backed db.artifacts (f v))
      → IsIntact db'
  update-IsIntact p f e k = record {
    single = λ tenant version. rw same (intact.single tenant version);
    artifacts = subst (All IsArtifact) (sym same) intact.artifacts;
    backed =
        subst (λ rows. All (Backed rows) db'.versions) (sym same)
          (subst (All (Backed db.artifacts)) (sym e)
            (All-update (Backed db.artifacts) p f k db.versions intact.backed));
  }

  pub same-IsIntact : db'.versions ≡ db.versions → IsIntact db'
  same-IsIntact e = record {
    single = λ tenant version. rw same (intact.single tenant version);
    artifacts = subst (All IsArtifact) (sym same) intact.artifacts;
    backed =
        subst (λ rows. All (Backed rows) db'.versions) (sym same)
          (subst (All (Backed db.artifacts)) (sym e) intact.backed);
  }

-- The EXISTS of MarkModelVersionReady finds the one artifact of the version.
backs-Backed :
    (db : Db) (v : VersionRow)
    → IsIntact db
    → any (backs v) db.artifacts ≡ true
    → (a : ArtifactRow) × (find (is_artifact v.tenant_id v.id) db.artifacts ≡ some a)
      × (a.sha256 ≡ v.checksum_sha256)
      × (a.reference ≢ "")
      × (a.sha256 ≢ "")
backs-Backed db v intact h =
    let (a, f, c) =
      any_keyed (is_artifact v.tenant_id v.id)
        (λ a.
          not (str_eq a.reference "")
          && (str_eq a.sha256 v.checksum_sha256 && not (str_eq a.sha256 "")))
        db.artifacts (intact.single v.tenant_id v.id) h in
    (
      a,
      f,
      ground (arith, eq_iff a.sha256 v.checksum_sha256),
      ground (arith, eq_iff a.reference ""),
      ground (arith, eq_iff a.sha256 ""),
    )

module _ (db : Db) (intact : IsIntact db) where
  pub ready-IsIntact : (tenant id : ℕ) → IsIntact (Versions.mark_model_version_ready tenant id db).1
  unfolding Versions.mark_model_version_ready
  ready-IsIntact tenant id =
      update-IsIntact intact refl (Versions.can_be_ready tenant id db)
        (Versions.version_ready db.clock) refl λ v h b r. backs-Backed db v intact (ground arith)

  pub error-IsIntact :
      (tenant id : ℕ) (message : String)
      → IsIntact (Versions.mark_model_version_error tenant id message db).1
  unfolding Versions.mark_model_version_error
  error-IsIntact tenant id message = update-IsIntact intact refl _ _ refl (λ v h b r. cc)

  pub checksum-IsIntact :
      (tenant id : ℕ) (checksum : String) (size : ℤ)
      → IsIntact (Versions.set_model_version_checksum tenant id checksum size db).1
  unfolding Versions.set_model_version_checksum
  checksum-IsIntact tenant id checksum size = update-IsIntact intact refl _ _ refl λ v h b r.
      let (a, f, s, n, m) = b r in
      (a, f, s ∙ ground (arith, eq_iff v.checksum_sha256 checksum), n, m)

  failed_row-IsIntact :
      (p : VersionRow → Bool) (message : String) (o : Option VersionRow)
      → IsIntact (Versions.failed_row db.clock o db p message).1
  failed_row-IsIntact p message none = intact
  failed_row-IsIntact p message (some v) = update-IsIntact intact refl p _ refl (λ v h b r. cc)

  pub error_for_task-IsIntact :
      (tenant task version : ℕ) (owner : String) (epoch : ℕ) (message : String)
      → IsIntact
          (Versions.mark_model_version_error_for_task tenant task version owner epoch message db).1
  unfolding Versions.mark_model_version_error_for_task
  error_for_task-IsIntact tenant task version owner epoch message =
      failed_row-IsIntact (Versions.fails_version tenant task version owner epoch db) message
        (find (Versions.fails_version tenant task version owner epoch db) db.versions)

  -- The new artifact belongs to no version that already had one.
  pub add_artifact :
      (a : ArtifactRow)
      → IsArtifact a
      → any (Versions.artifact_clashes a) db.artifacts ≡ false
      → IsIntact (record db { artifacts = a ∷ db.artifacts })
  unfolding count find
  add_artifact a sound clash = record {
    single = λ tenant version. ground (arith, intact.single tenant version, unused tenant version);
    artifacts = (sound, intact.artifacts);
    backed =
        All-map (Backed db.artifacts) (Backed (a ∷ db.artifacts)) kept db.versions intact.backed;
  }
    where
      unused :
          (tenant version : ℕ)
          → is_artifact tenant version a ≡ true
          → count (is_artifact tenant version) db.artifacts ≡ 0
      unused tenant version same = count_of_any (is_artifact tenant version) db.artifacts (
          any_weaken (is_artifact tenant version) (Versions.artifact_clashes a)
            (λ b k. ground arith) db.artifacts clash)

      kept : (v : VersionRow) → Backed db.artifacts v → Backed (a ∷ db.artifacts) v
      kept v b r = elim (Bool-cases (is_artifact v.tenant_id v.id a)) [
        | inr other ↦ let (x, f, s, n, m) = b r in (x, rw other f, s, n, m)
        | inl mine ↦ absurd (
            cc (
              find-count (is_artifact v.tenant_id v.id) db.artifacts (unused v.tenant_id v.id mine),
              (b r).1,
            ))
      ]
