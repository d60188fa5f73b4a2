-- ===== src/ImportExecutor/Recording.antt =====
-- A repeated record of an imported object (persistArtifact of internal/worker/import_executor.go).
use mathlib.Core.Path.{subst}
use ani_model_service.Prelude.{
  ℕ, String, ◌≡◌, ◌⊎◌, refl, sym, ap, ◌∙◌, true, false, ok, err, str_eq, is_negative, some, none,
  Option, any, arith, Bool-cases, inl, inr,
}
use ani_model_service.Errors.{Res, Error}
use ani_model_service.Text.{is_sha256}
use ani_model_service.Database.Table.{find, find-count, count_of_any, any_weaken}
use ani_model_service.Database.Rows.{ArtifactRow}
use ani_model_service.Database.Exec.{
  Db, Exec, lift, row, pure, attempt, ◌>>=◌, Libs, parse_id, gets,
}
use ani_model_service.Database.Versions
use ani_model_service.Database.Versions.{artifact_clashes, is_artifact}
use ani_model_service.Model.{Artifact, validate_artifact}
use ani_model_service.Work.{Task}
use ani_model_service.VersionStore
use ani_model_service.VersionStore.{artifact_row, artifact_of_row, to_column}
use ani_model_service.ImportExecutor.{
  ImportResult, persist_artifact, wanted, same_facts, replayed, persisted,
}
use ani_model_service.ImportExecutor.Creation.{
  Creation, creates, clashes, unchecked, dangles, creation, same_own_facts, validate_cases,
  parse_cases, model_ids_cases,
}

module _ (libs : Libs) (t : Task) (r : ImportResult) where
  abbrev create_from : Res (Unit {0}) → Res (ℕ × ℕ) → Res ℕ → Exec Artifact
  create_from x y z = lift x >>= λ u. lift y >>= λ ids. lift z >>= λ version.
      gets (λ db. db.clock) >>= λ now.
      Versions.create_model_artifact (artifact_row libs ids.0 ids.1 version (wanted t r) now)
      >>= λ a. pure (artifact_of_row libs a)

  abbrev get_from : Res ℕ → Res ℕ → Exec Artifact
  get_from x y = lift x >>= λ tenant. lift y >>= λ version.
      Versions.get_model_artifact tenant version >>= λ a. pure (artifact_of_row libs a)

  create_lem :
      (x : Res (Unit {0})) (y : Res (ℕ × ℕ)) (z : Res ℕ) (db : Db)
      → validate_artifact (wanted t r) ≡ x
      → VersionStore.parse_model_ids libs t.tenant_id t.id ≡ y
      → parse_id libs "model_version_id" t.version_id ≡ z
      → VersionStore.create_artifact libs (wanted t r) db ≡ create_from x y z db
  unfolding VersionStore.create_artifact
  create_lem x y z db e f g =
      ap
        (λ w.
          create_from w (VersionStore.parse_model_ids libs t.tenant_id t.id)
            (parse_id libs "model_version_id" t.version_id) db)
        e
      ∙ (ap (λ w. create_from x w (parse_id libs "model_version_id" t.version_id) db) f
          ∙ ap (λ w. create_from x y w db) g)

  get_lem :
      (x y : Res ℕ) (db : Db)
      → parse_id libs "tenant_id" t.tenant_id ≡ x
      → parse_id libs "model_version_id" t.version_id ≡ y
      → VersionStore.get_artifact libs t.tenant_id t.version_id db ≡ get_from x y db
  unfolding VersionStore.get_artifact
  get_lem x y db e f =
      ap (λ w. get_from w (parse_id libs "model_version_id" t.version_id) db) e
      ∙ ap (λ w. get_from x w db) f

  -- persistArtifact after the outcome of CreateArtifact.
  abbrev persist_from : Res Artifact × Db → Res (Unit {0}) × Db
  persist_from o = persisted libs t (wanted t r) o.0 o.1

  abbrev Recorded : ℕ → ℕ → ℕ → Db → Type 0
  Recorded tenant id version d =
      (a : ArtifactRow) × (find (is_artifact tenant version) d.artifacts ≡ some a)
      × (same_facts (artifact_of_row libs a) (wanted t r) ≡ true)

  module _ (tenant id version : ℕ) (digest : is_sha256 r.checksum_sha256 ≡ true)
      (size : is_negative r.size_bytes ≡ false)
      (p : parse_id libs "tenant_id" t.tenant_id ≡ ok tenant)
      (v : parse_id libs "model_version_id" t.version_id ≡ ok version) where
    abbrev outcome : Res ArtifactRow × Db → Res Artifact × Db
    outcome o = (lift o.0 >>= λ a. pure (artifact_of_row libs a)) o.1

    abbrev fresh : Db → ArtifactRow
    fresh db = artifact_row libs tenant id version (wanted t r) db.clock

    abbrev read : Option ArtifactRow → Exec Artifact
    read o = lift (row o) >>= λ a. pure (artifact_of_row libs a)

    replayed-Recorded :
        (o : Option ArtifactRow) (db : Db)
        → find (is_artifact tenant version) db.artifacts ≡ o
        → (replayed (wanted t r) (read o db).0 db).0 ≡ ok tt
        → Recorded tenant id version db
    replayed-Recorded none db e h = absurd (cc)
    replayed-Recorded (some a) db e h =
        elim (Bool-cases (same_facts (artifact_of_row libs a) (wanted t r))) [
          | inl f ↦ (a, e, f)
          | inr f ↦ absurd (cc (rw f at h))
        ]

    replayed-state : (o : Res Artifact) (d : Db) → (replayed (wanted t r) o d).1 ≡ d
    replayed-state (err e) d = refl
    replayed-state (ok a) d = ground arith

    get_read :
        (db : Db)
        → VersionStore.get_artifact libs t.tenant_id t.version_id db
          ≡ read (find (is_artifact tenant version) db.artifacts) db
    unfolding Versions.get_model_artifact
    get_read db = get_lem (ok tenant) (ok version) db p v

    read-state : (o : Option ArtifactRow) (db : Db) → (read o db).1 ≡ db
    read-state none db = refl
    read-state (some a) db = refl

    abbrev clashed : Db → Res (Unit {0}) × Db
    clashed db =
        (attempt (VersionStore.get_artifact libs t.tenant_id t.version_id)
            >>= replayed (wanted t r))
          db

    clashed_lem :
        (db : Db)
        → clashed db
          ≡ replayed (wanted t r) (read (find (is_artifact tenant version) db.artifacts) db).0 db
    clashed_lem db =
        ap (λ (o : Res Artifact × Db). replayed (wanted t r) o.0 o.1) (get_read db)
        ∙ ap (replayed (wanted t r) (read (find (is_artifact tenant version) db.artifacts) db).0)
            (read-state (find (is_artifact tenant version) db.artifacts) db)

    -- A first record that succeeds leaves the artifact of the version, with the facts of the import.
    created-Recorded :
        (db : Db) (o : Res ArtifactRow × Db)
        → Creation (fresh db) db o
        → (persist_from (outcome o)).0 ≡ ok tt
        → Recorded tenant id version (persist_from (outcome o)).1
    unfolding find
    created-Recorded db _ (creates c) h =
        (fresh db, ground arith, same_own_facts libs t r tenant id version db.clock size)
    created-Recorded db _ (clashes c) h =
        let e = clashed_lem db in
        let k =
          replayed-Recorded (find (is_artifact tenant version) db.artifacts) db refl
            (sym (ap (λ (o : Res (Unit {0}) × Db). o.0) e) ∙ h) in
        subst (λ d. Recorded tenant id version d)
          (sym (
            ap (λ (o : Res (Unit {0}) × Db). o.1) e
            ∙ replayed-state (read (find (is_artifact tenant version) db.artifacts) db).0 db))
          k
    created-Recorded db _ unchecked h = absurd (cc)
    created-Recorded db _ dangles h = absurd (cc)

    create_clash :
        (db : Db) (a : ArtifactRow)
        → find (is_artifact tenant version) db.artifacts ≡ some a
        → Versions.create_model_artifact (fresh db) db ≡ (err Error.unique_violation, db)
    unfolding Versions.create_model_artifact
    create_clash db a f = elim (Bool-cases (any (artifact_clashes (fresh db)) db.artifacts)) [
      | inl c ↦ rw (digest, c) refl
      | inr c ↦ absurd (cc (free c, f))
    ]
      where
        free :
            any (artifact_clashes (fresh db)) db.artifacts ≡ false
            → find (is_artifact tenant version) db.artifacts ≡ none
        free c = find-count (is_artifact tenant version) db.artifacts (
            count_of_any (is_artifact tenant version) db.artifacts (
              any_weaken (is_artifact tenant version) (artifact_clashes (fresh db))
                (λ b k. ground arith) db.artifacts c))

    -- A later record meets the artifact and finds its facts the same.
    Recorded-persisted :
        (db : Db)
        → Recorded tenant id version db
        → persist_from (outcome (Versions.create_model_artifact (fresh db) db)) ≡ (ok tt, db)
    Recorded-persisted db (a, f, same) =
        ap (λ o. persist_from (outcome o)) (create_clash db a f)
        ∙ (clashed_lem db ∙ (ap (λ x. replayed (wanted t r) (read x db).0 db) f ∙ rw same refl))

  -- When persistArtifact has recorded the result of an import for a version, recording the same
  -- result again, as a worker does after a crash, succeeds and writes nothing.
  pub persist-persist :
      (db d : Db)
      → str_eq t.version_id "" ≡ false
      → persist_artifact libs t r db ≡ (ok tt, d)
      → persist_artifact libs t r d ≡ (ok tt, d)
  unfolding persist_artifact
  persist-persist db d named h =
      go (validate_cases (wanted t r)) (model_ids_cases libs t.tenant_id t.id)
        (parse_cases libs "model_version_id" t.version_id)
    where
      step :
          (e : Db)
          → persist_artifact libs t r e
            ≡ persist_from (VersionStore.create_artifact libs (wanted t r) e)
      step e = rw named refl

      first : persist_from (VersionStore.create_artifact libs (wanted t r) db) ≡ (ok tt, d)
      first = sym (step db) ∙ h

      go :
          ((validate_artifact (wanted t r) ≡ ok tt)
              × (is_sha256 r.checksum_sha256 ≡ true)
              × (is_negative r.size_bytes ≡ false))
            ⊎ (validate_artifact (wanted t r) ≡ err Error.invalid_model_version)
          → ((ids : ℕ × ℕ) × (VersionStore.parse_model_ids libs t.tenant_id t.id ≡ ok ids)
              × (parse_id libs "tenant_id" t.tenant_id ≡ ok ids.0))
            ⊎ ((field : String) × (VersionStore.parse_model_ids libs t.tenant_id t.id
                  ≡ err (Error.invalid_id field)))
          → ((u : ℕ) × (parse_id libs "model_version_id" t.version_id ≡ ok u))
            ⊎ (parse_id libs "model_version_id" t.version_id
                ≡ err (Error.invalid_id "model_version_id"))
          → persist_artifact libs t r d ≡ (ok tt, d)
      go (inr e) y z = absurd (cc (ap persist_from (create_lem _ _ _ db e refl refl), first))
      go (inl x) (inr (field, e)) z =
          absurd (cc (ap persist_from (create_lem _ _ _ db x.0 e refl), first))
      go (inl x) (inl (ids, e, p)) (inr f) =
          absurd (cc (ap persist_from (create_lem _ _ _ db x.0 e f), first))
      go (inl (x, digest, size)) (inl ((tenant, id), e, p)) (inl (version, v)) =
          let made =
            Versions.create_model_artifact
              (artifact_row libs tenant id version (wanted t r) db.clock) db in
          let same = sym (ap persist_from (create_lem _ _ _ db x e v)) ∙ first in
          let recorded =
            created-Recorded tenant id version digest size p v db made (creation _ db)
              (ap (λ (o : Res (Unit {0}) × Db). o.0) same) in
          step d
          ∙ (ap persist_from (create_lem _ _ _ d x e v)
              ∙ Recorded-persisted tenant id version digest size p v d (
                  subst (λ d. Recorded tenant id version d)
                    (ap (λ (o : Res (Unit {0}) × Db). o.1) same) recorded))
