-- ===== src/Database/Versions.antt =====
-- The statements on model_versions and model_artifacts (internal/data/postgres/model.sql.go).
-- A JOIN on a primary key or a unique index is the lookup of one row.
use ani_model_service.Prelude.{
  ℕ, String, Bool, true, ◌&&◌, ◌||◌, not, ok, err, ◌==◌, str_eq, if◌then◌else◌, ℤ, pos, negsuc,
  Option, none, some, any, ◌∷◌,
}
use ani_model_service.Errors.{Res, Error}
use ani_model_service.Text.{is_sha256}
use ani_model_service.Database.Table.{find, update, count}
use ani_model_service.Database.Rows.{
  ModelRow, ModelStatus, VersionRow, VersionStatus, ArtifactRow, TaskRow, is_open, is_ready,
  is_live, is_unready,
}
use ani_model_service.Database.Exec.{Db, Exec, row}
use ani_model_service.Database.Tasks.{is_leased, is_id, is_task}

-- tenant_id = $1 AND id = $2
abbrev pub is_version : ℕ → ℕ → VersionRow → Bool
is_version tenant id v = v.tenant_id == tenant && v.id == id

abbrev pub is_model : ℕ → ℕ → ModelRow → Bool
is_model tenant id m = m.tenant_id == tenant && m.id == id

-- a.tenant_id = v.tenant_id AND a.model_version_id = v.id
abbrev pub is_artifact : ℕ → ℕ → ArtifactRow → Bool
is_artifact tenant version a = a.tenant_id == tenant && a.model_version_id == version

abbrev pub join_artifact :
    VersionRow → ModelRow → Option ArtifactRow → Option (VersionRow × ModelRow × ArtifactRow)
join_artifact v m none = none
join_artifact v m (some a) = if str_eq a.sha256 "" then none else some (v, m, a)

abbrev pub join_model :
    Db → VersionRow → Option ModelRow → Option (VersionRow × ModelRow × ArtifactRow)
join_model db v none = none
join_model db v (some m) =
    if is_live m.status
    then join_artifact v m (find (is_artifact v.tenant_id v.id) db.artifacts)
    else none

abbrev pub join_version : Db → Option VersionRow → Option (VersionRow × ModelRow × ArtifactRow)
join_version db none = none
join_version db (some v) =
    if is_ready v.status
    then join_model db v (find (is_model v.tenant_id v.model_id) db.models)
    else none

-- v JOIN m JOIN a WHERE v.tenant_id = $1 AND v.id = $2 AND m.status <> 'deleted'
--   AND v.status = 'ready' AND a.sha256 <> ''
unfoldable pub get_ready_model_version : ℕ → ℕ → Exec (VersionRow × ModelRow × ArtifactRow)
get_ready_model_version tenant id db =
    (row (join_version db (find (is_version tenant id) db.versions)), db)

-- WHERE v.tenant_id = $1 AND m.model_id = $2 AND v.version = $3: models_external_model_id_uq
-- leaves one model of the name, and (tenant_id, model_id, version) is unique.
abbrev pub named_version : Db → String → Option ModelRow → Option VersionRow
named_version db version none = none
named_version db version (some m) =
    find (λ v. v.tenant_id == m.tenant_id && (v.model_id == m.id && str_eq v.version version))
      db.versions

unfoldable pub get_ready_model_version_by_external_ref :
    ℕ → String → String → Exec (VersionRow × ModelRow × ArtifactRow)
get_ready_model_version_by_external_ref tenant model version db = (
  row (
      join_version db (
        named_version db version
          (find (λ m. m.tenant_id == tenant && str_eq m.model_id model) db.models))),
  db,
)

-- a.reference <> '' AND a.sha256 = v.checksum_sha256 AND a.sha256 <> ''
abbrev pub backs : VersionRow → ArtifactRow → Bool
backs v a =
    is_artifact v.tenant_id v.id a
    && (not (str_eq a.reference "")
        && (str_eq a.sha256 v.checksum_sha256 && not (str_eq a.sha256 "")))

-- v.status IN ('pending', 'importing') AND EXISTS (...) AND EXISTS (...)
abbrev pub can_be_ready : ℕ → ℕ → Db → VersionRow → Bool
can_be_ready tenant id db v =
    is_version tenant id v
    && (is_open v.status
        && (any (backs v) db.artifacts
            && any (λ m. is_model v.tenant_id v.model_id m && is_live m.status) db.models))

abbrev pub version_ready : ℕ → VersionRow → VersionRow
version_ready now v = record v {
  status = VersionStatus.ready;
  error_message = "";
  updated_at = now;
}

abbrev pub model_ready : ℕ → ModelRow → ModelRow
model_ready now m = record m { status = ModelStatus.ready; error_message = ""; updated_at = now }

-- FROM ready_version v WHERE m.tenant_id = v.tenant_id AND m.id = v.model_id
abbrev pub owns_ready : ℕ → ℕ → Db → ModelRow → Bool
owns_ready tenant id db m =
    any (λ v. can_be_ready tenant id db v && is_model v.tenant_id v.model_id m) db.versions

unfoldable pub mark_model_version_ready : ℕ → ℕ → Exec ℕ
mark_model_version_ready tenant id db = (
  ok (count (owns_ready tenant id db) db.models),
  record db {
    versions = update (can_be_ready tenant id db) (version_ready db.clock) db.versions;
    models = update (owns_ready tenant id db) (model_ready db.clock) db.models;
  },
)

abbrev pub version_failed : ℕ → String → VersionRow → VersionRow
version_failed now message v = record v {
  status = VersionStatus.error;
  error_message = message;
  updated_at = now;
}

unfoldable pub mark_model_version_error : ℕ → ℕ → String → Exec ℕ
mark_model_version_error tenant id message db =
    let p = λ (v : VersionRow). is_version tenant id v && is_open v.status in
    (
      ok (count p db.versions),
      record db { versions = update p (version_failed db.clock message) db.versions },
    )

-- leased_task: the task holds its lease and is bound to the version.
abbrev pub leases_version : ℕ → ℕ → ℕ → String → ℕ → ℕ → TaskRow → Bool
leases_version tenant task version owner epoch now t =
    is_task tenant task t && (is_id t.model_version_id version && is_leased owner epoch now t)

abbrev pub fails_version : ℕ → ℕ → ℕ → String → ℕ → Db → VersionRow → Bool
fails_version tenant task version owner epoch db v =
    is_version tenant version v
    && (is_open v.status && any (leases_version tenant task version owner epoch db.clock) db.tasks)

abbrev pub failed_row : ℕ → Option VersionRow → Db → (VersionRow → Bool) → String → Res ℕ × Db
failed_row now none db p message = (err Error.no_rows, db)
failed_row now (some v) db p message =
    (ok v.model_id, record db { versions = update p (version_failed now message) db.versions })

-- RETURNING v.tenant_id, v.model_id
unfoldable pub mark_model_version_error_for_task : ℕ → ℕ → ℕ → String → ℕ → String → Exec ℕ
mark_model_version_error_for_task tenant task version owner epoch message db =
    failed_row db.clock (find (fails_version tenant task version owner epoch db) db.versions) db
      (fails_version tenant task version owner epoch db) message

-- SELECT ... FOR UPDATE: the lock itself is not modelled.
unfoldable pub lock_model_for_version_error : ℕ → ℕ → Exec ModelRow
lock_model_for_version_error tenant model db = (row (find (is_model tenant model) db.models), db)

abbrev pub has_ready : Db → ModelRow → Bool
has_ready db m =
    any (λ v. v.tenant_id == m.tenant_id && (v.model_id == m.id && is_ready v.status)) db.versions

unfoldable pub mark_model_error_if_no_ready : ℕ → ℕ → String → Exec ℕ
mark_model_error_if_no_ready tenant model message db =
    let p =
      λ (m : ModelRow). is_model tenant model m && (is_unready m.status && not (has_ready db m)) in
    (
      ok (count p db.models),
      record db {
        models =
            update p
              (λ m. record m {
                status = ModelStatus.error;
                error_message = message;
                updated_at = db.clock;
              })
              db.models;
      },
    )

-- $4::bigint < 0 OR size_bytes = $4
abbrev pub size_agrees : ℤ → ℕ → Bool
size_agrees (pos n) size = size == n
size_agrees (negsuc n) size = true

abbrev pub size_or : ℤ → ℕ → ℕ
size_or (pos n) size = n
size_or (negsuc n) size = size

abbrev pub takes_checksum : ℕ → ℕ → String → ℤ → VersionRow → Bool
takes_checksum tenant id checksum size v =
    is_version tenant id v
    && ((str_eq v.checksum_sha256 "" || str_eq v.checksum_sha256 checksum)
        && (is_open v.status
            || (is_ready v.status
                && (str_eq v.checksum_sha256 checksum && size_agrees size v.size_bytes))))

abbrev pub with_checksum : ℕ → String → ℤ → VersionRow → VersionRow
with_checksum now checksum size v = record v {
  checksum_sha256 = checksum;
  size_bytes = size_or size v.size_bytes;
  updated_at = now;
}

unfoldable pub set_model_version_checksum : ℕ → ℕ → String → ℤ → Exec ℕ
set_model_version_checksum tenant id checksum size db =
    let p = takes_checksum tenant id checksum size in
    (
      ok (count p db.versions),
      record db { versions = update p (with_checksum db.clock checksum size) db.versions },
    )

-- PRIMARY KEY (tenant_id, id) and UNIQUE (tenant_id, model_version_id)
abbrev pub artifact_clashes : ArtifactRow → ArtifactRow → Bool
artifact_clashes a b =
    (b.tenant_id == a.tenant_id && b.id == a.id) || is_artifact a.tenant_id a.model_version_id b

-- CHECK (sha256 ~ '^[a-fA-F0-9]{64}$'), the unique indexes, the foreign key.
unfoldable pub create_model_artifact : ArtifactRow → Exec ArtifactRow
create_model_artifact a db =
    if not (is_sha256 a.sha256)
    then (err Error.check_violation, db)
    else if any (artifact_clashes a) db.artifacts
    then (err Error.unique_violation, db)
    else if not (any (is_version a.tenant_id a.model_version_id) db.versions)
    then (err Error.foreign_key_violation, db)
    else (ok a, record db { artifacts = a ∷ db.artifacts })

unfoldable pub get_model_artifact : ℕ → ℕ → Exec ArtifactRow
get_model_artifact tenant version db = (row (find (is_artifact tenant version) db.artifacts), db)
