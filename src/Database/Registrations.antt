-- ===== src/Database/Registrations.antt =====
-- The statements of internal/data/postgres/trained_artifact_store.go, with the constraints of
-- migrations/000001, 000004, 000006, 000008 and 000010.
use ani_model_service.Prelude.{
  ℕ, ◌+◌, String, Bool, true, false, ◌&&◌, ◌||◌, not, ok, err, ltb, ◌==◌, str_eq, if◌then◌else◌,
  some, ◌∷◌, any,
}
use ani_model_service.Errors.{Error}
use ani_model_service.Text.{codes, is_empty, same, trim_func, is_sha256}
use ani_model_service.Model.{is_format}
use ani_model_service.Database.Table.{find, update, count}
use ani_model_service.Database.Rows.{
  ModelRow, VersionRow, RegistrationRow, RegistrationStatus, is_live, is_unsettled,
}
use ani_model_service.Database.Exec.{Db, Exec, row}
use ani_model_service.Database.Due.{refers}
use ani_model_service.Database.Tasks.{has_model, has_version, max_int64}
use ani_model_service.Database.Versions.{is_model, is_version, model_ready, version_ready}

abbrev pub is_registration : ℕ → ℕ → RegistrationRow → Bool
is_registration tenant id r = r.tenant_id == tenant && r.id == id

abbrev pub has_key : ℕ → String → RegistrationRow → Bool
has_key tenant key r = r.tenant_id == tenant && str_eq r.idempotency_key key

unfoldable pub get_registration : ℕ → ℕ → Exec RegistrationRow
get_registration tenant id db = (row (find (is_registration tenant id) db.registrations), db)

unfoldable pub get_registration_by_key : ℕ → String → Exec RegistrationRow
get_registration_by_key tenant key db = (row (find (has_key tenant key) db.registrations), db)

-- The CHECK of the recommended image pair: btrim strips spaces alone.
unfoldable pub is_image_pair : String → String → Bool
unfolding trim_func
is_image_pair id scope =
    (str_eq id "" && str_eq scope "")
    || (not (is_empty (trim_func (λ c. c == b' ') (codes id)))
        && (same (trim_func (λ c. c == b' ') (codes id)) (codes id)
            && (str_eq scope "platform" || str_eq scope "tenant")))

abbrev pub registration_clashes : RegistrationRow → RegistrationRow → Bool
registration_clashes r s =
    is_registration r.tenant_id r.id s || has_key r.tenant_id r.idempotency_key s

abbrev pub registration_checks : RegistrationRow → Bool
registration_checks r =
    is_format r.format
    && (ltb 0 r.size_bytes
        && (is_sha256 r.checksum_sha256
            && is_image_pair r.recommended_image_id r.recommended_image_scope))

abbrev pub registration_refers : Db → RegistrationRow → Bool
registration_refers db r =
    refers (λ m. has_model r.tenant_id m db) r.target_model_id
    && refers (λ v. has_version r.tenant_id v db) r.source_model_version_id

unfoldable pub insert_registration : RegistrationRow → Exec RegistrationRow
insert_registration r db =
    if not (registration_checks r)
    then (err Error.check_violation, db)
    else if any (registration_clashes r) db.registrations
    then (err Error.unique_violation, db)
    else if not (registration_refers db r)
    then (err Error.foreign_key_violation, db)
    else (ok r, record db { registrations = r ∷ db.registrations })

abbrev pub is_pending : RegistrationStatus → Bool
is_pending RegistrationStatus.pending = true
is_pending _ = false

abbrev pub uploaded : ℕ → RegistrationRow → RegistrationRow
uploaded now r = record r {
  status = RegistrationStatus.uploaded;
  updated_at = now;
  error_message = "";
}

abbrev pub failed : ℕ → String → RegistrationRow → RegistrationRow
failed now message r = record r {
  status = RegistrationStatus.failed;
  error_message = message;
  updated_at = now;
}

abbrev pub aborted : ℕ → String → RegistrationRow → RegistrationRow
aborted now reason r = record r {
  status = RegistrationStatus.aborted;
  error_message = reason;
  updated_at = now;
}

abbrev pub published : ℕ → ℕ → ℕ → RegistrationRow → RegistrationRow
published now model version r = record r {
  status = RegistrationStatus.ready;
  model_id = some model;
  model_version_id = some version;
  updated_at = now;
  error_message = "";
}

-- An UPDATE of the registrations that p selects, and the number of rows.
abbrev pub write_registrations :
    (RegistrationRow → Bool) → (ℕ → RegistrationRow → RegistrationRow) → Exec ℕ
write_registrations p f db = (
  ok (count p db.registrations),
  record db { registrations = update p (f db.clock) db.registrations },
)

-- status='pending'
unfoldable pub upload_registration : ℕ → ℕ → Exec ℕ
upload_registration tenant id =
    write_registrations (λ r. is_registration tenant id r && is_pending r.status) uploaded

-- status IN ('pending','uploaded')
unfoldable pub fail_registration : ℕ → ℕ → String → Exec ℕ
fail_registration tenant id message =
    write_registrations (λ r. is_registration tenant id r && is_unsettled r.status)
      (λ now. failed now message)

unfoldable pub abort_registration : ℕ → ℕ → String → Exec ℕ
abort_registration tenant id reason =
    write_registrations (λ r. is_registration tenant id r && is_unsettled r.status)
      (λ now. aborted now reason)

unfoldable pub publish_registration : ℕ → ℕ → ℕ → ℕ → Exec ℕ
publish_registration tenant id model version =
    write_registrations (is_registration tenant id) (λ now. published now model version)

-- PRIMARY KEY, UNIQUE (tenant_id, name), and the partial indexes on model_id and idempotency_key.
abbrev pub model_clashes : ModelRow → ModelRow → Bool
model_clashes m n =
    n.tenant_id == m.tenant_id
    && (n.id == m.id
        || (str_eq n.name m.name
            || ((not (str_eq m.model_id "") && str_eq n.model_id m.model_id)
                || (not (str_eq m.idempotency_key "")
                    && str_eq n.idempotency_key m.idempotency_key))))

-- CHECK (source IN (...)) aside, which each caller's constant meets.
unfoldable pub insert_model : ModelRow → Exec (Unit {0})
insert_model m db =
    if any (model_clashes m) db.models
    then (err Error.unique_violation, db)
    else (ok tt, record db { models = m ∷ db.models })

-- SELECT id ... AND status <> 'deleted' FOR UPDATE: the lock itself is not modelled.
unfoldable pub lock_live_model : ℕ → ℕ → Exec (Unit {0})
lock_live_model tenant id db =
    if any (λ m. is_model tenant id m && is_live m.status) db.models
    then (ok tt, db)
    else (err Error.no_rows, db)

-- PRIMARY KEY, UNIQUE (tenant_id, model_id, version), and the index on idempotency_key.
abbrev pub version_clashes : VersionRow → VersionRow → Bool
version_clashes v w =
    w.tenant_id == v.tenant_id
    && (w.id == v.id
        || ((w.model_id == v.model_id && str_eq w.version v.version)
            || (not (str_eq v.idempotency_key "") && str_eq w.idempotency_key v.idempotency_key)))

unfoldable pub insert_version : VersionRow → Exec (Unit {0})
insert_version v db =
    if not (is_format v.format && is_image_pair v.recommended_image_id v.recommended_image_scope)
    then (err Error.check_violation, db)
    else if any (version_clashes v) db.versions
    then (err Error.unique_violation, db)
    else if not (has_model v.tenant_id v.model_id db)
    then (err Error.foreign_key_violation, db)
    else (ok tt, record db { versions = v ∷ db.versions })

-- total_size_bytes=total_size_bytes+$3
unfoldable pub grow_model : ℕ → ℕ → ℕ → Exec (Unit {0})
grow_model tenant id size db =
    if any (λ m. is_model tenant id m && ltb max_int64 (m.total_size_bytes + size)) db.models
    then (err Error.out_of_range, db)
    else (
      ok tt,
      record db {
        models =
            update (is_model tenant id)
              (λ m. record m {
                total_size_bytes = m.total_size_bytes + size;
                updated_at = db.clock;
              })
              db.models;
      },
    )

unfoldable pub set_version_ready : ℕ → ℕ → Exec (Unit {0})
set_version_ready tenant id db = (
  ok tt,
  record db { versions = update (is_version tenant id) (version_ready db.clock) db.versions },
)

unfoldable pub set_model_ready : ℕ → ℕ → Exec (Unit {0})
set_model_ready tenant id db =
    (ok tt, record db { models = update (is_model tenant id) (model_ready db.clock) db.models })
