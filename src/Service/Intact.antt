-- ===== src/Service/Intact.antt =====
-- CreateModelVersion of internal/service/model.go keeps every ready version backed by its artifact.
use ani_model_service.Prelude.{
  ℕ, String, ◌≡◌, refl, Bool, true, false, ◌||◌, ok, err, Result, ℤ, pos, negsuc, Option, none,
  some, ◌∷◌, arith, Bool-cases, inl, inr, str_eq, not, any, ◌&&◌, if◌then◌else◌,
}
use ani_model_service.Errors.{Res, Error}
use ani_model_service.Model.{
  Version, Artifact, is_format, fails, validate_version, validate_engine_defaults,
}
use ani_model_service.Identity.{Principal, require_tenant}
use ani_model_service.Database.Rows.{VersionRow, ModelRow, VersionStatus, is_ready, is_live}
use ani_model_service.Database.Exec.{Db, ◌>>=◌, Libs, parse_id, attempt}
use ani_model_service.Database.Keeps.{lift_cases, bind_keeps}
use ani_model_service.Database.Registrations
use ani_model_service.Database.Tasks.{has_model}
use ani_model_service.Database.Versions.{is_model}
use ani_model_service.VersionStore
use ani_model_service.VersionStore.{parse_model_ids}
use ani_model_service.VersionStore.Integrity.{IsIntact}
use ani_model_service.VersionStore.Calls.{mark_ready-IsIntact, create_artifact-IsIntact}
use ani_model_service.VersionStore.Creation.{
  Printed, insert_version, insert_sized, new_version, looked_up, create_row, create_version,
  get_version_by_idempotency, version_fingerprint,
}
use ani_model_service.Service.{
  Refusal, Handler, refuse, answer, after, ◌then◌, mapped, map_store, call, resolve_model, model_by,
  get_model, get_model_by_external_id,
}
use ani_model_service.Service.Uploads
use ani_model_service.Service.Uploads.{Service, Request, Storage, AuditEvent, create_model_version}

-- Both branches of a test keep it.
if_keeps :
    {A : Type 0} (b : Bool) (x y : Db → A × Db) (db : Db)
    → IsIntact (x db).1
    → IsIntact (y db).1
    → IsIntact ((if b then x else y) db).1
if_keeps true x y db h k = h
if_keeps false x y db h k = k

after_keeps :
    {A B : Type 0} (r : Result Refusal A) (k : A → Handler B) (db : Db)
    → IsIntact db
    → ((a : A) → IsIntact (k a db).1)
    → IsIntact (after r k db).1
after_keeps (ok a) k db h j = j a
after_keeps (err e) k db h j = h

then_keeps :
    {A B : Type 0} (m : Handler A) (k : A → Handler B) (db : Db)
    → IsIntact (m db).1
    → ((a : A) (d : Db) → IsIntact d → IsIntact (k a d).1)
    → IsIntact ((m then k) db).1
then_keeps m k db h j = after_keeps (m db).0 k (m db).1 h (λ a. j a (m db).1 h)

module _ (db : Db) (intact : IsIntact db) where
  -- A pending row asks for no artifact.
  add_version :
      (v : VersionRow)
      → v.status ≡ VersionStatus.pending
      → IsIntact (record db { versions = v ∷ db.versions })
  add_version v h = record {
    single = intact.single;
    artifacts = intact.artifacts;
    backed = ((λ r. absurd (ground (arith, h, r))), intact.backed);
  }

  inserted-IsIntact :
      (v : VersionRow)
      → v.status ≡ VersionStatus.pending
      → IsIntact (Registrations.insert_version v db).1
  unfolding Registrations.insert_version
  inserted-IsIntact v h =
      elim (Bool-cases (
        is_format v.format
        && Registrations.is_image_pair v.recommended_image_id v.recommended_image_scope)) [
          | inr e ↦ rw e intact
          | inl e ↦ elim (Bool-cases (any (Registrations.version_clashes v) db.versions)) [
            | inl c ↦ rw (e, c) intact
            | inr c ↦ elim (Bool-cases (has_model v.tenant_id v.model_id db)) [
              | inl m ↦ rw (e, c, m) (add_version v h)
              | inr m ↦ rw (e, c, m) intact
            ]
          ]
        ]

module _ (libs : Libs) (json : Printed → String) (between : Db → Db) where
  sized-IsIntact :
      (db : Db)
      → IsIntact db
      → (tenant id model : ℕ) (v : Version) (print : String) (size : ℤ)
      → IsIntact (insert_sized tenant id model v print size db).1
  sized-IsIntact db k tenant id model v print (negsuc n) = k
  sized-IsIntact db k tenant id model v print (pos n) =
      bind_keeps IsIntact
        (Registrations.insert_version (new_version db.clock tenant id model n v print)) _ db
        (inserted-IsIntact db k (new_version db.clock tenant id model n v print) refl) λ u d j. j

  insert-IsIntact :
      (db : Db)
      → IsIntact db
      → (tenant id model : ℕ) (v : Version) (print : String)
      → IsIntact (insert_version tenant id model v print db).1
  unfolding insert_version
  insert-IsIntact db k tenant id model v print =
      elim (Bool-cases (any (λ m. is_model tenant model m && is_live m.status) db.models)) [
        | inl e ↦ rw e (sized-IsIntact db k tenant id model v print v.size_bytes)
        | inr e ↦ rw e k
      ]

  module _ (commits : (d : Db) → IsIntact d → IsIntact (between d)) where
    looked_up-IsIntact :
        (tenant id model : ℕ) (v : Version) (r : Res VersionRow) (db : Db)
        → IsIntact db
        → IsIntact (looked_up libs json between tenant id model v r db).1
    looked_up-IsIntact tenant id model v (ok r) db k =
        elim (Bool-cases (str_eq r.request_fingerprint (version_fingerprint libs json v))) [
          | inl e ↦ rw e k
          | inr e ↦ rw e k
        ]
    looked_up-IsIntact tenant id model v (err Error.no_rows) db k =
        insert-IsIntact (between db) (commits db k) tenant id model v
          (version_fingerprint libs json v)
    looked_up-IsIntact tenant id model v (err _) db k = k

    create_row-IsIntact :
        (tenant id model : ℕ) (v : Version) (db : Db)
        → IsIntact db
        → IsIntact (create_row libs json between tenant id model v db).1
    unfolding create_row get_version_by_idempotency
    create_row-IsIntact tenant id model v db k =
        if_keeps (not (str_eq v.idempotency_key ""))
          (attempt (get_version_by_idempotency tenant v.idempotency_key)
            >>= looked_up libs json between tenant id model v)
          (λ d. insert_version tenant id model v (version_fingerprint libs json v) (between d)) db
          (looked_up-IsIntact tenant id model v _ db k)
          (insert-IsIntact (between db) (commits db k) tenant id model v
            (version_fingerprint libs json v))

    pub create_version-IsIntact :
        (v : Version) (db : Db) → IsIntact db → IsIntact (create_version libs json between v db).1
    unfolding create_version
    create_version-IsIntact v db k =
        lift_cases IsIntact (parse_model_ids libs v.tenant_id v.id) _ db k λ ids.
          lift_cases IsIntact (parse_id libs "model_id" v.model_id) _ db k λ model.
            bind_keeps IsIntact (create_row libs json between ids.0 ids.1 model v) _ db
              (create_row-IsIntact ids.0 ids.1 model v db k) λ r d j. j

module _ (s : Service) (commits : (n : ℕ) (d : Db) → IsIntact d → IsIntact (s.others n d)) where
  record_audit-state :
      (audit : Option (AuditEvent → Res (Unit {0}))) (e : AuditEvent) (db : Db)
      → (Uploads.record_audit s audit e db).1 ≡ db
  record_audit-state none e db = refl
  record_audit-state (some insert) e db = go (insert e)
    where
      go : (r : Res (Unit {0})) → (Uploads.audited s r db).1 ≡ db
      go (ok u) = refl
      go (err x) = refl

  module _ (request : Request) (p : Principal) where
    audit_version-IsIntact :
        (v : Version) (db : Db) → IsIntact db → IsIntact (Uploads.audit_version s request p v db).1
    audit_version-IsIntact v db k =
        then_keeps (Uploads.record_audit s s.audit (Uploads.event s request p v)) _ db
          (rw (record_audit-state s.audit (Uploads.event s request p v) db) k) λ u d j. j

    publish-IsIntact :
        (v : Version) (db : Db) → IsIntact db → IsIntact (Uploads.publish s request p v db).1
    unfolding Uploads.publish
    publish-IsIntact v db k =
        then_keeps (create then mark) _ db
          (then_keeps create mark db
            (create_artifact-IsIntact s.libs (s.others 3 db) (commits 3 db k)
              (Uploads.uploaded_artifact s request p v))
            λ a d j. mark_ready-IsIntact s.libs (s.others 4 d) (commits 4 d j) p.tenant_id v.id)
          λ u d j. audit_version-IsIntact _ d j
      where
        create : Handler Artifact
        create =
            call (s.others 3) map_store
              (VersionStore.create_artifact s.libs (Uploads.uploaded_artifact s request p v))

        mark : Artifact → Handler (Unit {0})
        mark a = call (s.others 4) map_store (VersionStore.mark_ready s.libs p.tenant_id v.id)

    checked-IsIntact :
        (v : Version) (r : Res (Unit {0})) (db : Db)
        → IsIntact db
        → IsIntact (Uploads.checked s request p v r db).1
    checked-IsIntact v (ok u) db k = publish-IsIntact v db k
    checked-IsIntact v (err Error.checksum_mismatch) db k = k
    checked-IsIntact v (err _) db k = k

    found-IsIntact :
        (st : Storage) (v : Version) (r : Res Bool) (db : Db)
        → IsIntact db
        → IsIntact (Uploads.found s request p st v r db).1
    found-IsIntact st v (err e) db k = k
    found-IsIntact st v (ok false) db k = k
    found-IsIntact st v (ok true) db k = checked-IsIntact v _ db k

    verified-IsIntact :
        (o : Option Storage) (v : Version) (db : Db)
        → IsIntact db
        → IsIntact (Uploads.verified s request p o v db).1
    verified-IsIntact none v db k = k
    verified-IsIntact (some st) v db k =
        if_keeps (not s.artifacts) (refuse 503 "MODEL_DEPENDENCY_UNAVAILABLE")
          (Uploads.found s request p st v (st.object_exists p.tenant_id request.storage_path)) db k
          (found-IsIntact st v (st.object_exists p.tenant_id request.storage_path) db k)

    stored-IsIntact :
        (v : Version) (db : Db) → IsIntact db → IsIntact (Uploads.stored s request p v db).1
    stored-IsIntact v db k =
        if_keeps (str_eq request.storage_path "") (Uploads.audit_version s request p v) _ db
          (audit_version-IsIntact v db k)
          (if_keeps (is_ready v.status) (answer (Uploads.at_path s request p v))
            (Uploads.verified s request p s.storage v) db k (verified-IsIntact s.storage v db k))

    create_for-IsIntact :
        (m : ModelRow) (db : Db) → IsIntact db → IsIntact (Uploads.create_for s request p m db).1
    create_for-IsIntact m db k =
        if_keeps
          (fails (validate_version (Uploads.draft s request p m))
            || fails (
                validate_engine_defaults request.engine_type request.engine_image
                  request.startup_command))
          (refuse 400 "INVALID_ARGUMENT") (create then λ r. Uploads.stored s request p (named r)) db
          k
          (then_keeps create (λ r. Uploads.stored s request p (named r)) db
            (create_version-IsIntact s.libs s.json (s.others 2) (commits 2)
              (Uploads.draft s request p m) (s.others 1 db) (commits 1 db k))
            λ r d j. stored-IsIntact (named r) d j)
      where
        named : Version → Version
        named r = record r { external_model_id = m.model_id }

        create : Handler Version
        create =
            call (s.others 1) map_store
              (create_version s.libs s.json (s.others 2) (Uploads.draft s request p m))

  model_by-state :
      (tenant selector : String) (o : Option ℕ) (db : Db)
      → (model_by s.libs tenant selector o db).1 ≡ db
  unfolding get_model get_model_by_external_id
  model_by-state tenant selector (some id) db =
      lift_cases (λ d. d ≡ db) (parse_model_ids s.libs tenant (s.libs.uuid_string id)) _ db refl
        λ ids. refl
  model_by-state tenant selector none db =
      lift_cases (λ d. d ≡ db) (parse_id s.libs "tenant_id" tenant) _ db refl λ t. refl

  resolve-IsIntact :
      (tenant selector : String) (db : Db)
      → IsIntact db
      → IsIntact (resolve_model (s.others 0) s.libs tenant selector db).1
  unfolding resolve_model
  resolve-IsIntact tenant selector db k =
      if_keeps _ (refuse 400 "INVALID_ARGUMENT")
        (call (s.others 0) map_store (model_by s.libs tenant selector (s.libs.parse_uuid selector)))
        db k
        (rw (model_by-state tenant selector (s.libs.parse_uuid selector) (s.others 0 db))
          (commits 0 db k))

  -- When what other connections commit between its calls keeps every artifact valid and every
  -- ready version backed by its artifact, a CreateModelVersion request keeps this, wherever it
  -- stops.
  pub create_model_version-IsIntact :
      (context : Option Principal) (request : Request) (db : Db)
      → IsIntact db
      → IsIntact (create_model_version s context request db).1
  unfolding create_model_version
  create_model_version-IsIntact context request db k =
      after_keeps (mapped _ (require_tenant context request.tenant_id)) _ db k λ p.
        if_keeps (not s.versions) (refuse 503 "MODEL_STORE_UNAVAILABLE")
          (resolve_model (s.others 0) s.libs p.tenant_id request.model_id
            then Uploads.create_for s request p)
          db k
          (then_keeps (resolve_model (s.others 0) s.libs p.tenant_id request.model_id)
            (Uploads.create_for s request p) db (resolve-IsIntact p.tenant_id request.model_id db k)
            λ m d j. create_for-IsIntact request p m d j)
