-- ===== src/Service/Verified.antt =====
-- What has happened when CreateModelVersion of internal/service/model.go answers a request that
-- names an uploaded object.
use ani_model_service.Prelude.{
  ℕ, String, ◌≡◌, ◌≢◌, refl, ap, sym, ◌∙◌, ◌⊎◌, Bool, true, false, ◌||◌, not, ok, err, Result,
  Option, none, some, arith, Bool-cases, inl, inr, str_eq, eq_iff, if◌then◌else◌,
}
use ani_model_service.Errors.{Res, Error}
use ani_model_service.Model.{Version, Artifact, fails, validate_version, validate_engine_defaults}
use ani_model_service.Identity.{Principal, require_tenant}
use ani_model_service.Database.Rows.{ModelRow, VersionStatus, is_ready}
use ani_model_service.Database.Exec.{Db, Exec}
use ani_model_service.VersionStore
use ani_model_service.VersionStore.{parse_model_ids}
use ani_model_service.VersionStore.Marking.{IsReady, mark_ready-IsReady}
use ani_model_service.VersionStore.Creation.{create_version}
use ani_model_service.Service.{
  Refusal, Handler, refuse, answer, after, ◌then◌, mapped, map_store, map_identity, call,
  resolve_model,
}
use ani_model_service.Service.Uploads
use ani_model_service.Service.Uploads.{
  Service, Request, Storage, AuditEvent, create_model_version, at_path, event, draft,
  uploaded_artifact, audit_version, publish,
}

after_inv :
    {A B : Type 0} (r : Result Refusal A) (k : A → Handler B) (db d : Db) (b : B)
    → after r k db ≡ (ok b, d)
    → (a : A) × (r ≡ ok a) × (k a db ≡ (ok b, d))
after_inv (ok a) k db d b h = (a, refl, h)
after_inv (err e) k db d b h = absurd (ground arith)

then_inv :
    {A B : Type 0} (m : Handler A) (k : A → Handler B) (db d : Db) (b : B)
    → (m then k) db ≡ (ok b, d)
    → (a : A) × (c : Db) × (m db ≡ (ok a, c)) × (k a c ≡ (ok b, d))
then_inv m k db d b h =
    let (a, e, j) = after_inv (m db).0 k (m db).1 d b h in (a, (m db).1, λ i. (e i, (m db).1), j)

mapped_inv : {A : Type 0} (f : Error → Refusal) (r : Res A) (a : A) → mapped f r ≡ ok a → r ≡ ok a
mapped_inv f (ok b) a h = ground arith
mapped_inv f (err e) a h = absurd (ground arith)

call_inv :
    {A : Type 0} (others : Db → Db) (f : Error → Refusal) (m : Exec A) (db d : Db) (a : A)
    → call others f m db ≡ (ok a, d)
    → m (others db) ≡ (ok a, d)
call_inv others f m db d a h =
    let e = mapped_inv f (m (others db)).0 a (ap (λ x. x.0) h) in λ i. (e i, (h i).1)

-- An answer has not been refused by the test before it.
unrefused :
    {A : Type 0} (b : Bool) (code : ℕ) (reason : String) (k : Handler A) (db d : Db) (a : A)
    → (if b then refuse code reason else k) db ≡ (ok a, d)
    → k db ≡ (ok a, d)
unrefused true code reason k db d a h = absurd (ground arith)
unrefused false code reason k db d a h = h

module _ (s : Service) where
  -- The event has reached the audit store, where there is one.
  abbrev pub IsAudited : AuditEvent → Type 0
  IsAudited e =
      (s.audit ≡ none)
      ⊎ ((insert : AuditEvent → Res (Unit {0})) × (s.audit ≡ some insert) × (insert e ≡ ok tt))

  audited_inv :
      (r : Res (Unit {0})) (db d : Db)
      → Uploads.audited s r db ≡ (ok tt, d)
      → (r ≡ ok tt) × (d ≡ db)
  audited_inv (ok u) db d h = (refl, ground arith)
  audited_inv (err e) db d h = absurd (ground arith)

  record_inv :
      (o : Option (AuditEvent → Res (Unit {0}))) (e : AuditEvent) (db d : Db)
      → s.audit ≡ o
      → Uploads.record_audit s o e db ≡ (ok tt, d)
      → IsAudited e × (d ≡ db)
  record_inv none e db d o h = (inl o, ground arith)
  record_inv (some insert) e db d o h =
      let (r, same) = audited_inv (insert e) db d h in (inr (insert, o, r), same)

  module _ (request : Request) (p : Principal) where
    audit_inv :
        (v w : Version) (db d : Db)
        → audit_version s request p v db ≡ (ok w, d)
        → (w ≡ v) × (d ≡ db) × IsAudited (event s request p v)
    audit_inv v w db d h =
        let (u, c, a, k) =
          then_inv (Uploads.record_audit s s.audit (event s request p v)) (λ u. answer v) db d w
            h in
        let (audited, same) = record_inv s.audit (event s request p v) db c refl a in
        (ground arith, ground (arith, same), audited)

    -- The stored version r was ready already, and only the path of the request is put in.
    abbrev pub IsReplay : Version → Version → Db → Db → Type 0
    IsReplay r v c d = (is_ready r.status ≡ true) × (v ≡ at_path s request p r) × (d ≡ c)

    -- The object exists with the checksum, its artifact is stored, MarkReady has succeeded as the
    -- last write and left the version ready, and the event is recorded.
    abbrev pub IsFinalized : Version → Version → Db → Db → Type 0
    IsFinalized r v c d =
        (v ≡ at_path s request p (record r { status = VersionStatus.ready }))
        × ((st : Storage) × (s.storage ≡ some st)
            × (st.object_exists p.tenant_id request.storage_path ≡ ok true)
            × (st.verify_checksum p.tenant_id request.storage_path request.checksum_sha256 ≡ ok tt))
        × ((a : Artifact) × (e : Db) × (VersionStore.create_artifact s.libs
                (uploaded_artifact s request p r) (s.others 3 c)
              ≡ (ok a, e))
            × (VersionStore.mark_ready s.libs p.tenant_id r.id (s.others 4 e) ≡ (ok tt, d)))
        × ((ids : ℕ × ℕ) × (parse_model_ids s.libs p.tenant_id r.id ≡ ok ids)
            × IsReady ids.0 ids.1 d)
        × IsAudited (event s request p v)

    publish_inv :
        (st : Storage) (r v : Version) (c d : Db)
        → s.storage ≡ some st
        → st.object_exists p.tenant_id request.storage_path ≡ ok true
        → st.verify_checksum p.tenant_id request.storage_path request.checksum_sha256 ≡ ok tt
        → publish s request p r c ≡ (ok v, d)
        → IsFinalized r v c d
    unfolding publish
    publish_inv st r v c d o x y h =
        let (u, e, j, k) = then_inv (create then mark) _ c d v h in
        let (a, b, i, q) = then_inv create mark c e u j in
        let (w, same, audited) =
          audit_inv (at_path s request p (record r { status = VersionStatus.ready })) v e d k in
        let marked : VersionStore.mark_ready s.libs p.tenant_id r.id (s.others 4 b) ≡ (ok tt, d) =
          call_inv (s.others 4) map_store (VersionStore.mark_ready s.libs p.tenant_id r.id) b d tt
            (q ∙ λ i. (ok tt, sym same i)) in
        (
          w,
          (st, o, x, y),
          (
            a,
            b,
            call_inv (s.others 3) map_store
                (VersionStore.create_artifact s.libs (uploaded_artifact s request p r)) c b a i,
            marked,
          ),
          mark_ready-IsReady s.libs p.tenant_id r.id (s.others 4 b) d marked,
          rw w audited,
        )
      where
        create : Handler Artifact
        create =
            call (s.others 3) map_store
              (VersionStore.create_artifact s.libs (uploaded_artifact s request p r))

        mark : Artifact → Handler (Unit {0})
        mark a = call (s.others 4) map_store (VersionStore.mark_ready s.libs p.tenant_id r.id)

    checked_inv :
        (st : Storage) (r v : Version) (c d : Db) (q : Res (Unit {0}))
        → s.storage ≡ some st
        → st.object_exists p.tenant_id request.storage_path ≡ ok true
        → st.verify_checksum p.tenant_id request.storage_path request.checksum_sha256 ≡ q
        → Uploads.checked s request p r q c ≡ (ok v, d)
        → IsFinalized r v c d
    checked_inv st r v c d (ok u) o x y h = publish_inv st r v c d o x y h
    checked_inv st r v c d (err Error.checksum_mismatch) o x y h = absurd (ground (arith, h))
    checked_inv st r v c d (err _) o x y h = absurd (ground (arith, h))

    found_inv :
        (st : Storage) (r v : Version) (c d : Db) (q : Res Bool)
        → s.storage ≡ some st
        → st.object_exists p.tenant_id request.storage_path ≡ q
        → Uploads.found s request p st r q c ≡ (ok v, d)
        → IsFinalized r v c d
    found_inv st r v c d (ok true) o x h = checked_inv st r v c d _ o x refl h
    found_inv st r v c d (ok false) o x h = absurd (ground (arith, h))
    found_inv st r v c d (err e) o x h = absurd (ground (arith, h))

    verified_inv :
        (o : Option Storage) (r v : Version) (c d : Db)
        → s.storage ≡ o
        → Uploads.verified s request p o r c ≡ (ok v, d)
        → IsFinalized r v c d
    verified_inv none r v c d o h = absurd (ground (arith, h))
    verified_inv (some st) r v c d o h =
        found_inv st r v c d (st.object_exists p.tenant_id request.storage_path) o refl (
          unrefused (not s.artifacts) 503 "MODEL_DEPENDENCY_UNAVAILABLE"
            (Uploads.found s request p st r (st.object_exists p.tenant_id request.storage_path)) c d
            v h)

    stored_inv :
        (r v : Version) (c d : Db)
        → request.storage_path ≢ ""
        → Uploads.stored s request p r c ≡ (ok v, d)
        → IsReplay r v c d ⊎ IsFinalized r v c d
    stored_inv r v c d path h =
        let named : str_eq request.storage_path "" ≡ false =
          ground (arith, eq_iff request.storage_path "") in
        elim (Bool-cases (is_ready r.status)) [
          | inl e ↦ inl (e, ground arith, ground arith)
          | inr e ↦ inr (verified_inv s.storage r v c d refl (rw (named, e) at h))
        ]

    -- Where a version that was created, or found by its key, ends up.
    abbrev pub Outcome : Version → Db → Type 0
    Outcome v d =
        (m : ModelRow) × (b c : Db) × (r : Version) × (create_version s.libs s.json (s.others 2)
            (draft s request p m) (s.others 1 b)
          ≡ (ok r, c))
        × (IsReplay (record r { external_model_id = m.model_id }) v c d
            ⊎ IsFinalized (record r { external_model_id = m.model_id }) v c d)

    create_for_inv :
        (m : ModelRow) (v : Version) (b d : Db)
        → request.storage_path ≢ ""
        → Uploads.create_for s request p m b ≡ (ok v, d)
        → Outcome v d
    create_for_inv m v b d path h =
        let k =
          unrefused
            (fails (validate_version (draft s request p m))
              || fails (
                  validate_engine_defaults request.engine_type request.engine_image
                    request.startup_command))
            400 "INVALID_ARGUMENT" (create then λ r. Uploads.stored s request p (named r)) b d v
            h in
        let (r, c, e, j) = then_inv create (λ r. Uploads.stored s request p (named r)) b d v k in
        (
          m,
          b,
          c,
          r,
          call_inv (s.others 1) map_store
              (create_version s.libs s.json (s.others 2) (draft s request p m)) b c r e,
          stored_inv (named r) v c d path j,
        )
      where
        named : Version → Version
        named r = record r { external_model_id = m.model_id }

        create : Handler Version
        create =
            call (s.others 1) map_store
              (create_version s.libs s.json (s.others 2) (draft s request p m))

  -- When CreateModelVersion answers a request that names an object, the context has a principal
  -- for the tenant of the request, and the version that CreateVersion returned was either ready
  -- already, and only the provider and the path of the request were put in, or the object storage
  -- has confirmed the object and its checksum, the artifact was stored, MarkReady succeeded as the
  -- last write and left the version of that tenant and id ready, and the audit store, where there
  -- is one, took the event.
  pub create_model_version_ok :
      (context : Option Principal) (request : Request) (v : Version) (db d : Db)
      → request.storage_path ≢ ""
      → create_model_version s context request db ≡ (ok v, d)
      → (p : Principal) × (require_tenant context request.tenant_id ≡ ok p) × Outcome request p v d
  unfolding create_model_version
  create_model_version_ok context request v db d path h =
      let (p, e, k) =
        after_inv (mapped map_identity (require_tenant context request.tenant_id)) _ db d v h in
      let j =
        unrefused (not s.versions) 503 "MODEL_STORE_UNAVAILABLE"
          (resolve_model (s.others 0) s.libs p.tenant_id request.model_id
            then Uploads.create_for s request p)
          db d v k in
      let (m, b, i, q) =
        then_inv (resolve_model (s.others 0) s.libs p.tenant_id request.model_id)
          (Uploads.create_for s request p) db d v j in
      (
        p,
        mapped_inv map_identity (require_tenant context request.tenant_id) p e,
        create_for_inv request p m v b d path q,
      )
