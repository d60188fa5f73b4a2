-- ===== src/VersionStore/Recreation.antt =====
-- A CreateVersion of internal/data/postgres/version_store.go that is sent again with its
-- idempotency key.
use mathlib.Core.Path.{subst}
use ani_model_service.Prelude.{
  ℕ, ◌≡◌, ◌≢◌, refl, sym, ap, ◌∙◌, String, false, ok, err, str_eq, ℤ, pos, negsuc, Option, none,
  some, ◌∷◌, arith, eq_iff,
}
use ani_model_service.Errors.{Res}
use ani_model_service.Model.{Version}
use ani_model_service.Database.Table.{find}
use ani_model_service.Database.Rows.{VersionRow}
use ani_model_service.Database.Exec.{Db, pure, lift, row, ◌>>=◌, Libs, parse_id, lift_inv}
use ani_model_service.Database.Registrations
use ani_model_service.VersionStore.{parse_model_ids}
use ani_model_service.VersionStore.Creation.{
  Printed, has_key, get_version_by_idempotency, insert_sized, insert_version, version_from_row,
  version_fingerprint, looked_up, create_row, create_version,
}

-- Another id of the same tenant.
pub same_tenant :
    (libs : Libs) (tenant id again : String) (ids : ℕ × ℕ) (n : ℕ)
    → parse_model_ids libs tenant id ≡ ok ids
    → parse_id libs "model_id" again ≡ ok n
    → parse_model_ids libs tenant again ≡ ok (ids.0, n)
unfolding parse_model_ids
same_tenant libs tenant id again ids n p q = ground arith

map_inv :
    {A B : Type 0} (r : Res A) (f : A → B) (db d : Db) (b : B)
    → (lift r >>= λ a. pure (f a)) db ≡ (ok b, d)
    → (a : A) × (r ≡ ok a) × (db ≡ d) × (f a ≡ b)
map_inv (ok a) f db d b h = (a, refl, ground arith, ground arith)
map_inv (err e) f db d b h = absurd (ground arith)

module _ (libs : Libs) (json : Printed → String) where
  -- The row that the key of the request finds, with the fingerprint of the request.
  abbrev pub Recorded : ℕ → Version → Db → VersionRow → Type 0
  Recorded tenant v db r =
      (find (has_key tenant v.idempotency_key) db.versions ≡ some r)
      × (r.request_fingerprint ≡ version_fingerprint libs json v)

  module _ (tenant id model : ℕ) (v : Version) where
    sized_inv :
        (db d : Db) (r : VersionRow) (print : String) (size : ℤ)
        → insert_sized tenant id model v print size db ≡ (ok r, d)
        → (r.idempotency_key ≡ v.idempotency_key)
          × (r.tenant_id ≡ tenant)
          × (r.request_fingerprint ≡ print)
          × (d.versions ≡ r ∷ db.versions)
    unfolding Registrations.insert_version
    sized_inv db d r print (negsuc n) h = absurd (ground arith)
    sized_inv db d r print (pos n) h = (ground arith, ground arith, ground arith, ground arith)

    insert_inv :
        (db d : Db) (r : VersionRow) (print : String)
        → insert_version tenant id model v print db ≡ (ok r, d)
        → insert_sized tenant id model v print v.size_bytes db ≡ (ok r, d)
    unfolding insert_version
    insert_inv db d r print h = ground arith

    insert-Recorded :
        (db d : Db) (r : VersionRow)
        → insert_version tenant id model v (version_fingerprint libs json v) db ≡ (ok r, d)
        → Recorded tenant v d r
    unfolding find
    insert-Recorded db d r h =
        let (k, t, p, vs) =
          sized_inv db d r (version_fingerprint libs json v) v.size_bytes
            (insert_inv db d r (version_fingerprint libs json v) h) in
        (
          subst (λ xs. find (has_key tenant v.idempotency_key) xs ≡ some r) (sym vs)
              (ground (arith, k, t, eq_iff r.idempotency_key v.idempotency_key)),
          p,
        )

    looked_up-Recorded :
        (between : Db → Db) (o : Option VersionRow) (db d : Db) (r : VersionRow)
        → find (has_key tenant v.idempotency_key) db.versions ≡ o
        → looked_up libs json between tenant id model v (row o) db ≡ (ok r, d)
        → Recorded tenant v d r
    looked_up-Recorded between none db d r g h = insert-Recorded (between db) d r h
    looked_up-Recorded between (some w) db d r g h =
        let s : d ≡ db = ground arith in
        let e : w ≡ r = ground arith in
        (
          ap (λ (x : Db). find (has_key tenant v.idempotency_key) x.versions) s ∙ g ∙ ap some e,
          ground (
            arith,
            eq_iff w.request_fingerprint (version_fingerprint libs json v),
            ap (λ (x : VersionRow). x.request_fingerprint) e,
          ),
        )

    -- A request with a key looks the key up.
    create_row_lem :
        (between : Db → Db) (db : Db)
        → v.idempotency_key ≢ ""
        → create_row libs json between tenant id model v db
          ≡ looked_up libs json between tenant id model v
              (row (find (has_key tenant v.idempotency_key) db.versions))
              db
    unfolding create_row get_version_by_idempotency
    create_row_lem between db some_key =
        let keyed : str_eq v.idempotency_key "" ≡ false =
          ground (arith, eq_iff v.idempotency_key "") in
        rw keyed refl

    row-Recorded :
        (between : Db → Db) (db d : Db) (r : VersionRow)
        → v.idempotency_key ≢ ""
        → create_row libs json between tenant id model v db ≡ (ok r, d)
        → Recorded tenant v d r
    row-Recorded between db d r some_key h =
        looked_up-Recorded between (find (has_key tenant v.idempotency_key) db.versions) db d r refl
          (sym (create_row_lem between db some_key) ∙ h)

    row_replayed :
        (between : Db → Db) (db : Db) (r : VersionRow)
        → v.idempotency_key ≢ ""
        → Recorded tenant v db r
        → create_row libs json between tenant id model v db ≡ (ok r, db)
    row_replayed between db r some_key (q, p) =
        rw (create_row_lem between db some_key, q, p)
          (ground
            (arith, eq_iff (version_fingerprint libs json v) (version_fingerprint libs json v)))

  -- After a CreateVersion under a key that is not empty has returned a version, whatever other
  -- connections committed between its lookup and its insert, the same request sent again, under
  -- the same or another id that can be parsed, returns the same version and writes nothing.
  pub create_version-create_version :
      (between later : Db → Db) (again : String) (n : ℕ) (v w : Version) (db d : Db)
      → v.idempotency_key ≢ ""
      → parse_id libs "model_id" again ≡ ok n
      → create_version libs json between v db ≡ (ok w, d)
      → create_version libs json later (record v { id = again }) d ≡ (ok w, d)
  unfolding create_version version_fingerprint
  create_version-create_version between later again n v w db d some_key q h =
      let (ids, p, k) = lift_inv (parse_model_ids libs v.tenant_id v.id) _ db d w h in
      let (model, m, j) = lift_inv (parse_id libs "model_id" v.model_id) _ db d w k in
      let x = create_row libs json between ids.0 ids.1 model v db in
      let (r, e, s, f) = map_inv x.0 (version_from_row libs v.tenant_id) x.1 d w j in
      let made : x ≡ (ok r, d) = λ i. (e i, s i) in
      rw (same_tenant libs v.tenant_id v.id again ids n p q, m)
        (rw
          (row_replayed ids.0 n model (record v { id = again }) later d r some_key
            (row-Recorded ids.0 ids.1 model v between db d r some_key made))
          (λ i. (ok (f i), d)))
