-- ===== src/Deletion/Protection.antt =====
-- What a protected deletion writes and when (internal/data/postgres/deletion_store.go).
use ani_model_service.Prelude.{
  ℕ, String, ◌≡◌, refl, Bool, ◌&&◌, ok, err, ◌==◌, Option, none, some, any,
}
use ani_model_service.Errors.{Res, Error}
use ani_model_service.Database.Rows.{VersionRow}
use ani_model_service.Database.Exec.{Db, lift, transaction, ◌>>=◌, Libs, parse_id}
use ani_model_service.Database.After.{settle_err}
use ani_model_service.Deletion
use ani_model_service.Deletion.{
  ReferenceChecker, check_references, delete_version_row, delete_model, delete_version,
  delete_model_in,
}

module _ (libs : Libs) (refs : ReferenceChecker) (tenant selector : String)
    (is_active : String → Bool) where
  -- Some version row of the model has active references.
  abbrev pub in_use : ℕ → ℕ → Db → Bool
  in_use t model db =
      any
        (λ (v : VersionRow).
          (v.tenant_id == t && v.model_id == model) && is_active (libs.uuid_string v.id))
        db.versions

-- A DeleteModel that returns an error, an unavailable reference check among them, has changed
-- nothing.
delete_model_err :
    (libs : Libs) (refs : Option ReferenceChecker) (tenant selector : String) (db : Db) (e : Error)
    → (delete_model libs refs tenant selector db).0 ≡ err e
    → (delete_model libs refs tenant selector db).1 ≡ db
unfolding delete_model
delete_model_err libs none tenant selector db e h = refl
delete_model_err libs (some refs) tenant selector db e h = go (parse_id libs "tenant_id" tenant) h
  where
    go :
        (p : Res ℕ)
        → ((lift p >>= λ t.
              transaction (delete_model_in libs refs tenant t (libs.parse_uuid selector) selector))
            db).0
          ≡ err e
        → ((lift p >>= λ t.
              transaction (delete_model_in libs refs tenant t (libs.parse_uuid selector) selector))
            db).1
          ≡ db
    go (err x) h = refl
    go (ok t) h =
        settle_err db (delete_model_in libs refs tenant t (libs.parse_uuid selector) selector db) e
          h

-- A DeleteVersion that returns an error has changed nothing.
delete_version_err :
    (libs : Libs) (refs : Option ReferenceChecker) (tenant version : String) (db : Db) (e : Error)
    → (delete_version libs refs tenant version db).0 ≡ err e
    → (delete_version libs refs tenant version db).1 ≡ db
unfolding delete_version
delete_version_err libs none tenant version db e h = refl
delete_version_err libs (some refs) tenant version db e h =
    go (parse_id libs "tenant_id" tenant) (parse_id libs "version_id" version) h
  where
    go :
        (p q : Res ℕ)
        → ((lift p >>= λ t.
              lift q >>= λ id. transaction (Deletion.delete_version_in libs refs tenant t id))
            db).0
          ≡ err e
        → ((lift p >>= λ t.
              lift q >>= λ id. transaction (Deletion.delete_version_in libs refs tenant t id))
            db).1
          ≡ db
    go (err x) q h = refl
    go (ok t) (err x) h = refl
    go (ok t) (ok id) h = settle_err db (Deletion.delete_version_in libs refs tenant t id db) e h
