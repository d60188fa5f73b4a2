-- ===== src/Deletion.antt =====
-- Protected deletion: internal/data/postgres/deletion_store.go and internal/biz/model/deletion.go,
-- on a pool that starts a read committed transaction. The time limits are not modelled.
pub mod Batches
pub mod Protection
use ani_model_service.Prelude.{
  ℕ, zero, suc, String, Bool, true, false, ◌&&◌, ◌||◌, not, ok, err, leb, ◌==◌, str_eq,
  if◌then◌else◌, Option, none, some, List, [], ◌∷◌, map, take, drop, length, is_none,
}
use ani_model_service.Errors.{Res, Error}
use ani_model_service.Database.Table.{find, update, count, select}
use ani_model_service.Database.Rows.{
  ModelRow, ModelStatus, VersionRow, VersionStatus, is_live, is_deleted,
}
use ani_model_service.Database.Exec.{
  Db, Exec, pure, fail, lift, gets, row, transaction, ◌>>=◌, ◌>>◌, Libs, parse_id,
}
use ani_model_service.Database.Tasks.{is_id}
use ani_model_service.Database.Versions.{is_version, is_model}

-- ReferenceChecker: HasActiveVersionReferences of a tenant and a batch of version ids.
abbrev pub ReferenceChecker : Type 0
ReferenceChecker = String → List String → Res Bool

-- The slices ids[start:end] of the loop, at most n of them.
unfoldable pub batches : ℕ → List String → List (List String)
batches zero ids = []
batches (suc n) [] = []
batches (suc n) (id ∷ ids) = take 256 (id ∷ ids) ∷ batches n (drop 256 (id ∷ ids))

abbrev pub check_result : Res Bool → Res (Unit {0})
check_result (err e) = err Error.reference_check_unavailable
check_result (ok true) = err Error.model_in_use
check_result (ok false) = ok tt

-- The loop: the first batch that is refused ends it.
unfoldable pub check_batches : ReferenceChecker → String → List (List String) → Res (Unit {0})
check_batches refs tenant [] = ok tt
check_batches refs tenant (batch ∷ rest) = elim (check_result (refs tenant batch)) [
  | err e ↦ err e
  | ok u ↦ check_batches refs tenant rest
]

unfoldable pub check_references : ReferenceChecker → String → List String → Res (Unit {0})
check_references refs tenant ids = check_batches refs tenant (batches (length ids) ids)

-- ORDER BY id
unfoldable pub insert_sorted : ℕ → List ℕ → List ℕ
insert_sorted x [] = x ∷ []
insert_sorted x (y ∷ ys) = if leb x y then x ∷ y ∷ ys else y ∷ insert_sorted x ys

unfoldable pub sort : List ℕ → List ℕ
sort [] = []
sort (x ∷ xs) = insert_sorted x (sort xs)

abbrev pub version_ids : ℕ → ℕ → Db → List ℕ
version_ids tenant model db = sort (
    map (λ (v : VersionRow). v.id)
      (select (λ v. v.tenant_id == tenant && v.model_id == model) db.versions))

-- id=$2::uuid OR ($2::uuid IS NULL AND model_id=$3)
abbrev pub is_selected : ℕ → Option ℕ → String → ModelRow → Bool
is_selected tenant selected selector m =
    m.tenant_id == tenant
    && (is_id selected m.id || (is_none selected && str_eq m.model_id selector))

-- SoftDeleteModel of model.sql.go
unfoldable pub soft_delete_model : ℕ → ℕ → Exec ℕ
soft_delete_model tenant id db = (
  ok (count (λ m. is_model tenant id m && is_live m.status) db.models),
  record db {
    models =
        update (λ m. is_model tenant id m && is_live m.status)
          (λ m. record m {
            status = ModelStatus.deleted;
            deleted_at = some db.clock;
            updated_at = db.clock;
          })
          db.models;
  },
)

unfoldable pub delete_version_row : ℕ → ℕ → Exec (Unit {0})
delete_version_row tenant id db = (
  ok tt,
  record db {
    versions =
        update (is_version tenant id)
          (λ v. record v { status = VersionStatus.deleted; updated_at = db.clock }) db.versions;
  },
)

module _ (libs : Libs) (refs : ReferenceChecker) (tenant : String) (t : ℕ) where
  abbrev pub delete_model_row : ModelRow → Exec (Unit {0})
  delete_model_row m =
      if not (is_live m.status)
      then pure tt
      else (gets (version_ids t m.id) >>= λ ids.
          lift (check_references refs tenant (map libs.uuid_string ids)) >>= λ u.
          soft_delete_model t m.id >>= λ n. pure tt)

  abbrev pub delete_joined_version : VersionRow → ModelRow → Exec (Unit {0})
  delete_joined_version v m =
      if not (is_live m.status)
      then pure tt
      else if is_deleted v.status
      then pure tt
      else (lift (check_references refs tenant (libs.uuid_string v.id ∷ [])) >>= λ u.
          delete_version_row t v.id)

  abbrev pub delete_model_in : Option ℕ → String → Exec (Unit {0})
  delete_model_in selected selector = do
    r ← gets (λ db. find (is_selected t selected selector) db.models)
    m ← lift (row r)
    delete_model_row m

  abbrev pub delete_version_in : ℕ → Exec (Unit {0})
  delete_version_in id = do
    r ← gets (λ db. find (is_version t id) db.versions)
    v ← lift (row r)
    owner ← gets (λ db. find (is_model v.tenant_id v.model_id) db.models)
    m ← lift (row owner)
    delete_joined_version v m

-- DeleteModel: deleteProtected with versionOnly false; nil is no checker.
unfoldable pub delete_model : Libs → Option ReferenceChecker → String → String → Exec (Unit {0})
delete_model libs none tenant selector = fail Error.reference_check_unavailable
delete_model libs (some refs) tenant selector = lift (parse_id libs "tenant_id" tenant) >>= λ t.
    transaction (delete_model_in libs refs tenant t (libs.parse_uuid selector) selector)

-- DeleteVersion: the selector must be a UUID.
unfoldable pub delete_version : Libs → Option ReferenceChecker → String → String → Exec (Unit {0})
delete_version libs none tenant version = fail Error.reference_check_unavailable
delete_version libs (some refs) tenant version = lift (parse_id libs "tenant_id" tenant) >>= λ t.
    lift (parse_id libs "version_id" version) >>= λ id.
    transaction (delete_version_in libs refs tenant t id)
