-- ===== src/Service.antt =====
-- ModelService of internal/service/model.go: a handler ends in a result or in a refusal of the
-- request, and the operations of the stores are its calls. Between two calls other connections
-- commit what they like.
pub mod Uploads
pub mod Intact
pub mod Verified
use ani_model_service.Prelude.{
  ℕ, String, Bool, true, false, ◌&&◌, ◌||◌, not, ok, err, Result, ltb, ◌==◌, str_eq, if◌then◌else◌,
  Option, none, some,
}
use ani_model_service.Errors.{Res, Error}
use ani_model_service.Text.{codes, byte_length, contains_any, line_breaks, trim_text}
use ani_model_service.Identity.{Principal, require_tenant}
use ani_model_service.Database.Table.{find}
use ani_model_service.Database.Rows.{ModelRow, is_live}
use ani_model_service.Database.Exec.{Db, Exec, lift, row, ◌>>=◌, Libs, parse_id}
use ani_model_service.Database.Versions.{is_model}
use ani_model_service.VersionStore.{parse_model_ids}

-- The status and the reason of a refused request, of github.com/go-kratos/kratos
pub data Refusal : Type 0 where
  refused : ℕ → String → Refusal

abbrev pub Handler : Type 0 → Type 0
Handler A = Db → Result Refusal A × Db

abbrev pub answer : {A : Type 0} → A → Handler A
answer a db = (ok a, db)

abbrev pub refuse : {A : Type 0} → ℕ → String → Handler A
refuse code reason db = (err (Refusal.refused code reason), db)

abbrev pub after : {A B : Type 0} → Result Refusal A → (A → Handler B) → Handler B
after (ok a) k db = k a db
after (err e) k db = (err e, db)

infixl 5 ◌then◌
abbrev pub ◌then◌ : {A B : Type 0} → Handler A → (A → Handler B) → Handler B
◌then◌ m k db = let (r, d) = m db in after r k d

abbrev pub mapped : {A : Type 0} → (Error → Refusal) → Res A → Result Refusal A
mapped f (ok a) = ok a
mapped f (err e) = err (f e)

-- A call of a store, after what other connections have committed.
abbrev pub call : {A : Type 0} → (Db → Db) → (Error → Refusal) → Exec A → Handler A
call others f m db = let (r, d) = m (others db) in (mapped f r, d)

-- mapIdentity
abbrev pub map_identity : Error → Refusal
map_identity (Error.message text) =
    if str_eq text "trusted principal is required"
    then Refusal.refused 401 "UNAUTHENTICATED"
    else Refusal.refused 403 "TENANT_MISMATCH"
map_identity e = Refusal.refused 403 "TENANT_MISMATCH"

-- mapStore; a lost connection is not modelled.
abbrev pub map_store : Error → Refusal
map_store Error.no_rows = Refusal.refused 404 "MODEL_NOT_FOUND"
map_store Error.unique_violation = Refusal.refused 409 "CONFLICT"
map_store e = Refusal.refused 500 "MODEL_STORE_ERROR"

abbrev pub authenticated :
    {A : Type 0} → Option Principal → String → (Principal → Handler A) → Handler A
authenticated context tenant k = after (mapped map_identity (require_tenant context tenant)) k

-- GetModel of model.sql.go and of ModelStore
unfoldable pub get_model : Libs → String → String → Exec ModelRow
get_model libs tenant id = lift (parse_model_ids libs tenant id) >>= λ ids.
    λ db. (row (find (λ m. is_model ids.0 ids.1 m && is_live m.status) db.models), db)

-- GetModelByExternalID of model.sql.go and of ModelStore
unfoldable pub get_model_by_external_id : Libs → String → String → Exec ModelRow
get_model_by_external_id libs tenant external = lift (parse_id libs "tenant_id" tenant) >>= λ t.
    λ db. (
      row (
          find (λ m. m.tenant_id == t && (str_eq m.model_id external && is_live m.status))
            db.models),
      db,
    )

abbrev pub is_selector : String → Bool
is_selector s =
    not (str_eq s "")
    && (not (ltb 255 (byte_length s))
        && (str_eq (trim_text s) s && not (contains_any line_breaks (codes s))))

abbrev pub model_by : Libs → String → String → Option ℕ → Exec ModelRow
model_by libs tenant selector (some id) = get_model libs tenant (libs.uuid_string id)
model_by libs tenant selector none = get_model_by_external_id libs tenant selector

-- resolveModel over the CatalogStore, which is configured; the latest version that it adds to the
-- model is read by no caller below.
unfoldable pub resolve_model : (Db → Db) → Libs → String → String → Handler ModelRow
resolve_model others libs tenant selector =
    if not (is_selector selector)
    then refuse 400 "INVALID_ARGUMENT"
    else call others map_store (model_by libs tenant selector (libs.parse_uuid selector))
