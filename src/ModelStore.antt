-- ===== src/ModelStore.antt =====
-- ModelStore of internal/data/postgres/model_store.go: the creation of a model under an
-- idempotency key, with its statements in model.sql.go. The deletions are in Deletion.
pub mod Creation
use ani_model_service.Prelude.{
  ℕ, String, Bool, not, ok, err, ◌==◌, ◌&&◌, ◌||◌, str_eq, if◌then◌else◌, List, none,
}
use ani_model_service.Errors.{Res, Error}
use ani_model_service.Database.Table.{find}
use ani_model_service.Database.Rows.{ModelRow, ModelStatus}
use ani_model_service.Database.Exec.{Db, Exec, pure, fail, lift, row, attempt, ◌>>=◌, ◌>>◌, Libs}
use ani_model_service.Database.Registrations
use ani_model_service.VersionStore.{parse_model_ids}

-- The fields of a request that its fingerprint is made of. `capabilities` is the list that the
-- JSON bytes of the source hold.
pub record Fields : Type 0 where
  pub external_model_id : String
  pub name : String
  pub display_name : String
  pub description : String
  pub source : String
  pub capabilities : List String

abbrev pub has_key : ℕ → String → ModelRow → Bool
has_key tenant key m = m.tenant_id == tenant && str_eq m.idempotency_key key

-- GetModelByIdempotency
unfoldable pub get_model_by_idempotency : ℕ → String → Exec ModelRow
get_model_by_idempotency tenant key db = (row (find (has_key tenant key) db.models), db)

-- CHECK (source IN ('upload', 'huggingface', 'modelscope', 'builtin'))
abbrev pub is_source : String → Bool
is_source s =
    str_eq s "upload" || (str_eq s "huggingface" || (str_eq s "modelscope" || str_eq s "builtin"))

-- The row that CreateModel inserts: a pending model.
abbrev pub new_model : ℕ → ℕ → ℕ → Fields → String → String → ModelRow
new_model now tenant id f key print = record {
  tenant_id = tenant;
  id = id;
  model_id = f.external_model_id;
  name = f.name;
  display_name = f.display_name;
  description = f.description;
  source = f.source;
  source_repo_id = "";
  capabilities = f.capabilities;
  status = ModelStatus.pending;
  error_message = "";
  total_size_bytes = 0;
  idempotency_key = key;
  request_fingerprint = print;
  created_at = now;
  updated_at = now;
  deleted_at = none;
}

-- CreateModel of model.sql.go, which returns the inserted row.
unfoldable pub insert_model : ℕ → ℕ → Fields → String → String → Exec ModelRow
insert_model tenant id f key print db =
    if is_source f.source
    then (Registrations.insert_model (new_model db.clock tenant id f key print)
          >> pure (new_model db.clock tenant id f key print))
        db
    else (err Error.check_violation, db)

-- `json` is the text that json.Marshal makes of the fields.
module _ (libs : Libs) (json : Fields → String) where
  unfoldable pub fingerprint : Fields → String
  fingerprint f = libs.sha256_hex (json f)

  -- `between` is what other connections commit after the lookup and before the insert.
  abbrev pub looked_up : (Db → Db) → ℕ → ℕ → Fields → String → Res ModelRow → Exec ModelRow
  looked_up between tenant id f key (ok m) =
      if not (str_eq m.request_fingerprint (fingerprint f))
      then fail Error.unique_violation
      else pure m
  looked_up between tenant id f key (err Error.no_rows) =
      λ db. insert_model tenant id f key (fingerprint f) (between db)
  looked_up between tenant id f key (err e) = fail e

  -- createModelParsed
  unfoldable pub create_parsed : (Db → Db) → ℕ → ℕ → Fields → String → Exec ModelRow
  create_parsed between tenant id f key =
      if not (str_eq key "")
      then attempt (get_model_by_idempotency tenant key) >>= looked_up between tenant id f key
      else λ db. insert_model tenant id f key (fingerprint f) (between db)

  -- CreateModelWithExternalID; createModel passes the name as the external id.
  unfoldable pub create_model_with_external_id :
      (Db → Db) → String → String → Fields → String → Exec ModelRow
  create_model_with_external_id between tenant id f key = do
    ids ← lift (parse_model_ids libs tenant id)
    create_parsed between ids.0 ids.1 f key

  unfoldable pub create_model : (Db → Db) → String → String → Fields → String → Exec ModelRow
  create_model between tenant id f key =
      create_model_with_external_id between tenant id (record f { external_model_id = f.name }) key
