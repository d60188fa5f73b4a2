-- ===== src/Listing/Models.antt =====
-- The lists of models: ListModels and CountModels of internal/data/postgres/model.sql.go, and the
-- operations of model_store.go on them.
use ani_model_service.Prelude.{
  ℕ, String, Bool, ◌&&◌, ◌||◌, ◌==◌, str_eq, Option, List, [], ◌∷◌, any,
}
use ani_model_service.Text.{codes, has_prefix}
use ani_model_service.Database.Table.{count}
use ani_model_service.Database.Rows.{ModelRow, ModelStatus, is_live}
use ani_model_service.Database.Exec.{Exec, pure, lift, gets, transaction, ◌>>=◌, Libs, parse_id}
use ani_model_service.Listing.{ListOptions, Position, list_boundary, int32_of, query}

abbrev pub model_position : ModelRow → Position
model_position m = (m.created_at, m.id)

abbrev pub model_status_text : ModelStatus → String
model_status_text ModelStatus.pending = "pending"
model_status_text ModelStatus.downloading = "downloading"
model_status_text ModelStatus.ready = "ready"
model_status_text ModelStatus.error = "error"
model_status_text ModelStatus.deleted = "deleted"

-- $n = '' OR column = $n
abbrev pub is_wanted : String → String → Bool
is_wanted wanted value = str_eq wanted "" || str_eq value wanted

-- strpos(text, part) > 0
unfoldable pub has_part : List ℕ → List ℕ → Bool
unfolding has_prefix
has_part part [] = has_prefix part []
has_part part (c ∷ s) = has_prefix part (c ∷ s) || has_part part s

-- `lower` is PostgreSQL's lower, which depends on the locale of the database.
module _ (lower : String → String) where
  abbrev pub has_keyword : String → ModelRow → Bool
  has_keyword keyword m =
      str_eq keyword ""
      || (has_part (codes (lower keyword)) (codes (lower m.name))
          || (has_part (codes (lower keyword)) (codes (lower m.display_name))
              || has_part (codes (lower keyword)) (codes (lower m.model_id))))

  -- The WHERE clause that both statements have
  abbrev pub is_listed : ℕ → ListOptions → ModelRow → Bool
  is_listed tenant o m =
      (m.tenant_id == tenant && is_live m.status)
      && (is_wanted o.status (model_status_text m.status)
          && (is_wanted o.source m.source
              && ((str_eq o.capability "" || any (λ c. str_eq c o.capability) m.capabilities)
                  && has_keyword o.keyword m)))

  unfoldable pub count_models : ℕ → ListOptions → Exec ℕ
  count_models tenant o = gets (λ db. count (is_listed tenant o) db.models)

  unfoldable pub select_models : ℕ → ListOptions → Option Position → Exec (List ModelRow)
  select_models tenant o before db =
      (query model_position (is_listed tenant o) before (int32_of o.offset) o.limit db.models, db)

  module _ (libs : Libs) where
    -- ModelStore.ListModels
    unfoldable pub list_models : String → ListOptions → Exec (List ModelRow)
    list_models tenant o = do
      t ← lift (parse_id libs "tenant_id" tenant)
      before ← lift (list_boundary libs o)
      select_models t o before

    -- ModelStore.CountModels
    unfoldable pub count_of_models : String → ListOptions → Exec ℕ
    count_of_models tenant o = lift (parse_id libs "tenant_id" tenant) >>= λ t. count_models t o

    -- ListModelsPage: both statements in one repeatable-read transaction
    unfoldable pub list_models_page : String → ListOptions → Exec (List ModelRow × ℕ)
    list_models_page tenant o =
        transaction
          (do total ← count_of_models tenant o; rows ← list_models tenant o; pure (rows, total))
