-- ===== src/Listing/Keyset.antt =====
-- A list of models after a boundary (internal/data/postgres/model_store.go) against the same list
-- after an offset.
use ani_model_service.Prelude.{
  ℕ, suc, ◌≤◌, ◌≡◌, ◌≢◌, refl, sym, ap, ◌∙◌, String, Bool, true, ◌&&◌, ◌==◌, eq_iff, ok, pos, none,
  some, List, [], ◌∷◌, ◌++◌, All, arith, Bool-cases, inl, inr, length, take, drop,
}
use ani_model_service.Database.Table.{select}
use ani_model_service.Database.Rows.{ModelRow, is_live}
use ani_model_service.Database.Exec.{Db, Libs, parse_id}
use ani_model_service.Pagination.{max_int32}
use ani_model_service.Pagination.Bounds.{int32_of_small}
use ani_model_service.Listing.{ListOptions, Position, precedes, newest_first, query, list_boundary}
use ani_model_service.Listing.Order.{
  IsDistinct, Descends, select-select, select-newest_first, select_cut, newest_first-Descends,
}
use ani_model_service.Listing.Models.{is_listed, model_position, list_models, select_models}

and_true : (a b : Bool) → (a && b) ≡ true → a ≡ true
and_true a b h = ground arith

select_same :
    {A : Type 0} (p q : A → Bool)
    → ((x : A) → p x ≡ q x)
    → (xs : List A) → select p xs ≡ select q xs
unfolding select
select_same p q h [] = refl
select_same p q h (x ∷ xs) = ground (arith, h x, select_same p q h xs)

drop_front :
    {A : Type 0} (front : List A) (m : A) (rest : List A)
    → drop (suc (length front)) (front ++ m ∷ rest) ≡ rest
drop_front [] m rest = refl
drop_front (x ∷ front) m rest = drop_front front m rest

module _ {A : Type 0} (at : A → Position) (matches : A → Bool) (rows : List A) where
  -- All rows that match, the newest first.
  abbrev pub ordered : List A
  ordered = newest_first at (select matches rows)

  pub query_offset :
      (offset limit : ℕ)
      → query at matches none (pos offset) (pos limit) rows ≡ ok (take limit (drop offset ordered))
  unfolding query
  query_offset offset limit =
      ap (λ xs. ok (take limit (drop offset (newest_first at xs))))
        (select_same (λ x. matches x && true) matches (λ x. ground arith) rows)

  pub query_keyset :
      (front : List A) (m : A) (rest : List A) (limit : ℕ)
      → IsDistinct at (select matches rows)
      → ordered ≡ front ++ m ∷ rest
      → query at matches (some (at m)) (pos 0) (pos limit) rows ≡ ok (take limit rest)
  unfolding query
  query_keyset front m rest limit d e =
      let order : Descends at (front ++ m ∷ rest) =
        rw (sym e) (newest_first-Descends at (select matches rows) d) in
      ap (λ xs. ok (take limit xs))
        (ap (newest_first at) (select-select matches (λ x. precedes (at x) (at m)) rows)
          ∙ (sym (select-newest_first at (at m) (select matches rows))
              ∙ (ap (select (λ x. precedes (at x) (at m))) e ∙ select_cut at front m rest order)))

-- (tenant_id, id) of a row
abbrev pub row_key : {A : Type 0} → (A → ℕ) → (A → Position) → A → Position
row_key owner at x = (owner x, (at x).1)

-- The primary key of a table: no two rows of a tenant have the same id.
abbrev pub IsKeyed : {A : Type 0} → (A → ℕ) → (A → Position) → List A → Type 0
IsKeyed owner at = IsDistinct (row_key owner at)

module _ {A : Type 0} (at : A → Position) (owner : A → ℕ) (tenant : ℕ) (matches : A → Bool)
    (owned : (x : A) → matches x ≡ true → owner x ≡ tenant) where
  apart :
      (x : A) (xs : List A)
      → owner x ≡ tenant
      → All (λ y. row_key owner at y ≢ row_key owner at x) xs
      → All (λ y. at y ≢ at x) (select matches xs)
  unfolding select
  apart x [] e h = tt
  apart x (y ∷ ys) e h = elim (Bool-cases (matches y)) [
    | inl m ↦
        let same : owner y ≡ owner x = owned y m ∙ sym e in
        rw m ((λ q. h.0 (λ i. (same i, (q i).1))), apart x ys e h.1)
    | inr m ↦ rw m (apart x ys e h.1)
  ]

  -- The rows of one tenant have positions of their own.
  pub keyed-IsDistinct : (xs : List A) → IsKeyed owner at xs → IsDistinct at (select matches xs)
  unfolding select
  keyed-IsDistinct [] h = tt
  keyed-IsDistinct (x ∷ xs) h = elim (Bool-cases (matches x)) [
    | inl m ↦ rw m (apart x xs (owned x m) h.0, keyed-IsDistinct xs h.1)
    | inr m ↦ rw m (keyed-IsDistinct xs h.1)
  ]

-- The options of l rows after a row.
abbrev pub after_row : Libs → ModelRow → ℕ → ListOptions → ListOptions
after_row libs m l o = record o {
  limit = pos l;
  offset = pos 0;
  before_created_at = m.created_at;
  before_id = libs.uuid_string m.id;
}

-- The options of l rows after the first n.
abbrev pub skipping : ℕ → ℕ → ListOptions → ListOptions
skipping n l o = record o { limit = pos l; offset = pos n; before_created_at = 0; before_id = "" }

-- The models of a tenant that the options list, the newest first.
abbrev pub models_of : (String → String) → ℕ → ListOptions → Db → List ModelRow
models_of lower tenant o db = ordered model_position (is_listed lower tenant o) db.models

module _ (lower : String → String) (libs : Libs) (tenant : String) (t : ℕ) (o : ListOptions) where
  pub owned : (m : ModelRow) → is_listed lower t o m ≡ true → m.tenant_id ≡ t
  owned m h = ground (arith, and_true (m.tenant_id == t && is_live m.status) _ h)

  pub boundary_none : (n l : ℕ) → 1 ≤ l → l ≤ 1001 → list_boundary libs (skipping n l o) ≡ ok none
  unfolding list_boundary
  boundary_none n l a b = ground (arith, eq_iff "" "")

  boundary_some :
      (m : ModelRow) (l : ℕ)
      → 1 ≤ l
      → l ≤ 1001
      → libs.parse_uuid (libs.uuid_string m.id) ≡ some m.id
      → m.id ≢ 0
      → m.created_at ≢ 0
      → list_boundary libs (after_row libs m l o) ≡ ok (some (model_position m))
  unfolding list_boundary
  boundary_some m l a b u i c = ground (arith, u)

  -- A list without a boundary is the window of its offset and limit.
  pub list_models_lem :
      (n l : ℕ) (db : Db)
      → parse_id libs "tenant_id" tenant ≡ ok t
      → 1 ≤ l
      → l ≤ 1001
      → n ≤ max_int32
      → list_models lower libs tenant (skipping n l o) db
        ≡ (ok (take l (drop n (models_of lower t o db))), db)
  unfolding list_models select_models
  list_models_lem n l db p a b small =
      rw
        (
          p,
          boundary_none n l a b,
          int32_of_small n small,
          query_offset model_position (is_listed lower t o) db.models n l,
        )
        refl

  -- With the models keyed and a limit from 1 to 1001, the list of models after the creation time
  -- and the id of a row, of which neither is zero and the id is parsed back, is the list that
  -- skips the rows up to that row, when their number fits an int32; both are the rows that follow
  -- it, up to the limit.
  pub list_models-keyset :
      (l : ℕ) (db : Db) (front : List ModelRow) (m : ModelRow) (rest : List ModelRow)
      → parse_id libs "tenant_id" tenant ≡ ok t
      → 1 ≤ l
      → l ≤ 1001
      → suc (length front) ≤ max_int32
      → libs.parse_uuid (libs.uuid_string m.id) ≡ some m.id
      → m.id ≢ 0
      → m.created_at ≢ 0
      → IsKeyed (λ x. x.tenant_id) model_position db.models
      → models_of lower t o db ≡ front ++ m ∷ rest
      → (list_models lower libs tenant (after_row libs m l o) db ≡ (ok (take l rest), db))
        × (list_models lower libs tenant (skipping (suc (length front)) l o) db
            ≡ (ok (take l rest), db))
  unfolding list_models select_models
  list_models-keyset l db front m rest p a b small u i c keyed all = (
    rw
        (
          p,
          boundary_some m l a b u i c,
          query_keyset model_position (is_listed lower t o) db.models front m rest l
              (keyed-IsDistinct model_position (λ x. x.tenant_id) t (is_listed lower t o) owned
                db.models keyed)
              all,
        )
        refl,
    list_models_lem (suc (length front)) l db p a b small ∙ rw (all, drop_front front m rest) refl,
  )
