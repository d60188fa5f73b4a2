-- ===== src/Listing/Pages.antt =====
-- The pages of ListModels of internal/service/model.go, read one after the other: resolvePage of
-- pagination.go with ListModelsPage of internal/data/postgres/model_store.go.
use native.Mathlib.Nat.{le_trans, mul-le-mul_right}
use ani_model_service.Prelude.{
  ℕ, zero, suc, ◌+◌, ◌-◌, ◌*◌, ◌≤◌, ◌≡◌, refl, sym, ap, ◌∙◌, String, Bool, ◌&&◌, ok, err, pos, some,
  List, [], ◌∷◌, ◌++◌, arith, length, take, drop,
}
use ani_model_service.Errors.{Res}
use ani_model_service.Database.Table.{select, count}
use ani_model_service.Database.Rows.{ModelRow}
use ani_model_service.Database.Exec.{Db, Libs, parse_id}
use ani_model_service.Pagination.{Page, resolve_page, max_int32}
use ani_model_service.Pagination.Bounds.{resolve_positive_iff}
use ani_model_service.Listing.{ListOptions}
use ani_model_service.Listing.Order.{
  Descends, length-select, count-select, count-newest_first, newest_first-Descends,
  length-newest_first,
}
use ani_model_service.Listing.Models.{
  is_listed, model_position, count_models, count_of_models, list_models_page,
}
use ani_model_service.Listing.Keyset.{
  IsKeyed, keyed-IsDistinct, skipping, models_of, list_models_lem, owned,
}

-- The rows of pages 1 to n, when every page is read.
abbrev pub joined : {A : Type 0} → Res (List A) → Res (List A × ℕ) → Res (List A)
joined (ok xs) (ok (ys, total)) = ok (xs ++ ys)
joined (ok xs) (err e) = err e
joined (err e) page = err e

abbrev pub gather : {A : Type 0} → (ℕ → Res (List A × ℕ)) → ℕ → Res (List A)
gather page zero = ok []
gather page (suc n) = joined (gather page n) (page (suc n))

take_nil : {A : Type 0} (n : ℕ) → take {A = A} n [] ≡ []
take_nil zero = refl
take_nil (suc n) = refl

take_more : {A : Type 0} (a b : ℕ) (xs : List A) → take a xs ++ take b (drop a xs) ≡ take (a + b) xs
take_more zero b xs = ap (λ n. take n xs) (omega arith)
take_more (suc a) b [] = take_nil b ∙ sym (take_nil (suc a + b))
take_more (suc a) b (x ∷ xs) =
    let n : suc (a + b) ≡ suc a + b = omega arith in
    ap (◌∷◌ x) (take_more a b xs) ∙ ap (λ k. take k (x ∷ xs)) n

pub take_enough : {A : Type 0} (n : ℕ) (xs : List A) → length xs ≤ n → take n xs ≡ xs
take_enough zero [] h = refl
take_enough zero (x ∷ xs) h = absurd (omega (arith, h))
take_enough (suc n) [] h = refl
take_enough (suc n) (x ∷ xs) h = ap (◌∷◌ x) (take_enough n xs (omega (arith, h)))

pub gather-take :
    {A : Type 0} (page : ℕ → Res (List A × ℕ)) (size total : ℕ) (all : List A) (n : ℕ)
    → ((p : ℕ) → 1 ≤ p → p ≤ n → page p ≡ ok (take size (drop ((p - 1) * size) all), total))
    → gather page n ≡ ok (take (n * size) all)
gather-take page size total all zero h =
    let none_yet : 0 ≡ 0 * size = omega arith in ap (λ k. ok (take k all)) none_yet
gather-take page size total all (suc n) h =
    let before : suc n - 1 ≡ n = omega arith in
    let start : (suc n - 1) * size ≡ n * size = ap (λ k. k * size) before in
    let end : n * size + size ≡ suc n * size = omega arith in
    rw
      (
        gather-take page size total all n (λ p a l. h p a (omega (arith, l))),
        h (suc n) (omega arith) (omega arith),
        start,
      )
      (ap ok (take_more (n * size) size all ∙ ap (λ k. take k all) end))

pub earlier : (p n size m : ℕ) → 1 ≤ p → p ≤ n → (n - 1) * size ≤ m → (p - 1) * size ≤ m
earlier p n size m a b h = le_trans (mul-le-mul_right size (omega (arith, a, b))) h

module _ (lower : String → String) (libs : Libs) (tenant : String) (o : ListOptions) where
  -- What the service makes of a page and a page size.
  abbrev pub served : Db → Res Page → Res (List ModelRow × ℕ)
  served db (err e) = err e
  served db (ok r) = (list_models_page lower libs tenant (skipping r.offset r.limit o) db).0

  abbrev pub page_request : ℕ → ℕ → Db → Res (List ModelRow × ℕ)
  page_request size p db = served db (resolve_page (some (pos p)) (some (pos size)))

  module _ (t : ℕ) (db : Db) where
    measure : length (models_of lower t o db) ≡ count (is_listed lower t o) db.models
    measure =
        length-newest_first model_position (select (is_listed lower t o) db.models)
        ∙ length-select (is_listed lower t o) db.models

    page_lem :
        (n l : ℕ)
        → parse_id libs "tenant_id" tenant ≡ ok t
        → 1 ≤ l
        → l ≤ 1001
        → n ≤ max_int32
        → list_models_page lower libs tenant (skipping n l o) db
          ≡ (ok (take l (drop n (models_of lower t o db)), length (models_of lower t o db)), db)
    unfolding list_models_page count_of_models count_models
    page_lem n l p a b small =
        rw (p, list_models_lem lower libs tenant t o n l db p a b small, measure) refl

    request_lem :
        (size p : ℕ)
        → parse_id libs "tenant_id" tenant ≡ ok t
        → 1 ≤ size
        → size ≤ 100
        → 1 ≤ p
        → (p - 1) * size ≤ max_int32
        → page_request size p db
          ≡ ok (
            take size (drop ((p - 1) * size) (models_of lower t o db)),
            length (models_of lower t o db),
          )
    unfolding resolve_page
    request_lem size p id a b first small =
        let accepted =
          (resolve_positive_iff p size (record { limit = size; offset = (p - 1) * size })).1
            (first, a, b, small, refl, refl) in
        ap (served db) accepted
        ∙ ap (λ x. x.0) (page_lem ((p - 1) * size) size id a (omega (arith, b)) small)

    -- With the models keyed and a page size from 1 to 100, pages 1 to n, when they have room for
    -- every model that the filters list and their offsets fit an int32, read one after the other
    -- give all of these models, the newest first; each row is there as often as in the table, and
    -- every page p from 1 to n is the slice of that list at (p - 1) * size, with its length as the
    -- total.
    pub list_models_pages :
        (size n p : ℕ) (q : ModelRow → Bool)
        → parse_id libs "tenant_id" tenant ≡ ok t
        → 1 ≤ size
        → size ≤ 100
        → 1 ≤ p
        → p ≤ n
        → (n - 1) * size ≤ max_int32
        → count (is_listed lower t o) db.models ≤ n * size
        → IsKeyed (λ m. m.tenant_id) model_position db.models
        → (gather (λ k. page_request size k db) n ≡ ok (models_of lower t o db))
          × Descends model_position (models_of lower t o db)
          × (count q (models_of lower t o db) ≡ count (λ m. is_listed lower t o m && q m) db.models)
          × (page_request size p db
              ≡ ok (
                take size (drop ((p - 1) * size) (models_of lower t o db)),
                length (models_of lower t o db),
              ))
    list_models_pages size n p q id a b first last small enough keyed = (
      gather-take (λ k. page_request size k db) size (length (models_of lower t o db))
            (models_of lower t o db) n
            (λ k i j. request_lem size k id a b i (earlier k n size max_int32 i j small))
          ∙ ap ok (take_enough (n * size) (models_of lower t o db) (rw measure enough)),
      newest_first-Descends model_position (select (is_listed lower t o) db.models) (
          keyed-IsDistinct model_position (λ m. m.tenant_id) t (is_listed lower t o)
            (owned lower libs tenant t o) db.models keyed),
      count-newest_first model_position q (select (is_listed lower t o) db.models)
          ∙ count-select (is_listed lower t o) q db.models,
      request_lem size p id a b first (earlier p n size max_int32 first last small),
    )
