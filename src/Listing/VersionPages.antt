-- ===== src/Listing/VersionPages.antt =====
-- The pages of ListModelVersions of internal/service/model.go, read one after the other:
-- resolvePage of pagination.go with ListVersionsPage of internal/data/postgres/version_store.go.
use ani_model_service.Prelude.{
  ℕ, zero, suc, ◌-◌, ◌*◌, ◌≤◌, ◌≡◌, ◌↔◌, ◌⊎◌, refl, sym, ap, ◌∙◌, String, Bool, true, false, ◌&&◌,
  ok, err, pos, some, List, [], ◌∷◌, arith, length, take, drop, map, any, eq_iff, inl, inr,
  Bool-cases, str_eq,
}
use ani_model_service.Errors.{Res}
use ani_model_service.Model.{Version}
use ani_model_service.Database.Table.{select, count}
use ani_model_service.Database.Rows.{VersionRow, is_live, is_deleted}
use ani_model_service.Database.Exec.{Db, Libs}
use ani_model_service.Database.Versions.{is_model}
use ani_model_service.VersionStore.{parse_model_ids}
use ani_model_service.Pagination.{Page, resolve_page, page_of, max_int32}
use ani_model_service.Pagination.Bounds.{int32_of_small, resolve_positive_iff}
use ani_model_service.Listing.{ListOptions}
use ani_model_service.Listing.Order.{
  Descends, length-select, count-select, count-newest_first, newest_first-Descends,
  length-newest_first,
}
use ani_model_service.Listing.Versions.{
  is_listed, version_position, joined_version, count_model_versions, select_versions, list_versions,
  count_versions, list_versions_page, version_status_text,
}
use ani_model_service.Listing.Models.{is_wanted}
use ani_model_service.Listing.Keyset.{
  IsKeyed, keyed-IsDistinct, skipping, boundary_none, ordered, query_offset,
}
use ani_model_service.Listing.Pages.{gather, gather-take, take_enough, earlier}

map_window :
    {A B : Type 0} (f : A → B) (l n : ℕ) (xs : List A)
    → take l (drop n (map f xs)) ≡ map f (take l (drop n xs))
map_window f zero zero xs = refl
map_window f zero (suc n) [] = refl
map_window f zero (suc n) (x ∷ xs) = map_window f zero n xs
map_window f (suc l) zero [] = refl
map_window f (suc l) zero (x ∷ xs) = ap (◌∷◌ (f x)) (map_window f l zero xs)
map_window f (suc l) (suc n) [] = refl
map_window f (suc l) (suc n) (x ∷ xs) = map_window f (suc l) n xs

length-map : {A B : Type 0} (f : A → B) (xs : List A) → length (map f xs) ≡ length xs
length-map f [] = refl
length-map f (x ∷ xs) = ap suc (length-map f xs)

wanted_iff :
    (wanted value : String) → (is_wanted wanted value ≡ true) ↔ ((wanted ≡ "") ⊎ (value ≡ wanted))
wanted_iff wanted value = (
  λ h. elim (Bool-cases (str_eq wanted "")) [
    | inl e ↦ inl ((eq_iff wanted "").0 e)
    | inr e ↦ inr (ground (arith, e, h, eq_iff value wanted))
  ],
  λ x. elim x [
    | inl e ↦ ground (arith, e, eq_iff wanted "")
    | inr e ↦ ground (arith, e, eq_iff value wanted)
  ],
)

-- The version is one of the model, neither of them is deleted, and its status is asked for.
abbrev pub IsShown : Db → ℕ → ℕ → String → VersionRow → Type 0
IsShown db tenant model status v =
    (v.tenant_id ≡ tenant)
    × (v.model_id ≡ model)
    × (is_deleted v.status ≡ false)
    × (any (λ m. is_model tenant model m && is_live m.status) db.models ≡ true)
    × ((status ≡ "") ⊎ (version_status_text v.status ≡ status))

module _ (libs : Libs) (tenant model : String) (ids : ℕ × ℕ) (o : ListOptions) (db : Db) where
  -- The rows of the versions that the options list, the newest first.
  abbrev pub rows_of : List VersionRow
  rows_of = ordered version_position (is_listed db ids.0 ids.1 o) db.versions

  abbrev pub versions_of : List Version
  versions_of = map (joined_version libs db) rows_of

  -- What the service makes of a page and a page size.
  abbrev pub served : Res Page → Res (List Version × ℕ)
  served (err e) = err e
  served (ok r) = (list_versions_page libs tenant model (skipping r.offset r.limit o) db).0

  abbrev pub page_request : ℕ → ℕ → Res (List Version × ℕ)
  page_request size p = served (resolve_page (some (pos p)) (some (pos size)))

  measure : length rows_of ≡ count (is_listed db ids.0 ids.1 o) db.versions
  measure =
      length-newest_first version_position (select (is_listed db ids.0 ids.1 o) db.versions)
      ∙ length-select (is_listed db ids.0 ids.1 o) db.versions

  owned : (v : VersionRow) → is_listed db ids.0 ids.1 o v ≡ true → v.tenant_id ≡ ids.0
  owned v h = ground (arith, h)

  page_lem :
      (n l : ℕ)
      → parse_model_ids libs tenant model ≡ ok ids
      → 1 ≤ l
      → l ≤ 1001
      → n ≤ max_int32
      → list_versions_page libs tenant model (skipping n l o) db
        ≡ (ok (map (joined_version libs db) (take l (drop n rows_of)), length rows_of), db)
  unfolding list_versions_page list_versions select_versions count_versions count_model_versions
  page_lem n l p a b small =
      rw
        (
          p,
          boundary_none (λ s. s) libs tenant ids.0 o n l a b,
          int32_of_small n small,
          query_offset version_position (is_listed db ids.0 ids.1 o) db.versions n l,
          measure,
        )
        refl

  request_lem :
      (size p : ℕ)
      → parse_model_ids libs tenant model ≡ ok ids
      → 1 ≤ size
      → size ≤ 100
      → 1 ≤ p
      → (p - 1) * size ≤ max_int32
      → page_request size p ≡ ok (take size (drop ((p - 1) * size) versions_of), length versions_of)
  unfolding resolve_page
  request_lem size p id a b first small =
      let n = (p - 1) * size in
      let accepted : page_of p size ≡ ok (record { limit = size; offset = n }) =
        (resolve_positive_iff p size (record { limit = size; offset = n })).1
          (first, a, b, small, refl, refl) in
      ap served accepted
      ∙ (ap (λ x. x.0) (page_lem n size id a (omega (arith, b)) small) ∙ λ i. ok (
        sym (map_window (joined_version libs db) size n rows_of) i,
        sym (length-map (joined_version libs db) rows_of) i,
      ))

  has_live_model : ℕ → ℕ → Bool
  has_live_model t m = any (λ x. is_model t m x && is_live x.status) db.models

  shown :
      (v : VersionRow) → (is_listed db ids.0 ids.1 o v ≡ true) ↔ IsShown db ids.0 ids.1 o.status v
  unfolding has_live_model
  shown v = (
    λ h.
        let t : v.tenant_id ≡ ids.0 = ground (arith, h) in
        let m : v.model_id ≡ ids.1 = ground (arith, h) in
        let live : has_live_model v.tenant_id v.model_id ≡ true = ground (arith, h) in
        let wanted : is_wanted o.status (version_status_text v.status) ≡ true = ground (arith, h) in
        (
          t,
          m,
          ground (arith, h),
          sym (λ i. has_live_model (t i) (m i)) ∙ live,
          (wanted_iff o.status (version_status_text v.status)).0 wanted,
        ),
    λ (t, m, alive, live, wanted).
        let here : has_live_model v.tenant_id v.model_id ≡ true =
          (λ i. has_live_model (t i) (m i)) ∙ live in
        let w = (wanted_iff o.status (version_status_text v.status)).1 wanted in
        ground (arith, t, m, alive, here, w),
  )

  -- For ids that can be parsed, with the versions keyed and a page size from 1 to 100, pages 1 to
  -- n, when they have room for every version that the options list and their offsets fit an int32,
  -- read one after the other give all of these versions with their joined columns, the newest
  -- first; each row is there as often as in the table, a row is listed exactly when it is a
  -- version of the tenant and of the live model, not deleted and of the status that is asked for,
  -- and every page p from 1 to n is the slice of that list at (p - 1) * size, with its length as
  -- the total.
  pub list_versions_pages :
      (size n p : ℕ) (q : VersionRow → Bool) (v : VersionRow)
      → parse_model_ids libs tenant model ≡ ok ids
      → 1 ≤ size
      → size ≤ 100
      → 1 ≤ p
      → p ≤ n
      → (n - 1) * size ≤ max_int32
      → count (is_listed db ids.0 ids.1 o) db.versions ≤ n * size
      → IsKeyed (λ r. r.tenant_id) version_position db.versions
      → (gather (page_request size) n ≡ ok versions_of)
        × Descends version_position rows_of
        × (count q rows_of ≡ count (λ r. is_listed db ids.0 ids.1 o r && q r) db.versions)
        × ((is_listed db ids.0 ids.1 o v ≡ true) ↔ IsShown db ids.0 ids.1 o.status v)
        × (page_request size p
            ≡ ok (take size (drop ((p - 1) * size) versions_of), length versions_of))
  list_versions_pages size n p q v id a b first last small enough keyed = (
    gather-take (page_request size) size (length versions_of) versions_of n
          (λ k i j. request_lem size k id a b i (earlier k n size max_int32 i j small))
        ∙ ap ok (take_enough (n * size) versions_of fits),
    newest_first-Descends version_position (select (is_listed db ids.0 ids.1 o) db.versions) (
        keyed-IsDistinct version_position (λ r. r.tenant_id) ids.0 (is_listed db ids.0 ids.1 o)
          owned db.versions keyed),
    count-newest_first version_position q (select (is_listed db ids.0 ids.1 o) db.versions)
        ∙ count-select (is_listed db ids.0 ids.1 o) q db.versions,
    shown v,
    request_lem size p id a b first (earlier p n size max_int32 first last small),
  )
    where
      fits : length versions_of ≤ n * size
      fits = rw (length-map (joined_version libs db) rows_of, measure) enough
