-- ===== src/Listing.antt =====
-- The lists of internal/data/postgres: listBoundary of model_store.go, and the order, the boundary
-- and the page that ListModels and ListModelVersions of model.sql.go have in common.
pub mod Models
pub mod Versions
pub mod Order
pub mod Keyset
pub mod Pages
pub mod VersionPages
use ani_model_service.Prelude.{
  ℕ, ◌-◌, ◌%◌, ◌^◌, String, Bool, true, false, ◌&&◌, ◌||◌, not, ok, err, ltb, leb, ◌==◌, str_eq,
  if◌then◌else◌, ℤ, pos, negsuc, Option, none, some, List, [], ◌∷◌, take, drop,
}
use ani_model_service.Errors.{Res, Error}
use ani_model_service.Database.Table.{select}
use ani_model_service.Database.Exec.{Libs}
use ani_model_service.Pagination.{to_int32}

-- model.ListOptions of internal/biz/model/ports.go
pub record ListOptions : Type 0 where
  pub status : String
  pub keyword : String
  pub source : String
  pub capability : String
  pub limit : ℤ
  pub offset : ℤ
  pub before_created_at : ℕ
  pub before_id : String

-- (created_at, id) of a row
abbrev pub Position : Type 0
Position = ℕ × ℕ

-- (created_at, id) < (created_at, id)
abbrev pub precedes : Position → Position → Bool
precedes a b = ltb a.0 b.0 || (a.0 == b.0 && ltb a.1 b.1)

abbrev pub is_limit : ℤ → Bool
is_limit (pos n) = leb 1 n && leb n 1001
is_limit (negsuc n) = false

abbrev pub boundary_of : ℕ → Option ℕ → Res (Option Position)
boundary_of time none = err (Error.message "invalid list boundary")
boundary_of time (some id) =
    if id == 0 || time == 0
    then err (Error.message "invalid list boundary")
    else ok (some (time, id))

-- listBoundary
unfoldable pub list_boundary : Libs → ListOptions → Res (Option Position)
list_boundary libs o =
    if not (is_limit o.limit)
    then err (Error.message "invalid list limit")
    else if str_eq o.before_id "" && o.before_created_at == 0
    then ok none
    else boundary_of o.before_created_at (libs.parse_uuid o.before_id)

-- int32(n) of an int64
abbrev pub int32_of : ℤ → ℤ
int32_of (pos n) = to_int32 n
int32_of (negsuc n) = to_int32 (2 ^ 32 - 1 - n % 2 ^ 32)

-- OFFSET and LIMIT; PostgreSQL refuses negative ones.
abbrev pub window : {A : Type 0} → ℤ → ℤ → List A → Res (List A)
window (pos offset) (pos limit) rows = ok (take limit (drop offset rows))
window (negsuc offset) limit rows = err (Error.message "OFFSET must not be negative")
window (pos offset) (negsuc limit) rows = err (Error.message "LIMIT must not be negative")

module _ {A : Type 0} (at : A → Position) where
  -- ORDER BY created_at DESC, id DESC
  unfoldable pub place : A → List A → List A
  place x [] = x ∷ []
  place x (y ∷ ys) =
      let rest = place x ys in if precedes (at x) (at y) then y ∷ rest else x ∷ y ∷ ys

  unfoldable pub newest_first : List A → List A
  newest_first [] = []
  newest_first (x ∷ xs) = place x (newest_first xs)

  -- $t IS NULL OR (created_at, id) < ($t, $i)
  abbrev pub is_beyond : Option Position → A → Bool
  is_beyond none x = true
  is_beyond (some p) x = precedes (at x) p

  -- SELECT ... WHERE matches AND the boundary ORDER BY ... LIMIT ... OFFSET ...
  unfoldable pub query : (A → Bool) → Option Position → ℤ → ℤ → List A → Res (List A)
  query matches before offset limit rows =
      window offset limit (newest_first (select (λ x. matches x && is_beyond before x) rows))
