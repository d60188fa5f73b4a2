-- ===== src/Pagination.antt =====
-- The page parameters of list requests: resolvePage of internal/service/pagination.go, and the
-- int32 conversion of its offset in ListModels of internal/data/postgres/model_store.go.
pub mod Bounds
use ani_model_service.Prelude.{
  ℕ, ◌-◌, ◌*◌, ◌/◌, ◌^◌, ◌%◌, String, Bool, true, false, ◌||◌, ok, err, ltb, if◌then◌else◌, ℤ, pos,
  negsuc, Option, none, some,
}
use ani_model_service.Errors.{Res, Error}

-- model.ListOptions: the fields that a page sets.
pub record Page : Type 0 where
  pub limit : ℕ
  pub offset : ℕ

abbrev pub max_int32 : ℕ
max_int32 = 2 ^ 31 - 1

abbrev pub value_or : ℤ → Option ℤ → ℤ
value_or default none = default
value_or default (some n) = n

abbrev pub invalid_argument : Error
invalid_argument = Error.message "INVALID_ARGUMENT"

-- The checks on 1 <= p and 1 <= size.
unfoldable pub page_of : ℕ → ℕ → Res Page
page_of p size =
    if ltb p 1 || (ltb size 1 || ltb 100 size)
    then err invalid_argument
    else if ltb (max_int32 / size) (p - 1)
    then err invalid_argument
    else ok (record { limit = size; offset = (p - 1) * size })

-- p < 1 || size < 1 holds of a negative number.
abbrev pub page_of_int : ℤ → ℤ → Res Page
page_of_int (pos p) (pos size) = page_of p size
page_of_int (negsuc p) size = err invalid_argument
page_of_int (pos p) (negsuc size) = err invalid_argument

unfoldable pub resolve_page : Option ℤ → Option ℤ → Res Page
resolve_page page size = page_of_int (value_or (pos 1) page) (value_or (pos 20) size)

-- int32(options.Offset), on a number below 2 ^ 63
abbrev pub to_int32 : ℕ → ℤ
to_int32 n =
    if ltb (n % 2 ^ 32) (2 ^ 31) then pos (n % 2 ^ 32) else negsuc (2 ^ 32 - 1 - n % 2 ^ 32)
