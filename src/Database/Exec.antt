-- ===== src/Database/Exec.antt =====
-- The connection (DBTX of internal/data/postgres/db.go): an operation reads and writes the tables
-- and returns a result. A statement that fails leaves the tables alone. `clock` is what
-- clock_timestamp() returns while the operation runs. A lost connection is not modelled.
use ani_model_service.Prelude.{ℕ, String, List, ok, err, Option, none, some, ◌≡◌, refl, arith}
use ani_model_service.Errors.{Error, Res}
use ani_model_service.Database.Rows.{ModelRow, VersionRow, ArtifactRow, TaskRow, RegistrationRow}

pub record Db : Type 0 where
  pub models : List ModelRow
  pub versions : List VersionRow
  pub artifacts : List ArtifactRow
  pub tasks : List TaskRow
  pub registrations : List RegistrationRow
  pub clock : ℕ

abbrev pub Exec : Type 0 → Type 0
Exec A = Db → Res A × Db

module _ {A : Type 0} where
  abbrev pub pure : A → Exec A
  pure a db = (ok a, db)

  abbrev pub fail : Error → Exec A
  fail e db = (err e, db)

  abbrev pub lift : Res A → Exec A
  lift r db = (r, db)

  abbrev pub gets : (Db → A) → Exec A
  gets f db = (ok (f db), db)

  -- QueryRow(...).Scan: no row is pgx.ErrNoRows.
  abbrev pub row : Option A → Res A
  row none = err Error.no_rows
  row (some a) = ok a

module _ {A B : Type 0} where
  abbrev pub continue : Res A → (A → Exec B) → Exec B
  continue (ok a) f db = f a db
  continue (err e) f db = (err e, db)

  infixl 5 ◌>>=◌ ◌>>◌
  abbrev pub ◌>>=◌ : Exec A → (A → Exec B) → Exec B
  ◌>>=◌ m f db = let (r, db') = m db in continue r f db'

  abbrev pub ◌>>◌ : Exec A → Exec B → Exec B
  m >> k = m >>= λ _. k

-- `if err := ...; err != nil` on a value: the caller goes on with the result as data.
abbrev pub attempt : {A : Type 0} → Exec A → Exec (Res A)
attempt m db = let (r, db') = m db in (ok r, db')

-- What the stores call of other packages: `uuid.Parse` and `UUID.String` of
-- github.com/google/uuid, and the hex text of crypto/sha256's digest. The zero UUID is uuid.Nil.
pub record Libs : Type 0 where
  pub parse_uuid : String → Option ℕ
  pub uuid_string : ℕ → String
  pub sha256_hex : String → String

-- uuid.Parse with the error `field: ...` that the stores wrap it in.
abbrev pub parse_id : Libs → String → String → Res ℕ
parse_id libs field text = elim (libs.parse_uuid text) [
  | none ↦ err (Error.invalid_id field)
  | some u ↦ ok u
]

-- BeginTx ... Commit, with a Rollback on an error.
abbrev pub settle : {A : Type 0} → Db → Res A × Db → Res A × Db
settle before (ok a, after) = (ok a, after)
settle before (err e, after) = (err e, before)

abbrev pub transaction : {A : Type 0} → Exec A → Exec A
transaction m db = settle db (m db)

-- A value that goes on is passed to the rest.
pub lift_inv :
    {A B : Type 0} (r : Res A) (k : A → Exec B) (db d : Db) (b : B)
    → (lift r >>= k) db ≡ (ok b, d)
    → (a : A) × (r ≡ ok a) × (k a db ≡ (ok b, d))
lift_inv (ok a) k db d b h = (a, refl, h)
lift_inv (err e) k db d b h = ground arith
