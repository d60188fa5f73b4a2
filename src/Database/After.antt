-- ===== src/Database/After.antt =====
-- Rules for what a chain of operations leaves when it ends in a result.
use ani_model_service.Prelude.{◌≡◌, refl, sym, ok, err}
use mathlib.Core.Path.{subst}
use ani_model_service.Errors.{Res, Error}
use ani_model_service.Database.Exec.{Db, Exec, lift, continue, transaction, settle, ◌>>=◌}

-- Q holds of the result and of the tables after it; of an error nothing is said.
abbrev pub After : {A : Type 0} → (A → Db → Type 0) → Res A × Db → Type 0
After Q (ok a, db) = Q a db
After Q (err e, db) = Unit {0}

module _ {A B : Type 0} (R : B → Db → Type 0) where
  -- A chain whose first part ends in known tables goes on from them.
  pub bind-After :
      (P : A → Type 0) (next : A → Db) (o : Res A × Db) (k : A → Exec B)
      → After (λ a d. P a × (d ≡ next a)) o
      → ((a : A) → P a → After R (k a (next a)))
      → After R (continue o.0 k o.1)
  bind-After P next (ok a, d) k (p, e) h = subst (λ x. After R (k a x)) (sym e) (h a p)
  bind-After P next (err x, d) k q h = tt

  pub lift-After :
      (r : Res A) (k : A → Exec B) (db : Db)
      → ((a : A) → r ≡ ok a → After R (k a db))
      → After R ((lift r >>= k) db)
  lift-After (ok a) k db h = h a refl
  lift-After (err e) k db h = tt

module _ {A : Type 0} (Q : A → Db → Type 0) where
  pub settle-After : (before : Db) (o : Res A × Db) → After Q o → After Q (settle before o)
  settle-After before (ok a, d) q = q
  settle-After before (err e, d) q = tt

  pub transaction-After : (m : Exec A) (db : Db) → After Q (m db) → After Q (transaction m db)
  transaction-After m db q = settle-After db (m db) q

  pub After-ok : (o : Res A × Db) (a : A) → After Q o → o.0 ≡ ok a → Q a o.1
  After-ok (ok b, d) a q e = subst (λ x. Q x d) (cc) q
  After-ok (err x, d) a q e = absurd (cc)

-- An operation that fails inside a transaction leaves the tables alone.
pub settle_err :
    {A : Type 0} (before : Db) (o : Res A × Db) (e : Error)
    → (settle before o).0 ≡ err e
    → (settle before o).1 ≡ before
settle_err before (ok a, d) e h = absurd (cc)
settle_err before (err x, d) e h = refl
