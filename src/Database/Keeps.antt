-- ===== src/Database/Keeps.antt =====
-- Rules for what a chain of operations keeps, whether it ends in a result or in an error.
use ani_model_service.Prelude.{ok, err}
use ani_model_service.Errors.{Res}
use ani_model_service.Database.Exec.{Db, Exec, lift, continue, transaction, settle, ◌>>=◌}

module _ {A B : Type 0} (P : Db → Type 0) where
  -- A chain that starts with a value stops at an error, or goes on from the same tables.
  pub lift_cases :
      (m : Res A) (k : A → Exec B) (db : Db)
      → P db
      → ((a : A) → P (k a db).1)
      → P ((lift m >>= k) db).1
  lift_cases (ok a) k db h hk = hk a
  lift_cases (err e) k db h hk = h

  continue_keeps :
      (r : Res A) (k : A → Exec B) (db : Db)
      → P db
      → ((a : A) (d : Db) → P d → P (k a d).1)
      → P (continue r k db).1
  continue_keeps (ok a) k db h hk = hk a db h
  continue_keeps (err e) k db h hk = h

  pub bind_keeps :
      (m : Exec A) (k : A → Exec B) (db : Db)
      → P (m db).1
      → ((a : A) (d : Db) → P d → P (k a d).1)
      → P ((m >>= k) db).1
  bind_keeps m k db h hk = continue_keeps (m db).0 k (m db).1 h hk

module _ {A : Type 0} (P : Db → Type 0) (before : Db) (h : P before) where
  settle_keeps : (r : Res A) (after : Db) → P after → P (settle before (r, after)).1
  settle_keeps (ok a) after k = k
  settle_keeps (err e) after k = h

  -- A transaction ends in the tables that it commits, or in those before it.
  pub transaction_keeps : (m : Exec A) → P (m before).1 → P (transaction m before).1
  transaction_keeps m k = settle_keeps (m before).0 (m before).1 k
