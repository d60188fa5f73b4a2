-- ===== src/BundleImport/Race.antt =====
-- A bundle import that loses the race for its idempotency key
-- (internal/data/postgres/import_bundle_store.go).
use ani_model_service.Prelude.{
  ℕ, String, ◌≡◌, ◌≢◌, refl, true, false, ok, err, Option, none, some, List, [], ◌∷◌, any, arith,
  eq_iff, str_eq, Bool-cases, inl, inr,
}
use ani_model_service.Errors.{Res, Error}
use ani_model_service.Database.Table.{find}
use ani_model_service.Database.Rows.{ModelRow}
use ani_model_service.Database.Exec.{Db, Libs, parse_id}
use ani_model_service.Database.Registrations
use ani_model_service.Model
use ani_model_service.Model.{validate_bundle}
use ani_model_service.BundleImport
use ani_model_service.BundleImport.{
  BundleIds, Aggregate, look_up, judge, create_aggregate, import_bundle_tx, replay_bundle,
  replay_or, committed, imported, import_bundle, has_model_key,
}

validated_key : (b : Model.BundleImport) → validate_bundle b ≡ ok tt → b.idempotency_key ≢ ""
unfolding validate_bundle
validated_key b h e = ground (arith, h, eq_iff b.idempotency_key "")

-- What the second reading of the three rows gives the caller.
abbrev pub after_reading : Res (Option Aggregate) → Res Aggregate
after_reading (ok (some a)) = ok a
after_reading (ok none) = err Error.unique_violation
after_reading (err e) = err Error.unique_violation

module _ (ids : BundleIds) (tenant : ℕ) (print : String) (b : Model.BundleImport) where
  keyed_clashes :
      (now : ℕ) (n : ModelRow)
      → b.idempotency_key ≢ ""
      → has_model_key tenant b.idempotency_key n ≡ true
      → Registrations.model_clashes (BundleImport.bundle_model ids tenant print b now) n ≡ true
  keyed_clashes now n some_key h =
      let keyed : str_eq b.idempotency_key "" ≡ false =
        ground (arith, eq_iff b.idempotency_key "") in
      rw keyed (ground arith)

  any_clashes :
      (now : ℕ) (ms : List ModelRow) (n : ModelRow)
      → b.idempotency_key ≢ ""
      → find (has_model_key tenant b.idempotency_key) ms ≡ some n
      → any (Registrations.model_clashes (BundleImport.bundle_model ids tenant print b now)) ms
        ≡ true
  unfolding find
  any_clashes now [] n some_key h = ground arith
  any_clashes now (m ∷ ms) n some_key h =
      elim (Bool-cases (has_model_key tenant b.idempotency_key m)) [
        | inl e ↦ rw (keyed_clashes now m some_key e) refl
        | inr e ↦ let rest = any_clashes now ms n some_key (rw e at h) in rw rest (ground arith)
      ]

  -- The transaction meets the model that won in a unique index.
  tx_lost :
      (race : Db → Db) (c : Db) (n : ModelRow)
      → b.idempotency_key ≢ ""
      → judge print (look_up tenant b.idempotency_key c) ≡ ok none
      → find (has_model_key tenant b.idempotency_key) (race c).models ≡ some n
      → import_bundle_tx ids tenant print b race c ≡ (err Error.unique_violation, race c)
  unfolding import_bundle_tx create_aggregate Registrations.insert_model
  tx_lost race c n some_key absent won =
      rw (absent, any_clashes (race c).clock (race c).models n some_key won) refl

  replay_or_lem :
      (r : Res (Option Aggregate)) (d : Db)
      → replay_or ids tenant print b Error.unique_violation r d ≡ (after_reading r, d)
  replay_or_lem (ok (some a)) d = refl
  replay_or_lem (ok none) d = refl
  replay_or_lem (err e) d = refl

  imported_lost :
      (others : ℕ → Db → Db) (db : Db) (n : ModelRow)
      → let c = others 0 db in
        let d = others 2 (others 1 c) in
        b.idempotency_key ≢ ""
        → judge print (look_up tenant b.idempotency_key c) ≡ ok none
        → find (has_model_key tenant b.idempotency_key) (others 1 c).models ≡ some n
        → imported ids tenant print b others none db
          ≡ (after_reading (judge print (look_up tenant b.idempotency_key d)), d)
  unfolding replay_bundle
  imported_lost others db n some_key absent won =
      let d = others 2 (others 1 (others 0 db)) in
      rw (tx_lost (others 1) (others 0 db) n some_key absent won)
        (replay_or_lem (judge print (look_up tenant b.idempotency_key d)) d)

-- When neither the first replay nor the lookups of the transaction of a valid bundle import find a
-- row of its key, but another connection commits a model with the key before the inserts, the
-- import writes nothing of its own and returns the three rows that the second reading finds, with
-- the fingerprint of the request; if it does not find these, it returns a unique violation.
pub import_bundle_race :
    (libs : Libs) (print_of : Model.BundleImport → String) (others : ℕ → Db → Db) (ids : BundleIds)
    (b : Model.BundleImport) (tenant : ℕ) (db : Db) (n : ModelRow)
    → validate_bundle b ≡ ok tt
    → parse_id libs "tenant_id" b.tenant_id ≡ ok tenant
    → judge (print_of b) (look_up tenant b.idempotency_key db) ≡ ok none
    → judge (print_of b) (look_up tenant b.idempotency_key (others 0 db)) ≡ ok none
    → find (has_model_key tenant b.idempotency_key) (others 1 (others 0 db)).models ≡ some n
    → let d = others 2 (others 1 (others 0 db)) in
      import_bundle libs print_of others ids b db
      ≡ (after_reading (judge (print_of b) (look_up tenant b.idempotency_key d)), d)
unfolding import_bundle replay_bundle
import_bundle_race libs print_of others ids b tenant db n v p first snapshot won =
    rw (v, p, first)
      (imported_lost ids tenant (print_of b) b others db n (validated_key b v) snapshot won)
