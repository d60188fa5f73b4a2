-- ===== src/BundleImport/Atomic.antt =====
-- A bundle import that fails (internal/data/postgres/import_bundle_store.go).
use ani_model_service.Prelude.{
  ℕ, String, ◌≡◌, refl, ap, ◌∙◌, ◌⊎◌, ok, err, Option, none, some, inl, inr,
}
use ani_model_service.Errors.{Res, Error}
use ani_model_service.Database.Exec.{Db, lift, ◌>>=◌, Libs, parse_id}
use ani_model_service.Database.After.{settle_err}
use ani_model_service.Model
use ani_model_service.Model.{validate_bundle}
use ani_model_service.BundleImport.{
  BundleIds, Aggregate, look_up, judge, create_aggregate, found_or_created, import_bundle_tx,
  replay_bundle, replay_or, committed, imported, import_bundle,
}

-- The tables at one of the moments of the import.
abbrev pub IsCommitted : (ℕ → Db → Db) → Db → Db → Type 0
IsCommitted others db d =
    (d ≡ db)
    ⊎ (d ≡ others 0 db)
    ⊎ (d ≡ others 1 (others 0 db))
    ⊎ (d ≡ others 2 (others 0 db))
    ⊎ (d ≡ others 2 (others 1 (others 0 db)))

module _ (ids : BundleIds) (tenant : ℕ) (print : String) (b : Model.BundleImport) where
  replay_or-state :
      (r : Res (Option Aggregate)) (d : Db)
      → (replay_or ids tenant print b Error.unique_violation r d).1 ≡ d
  replay_or-state (ok (some a)) d = refl
  replay_or-state (ok none) d = refl
  replay_or-state (err e) d = refl

  tx_err :
      (race : Db → Db) (db : Db) (e : Error)
      → (import_bundle_tx ids tenant print b race db).0 ≡ err e
      → ((import_bundle_tx ids tenant print b race db).1 ≡ db)
        ⊎ ((import_bundle_tx ids tenant print b race db).1 ≡ race db)
  unfolding import_bundle_tx
  tx_err race db e h = go (judge print (look_up tenant b.idempotency_key db)) h
    where
      go :
          (r : Res (Option Aggregate))
          → ((lift r >>= found_or_created ids tenant print b race) db).0 ≡ err e
          → (((lift r >>= found_or_created ids tenant print b race) db).1 ≡ db)
            ⊎ (((lift r >>= found_or_created ids tenant print b race) db).1 ≡ race db)
      go (err x) k = inl refl
      go (ok (some a)) k = absurd (cc)
      go (ok none) k =
          inr (settle_err (race db) (create_aggregate ids tenant print b (race db)) e k)

  committed_err :
      (late : Db → Db) (o : Res Aggregate × Db) (e : Error)
      → (committed ids tenant print b late o.0 o.1).0 ≡ err e
      → (x : Error) × (o.0 ≡ err x)
        × (((committed ids tenant print b late o.0 o.1).1 ≡ o.1)
            ⊎ ((committed ids tenant print b late o.0 o.1).1 ≡ late o.1))
  unfolding replay_bundle
  committed_err late (ok a, d) e h = absurd (cc)
  committed_err late (err Error.unique_violation, d) e h = (
    Error.unique_violation,
    refl,
    inr (replay_or-state (judge print (look_up tenant b.idempotency_key (late d))) (late d)),
  )
  committed_err late (err x, d) e h = (x, refl, inl refl)

  moments :
      (others : ℕ → Db → Db) (db c d : Db)
      → ((c ≡ others 0 db) ⊎ (c ≡ others 1 (others 0 db)))
      → ((d ≡ c) ⊎ (d ≡ others 2 c))
      → IsCommitted others db d
  moments others db c d (inl e) (inl f) = inr (inl (f ∙ e))
  moments others db c d (inr e) (inl f) = inr (inr (inl (f ∙ e)))
  moments others db c d (inl e) (inr f) = inr (inr (inr (inl (f ∙ ap (others 2) e))))
  moments others db c d (inr e) (inr f) = inr (inr (inr (inr (f ∙ ap (others 2) e))))

  imported_err :
      (others : ℕ → Db → Db) (r : Res (Option Aggregate)) (db : Db) (e : Error)
      → ((lift r >>= imported ids tenant print b others) db).0 ≡ err e
      → IsCommitted others db ((lift r >>= imported ids tenant print b others) db).1
  imported_err others (err x) db e h = inl refl
  imported_err others (ok (some a)) db e h = inl refl
  imported_err others (ok none) db e h =
      let o = import_bundle_tx ids tenant print b (others 1) (others 0 db) in
      let (x, failed, kept) = committed_err (others 2) o e h in
      moments others db o.1 (committed ids tenant print b (others 2) o.0 o.1).1
        (tx_err (others 1) (others 0 db) x failed) kept

-- A bundle import that returns an error has written nothing: the tables are those before it with
-- what other connections had committed after its first replay, between the lookups and the inserts
-- of its transaction, or before it read the rows again.
pub import_bundle_err :
    (libs : Libs) (print_of : Model.BundleImport → String) (others : ℕ → Db → Db) (ids : BundleIds)
    (b : Model.BundleImport) (db : Db) (e : Error)
    → (import_bundle libs print_of others ids b db).0 ≡ err e
    → IsCommitted others db (import_bundle libs print_of others ids b db).1
unfolding import_bundle replay_bundle
import_bundle_err libs print_of others ids b db e h =
    go (validate_bundle b) (parse_id libs "tenant_id" b.tenant_id) h
  where
    go :
        (x : Res (Unit {0})) (y : Res ℕ)
        → ((lift x >>= λ u. lift y >>= λ tenant. replay_bundle ids tenant (print_of b) b >>= λ r.
              imported ids tenant (print_of b) b others r)
            db).0
          ≡ err e
        → IsCommitted others db
            ((lift x >>= λ u. lift y >>= λ tenant. replay_bundle ids tenant (print_of b) b >>= λ r.
                imported ids tenant (print_of b) b others r)
              db).1
    go (err x) y h = inl refl
    go (ok tt) (err x) h = inl refl
    go (ok tt) (ok tenant) h =
        imported_err ids tenant (print_of b) b others
          (judge (print_of b) (look_up tenant b.idempotency_key db)) db e h
