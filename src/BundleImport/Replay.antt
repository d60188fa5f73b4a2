-- ===== src/BundleImport/Replay.antt =====
-- A repeated bundle import (internal/data/postgres/import_bundle_store.go).
use mathlib.Core.Path.{subst}
use ani_model_service.Prelude.{
  ℕ, String, ◌≡◌, refl, sym, ap, ◌∙◌, Bool, true, false, ◌&&◌, not, ok, err, Option, none, some,
  ◌∷◌, any, arith, eq_iff, Bool-cases, inl, inr,
}
use ani_model_service.Errors.{Res, Error}
use ani_model_service.Database.Table.{find}
use ani_model_service.Database.Rows.{ModelRow, VersionRow, TaskRow}
use ani_model_service.Database.Exec.{Db, Exec, pure, lift, ◌>>=◌, Libs, parse_id}
use ani_model_service.Database.After.{After, bind-After, lift-After, settle-After, After-ok}
use ani_model_service.Database.Due
use ani_model_service.Database.Tasks
use ani_model_service.Database.Registrations
use ani_model_service.Model
use ani_model_service.Model.{validate_bundle}
use ani_model_service.BundleImport
use ani_model_service.BundleImport.{
  BundleIds, Aggregate, Found, look_up, judge, judge_rows, replayed, same_prints, create_aggregate,
  found_or_created, import_bundle_tx, replay_bundle, replay_or, committed, imported, import_bundle,
}
use ani_model_service.TrainedArtifactStore.Publishing.{insert_version-After}
use ani_model_service.TrainedArtifactStore.Committing.{insert_model-After, with_models}

-- The three rows of the key, with the fingerprint of the request.
abbrev pub IsRecorded : ℕ → String → String → Aggregate → Db → Type 0
IsRecorded tenant key print a db = judge print (look_up tenant key db) ≡ ok (some a)

judged :
    (print : String) (m : ModelRow) (v : VersionRow) (t : TaskRow)
    → same_prints print (m, v, t) ≡ true
    → replayed print (m, v, t) ≡ ok (some (m, v, t))
judged print m v t h = rw h refl

module _ (ids : BundleIds) (tenant : ℕ) (print : String) (b : Model.BundleImport) where
  -- The tables after the three inserts.
  abbrev with_aggregate : Db → Db
  with_aggregate db = record db {
    models = BundleImport.bundle_model ids tenant print b db.clock ∷ db.models;
    versions = BundleImport.bundle_version ids tenant print b db.clock ∷ db.versions;
    tasks = BundleImport.bundle_task ids tenant print b db.clock ∷ db.tasks;
  }

  create_aggregate-IsRecorded :
      (db : Db)
      → IsRecorded tenant b.idempotency_key print
          (
            BundleImport.bundle_model ids tenant print b db.clock,
            BundleImport.bundle_version ids tenant print b db.clock,
            BundleImport.bundle_task ids tenant print b db.clock,
          )
          (with_aggregate db)
  unfolding look_up find
  create_aggregate-IsRecorded db =
      ground (arith, eq_iff b.idempotency_key b.idempotency_key, eq_iff print print)

  insert_task-After :
      (r : TaskRow) (db : Db)
      → After (λ t d. (t ≡ r) × (d ≡ record db { tasks = r ∷ db.tasks })) (Due.insert_task r db)
  unfolding Due.insert_task
  insert_task-After r db = elim (Bool-cases (Due.is_task_type r.task_type)) [
    | inr e ↦ rw e tt
    | inl e ↦ elim (Bool-cases (any (Due.clashes r) db.tasks)) [
      | inl c ↦ rw (e, c) tt
      | inr c ↦ elim (Bool-cases (dangles r db)) [
        | inl f ↦ rw (e, c, f) tt
        | inr f ↦ rw (e, c, f) (refl, refl)
      ]
    ]
  ]
    where
      dangles : TaskRow → Db → Bool
      dangles r db = not (
          Due.refers (λ m. Tasks.has_model r.tenant_id m db) r.model_id
          && Due.refers (λ v. Tasks.has_version r.tenant_id v db) r.model_version_id)

  abbrev Outcome : Aggregate → Db → Type 0
  Outcome a d = IsRecorded tenant b.idempotency_key print a d

  create-After : (db : Db) → After Outcome (create_aggregate ids tenant print b db)
  unfolding create_aggregate
  create-After db =
      bind-After Outcome (λ u. Unit {0}) (λ u. with_models (m ∷ db.models) db)
        (Registrations.insert_model m db) _ (insert_model-After m db)
        λ u x.
          bind-After Outcome (λ u. any (Registrations.version_clashes v) db.versions ≡ false)
            (λ u. record (with_models (m ∷ db.models) db) { versions = v ∷ db.versions })
            (Registrations.insert_version v (with_models (m ∷ db.models) db)) _
            (insert_version-After v (with_models (m ∷ db.models) db))
            λ u y.
              bind-After Outcome (λ s. s ≡ t) (λ s. with_aggregate db)
                (Due.insert_task t
                  (record (with_models (m ∷ db.models) db) { versions = v ∷ db.versions }))
                (λ s. pure (m, v, s))
                (insert_task-After t
                  (record (with_models (m ∷ db.models) db) { versions = v ∷ db.versions }))
                λ s e.
                  subst (λ s. Outcome (m, v, s) (with_aggregate db)) (sym e)
                    (create_aggregate-IsRecorded db)
    where
      m : ModelRow
      m = BundleImport.bundle_model ids tenant print b db.clock

      v : VersionRow
      v = BundleImport.bundle_version ids tenant print b db.clock

      t : TaskRow
      t = BundleImport.bundle_task ids tenant print b db.clock

  tx-After :
      (race : Db → Db) (db : Db) → After Outcome (import_bundle_tx ids tenant print b race db)
  unfolding import_bundle_tx
  tx-After race db =
      lift-After Outcome (judge print (look_up tenant b.idempotency_key db))
        (found_or_created ids tenant print b race) db λ r e. chosen r e
    where
      chosen :
          (r : Option Aggregate)
          → judge print (look_up tenant b.idempotency_key db) ≡ ok r
          → After Outcome (found_or_created ids tenant print b race r db)
      chosen (some a) e = e
      chosen none e =
          settle-After Outcome (race db) (create_aggregate ids tenant print b (race db))
            (create-After (race db))

  reread :
      (r : Res (Option Aggregate)) (db : Db)
      → judge print (look_up tenant b.idempotency_key db) ≡ r
      → After Outcome (replay_or ids tenant print b Error.unique_violation r db)
  reread (ok (some a)) db e = e
  reread (ok none) db e = tt
  reread (err x) db e = tt

  committed-After :
      (late : Db → Db) (o : Res Aggregate × Db)
      → After Outcome o
      → After Outcome (committed ids tenant print b late o.0 o.1)
  unfolding replay_bundle
  committed-After late (ok a, d) h = h
  committed-After late (err Error.unique_violation, d) h =
      reread (judge print (look_up tenant b.idempotency_key (late d))) (late d) refl
  committed-After late (err _, d) h = tt

  imported-After :
      (others : ℕ → Db → Db) (r : Option Aggregate) (db : Db)
      → judge print (look_up tenant b.idempotency_key db) ≡ ok r
      → After Outcome (imported ids tenant print b others r db)
  imported-After others (some a) db e = e
  imported-After others none db e =
      committed-After (others 2) (import_bundle_tx ids tenant print b (others 1) (others 0 db))
        (tx-After (others 1) (others 0 db))

module _ (libs : Libs) (print_of : Model.BundleImport → String) (b : Model.BundleImport) where
  abbrev pub chain : (ℕ → Db → Db) → BundleIds → Res (Unit {0}) → Res ℕ → Exec Aggregate
  chain others ids x y = lift x >>= λ u. lift y >>= λ tenant.
      replay_bundle ids tenant (print_of b) b >>= λ r. imported ids tenant (print_of b) b others r

  -- A result of the import stands for three rows of the tables.
  chain_ok :
      (others : ℕ → Db → Db) (ids : BundleIds) (x : Res (Unit {0})) (y : Res ℕ) (db : Db)
      (a : Aggregate)
      → (chain others ids x y db).0 ≡ ok a
      → (tenant : ℕ) × (x ≡ ok tt)
        × (y ≡ ok tenant)
        × IsRecorded tenant b.idempotency_key (print_of b) a (chain others ids x y db).1
  unfolding replay_bundle
  chain_ok others ids (err e) y db a h = absurd (cc)
  chain_ok others ids (ok tt) (err e) db a h = absurd (cc)
  chain_ok others ids (ok tt) (ok tenant) db a h =
      (tenant, refl, refl, After-ok Outcome' (chain others ids (ok tt) (ok tenant) db) a whole h)
    where
      Outcome' : Aggregate → Db → Type 0
      Outcome' a d = IsRecorded tenant b.idempotency_key (print_of b) a d

      whole : After Outcome' (chain others ids (ok tt) (ok tenant) db)
      whole =
          lift-After Outcome' (judge (print_of b) (look_up tenant b.idempotency_key db))
            (λ r. imported ids tenant (print_of b) b others r) db
            λ r e. imported-After ids tenant (print_of b) b others r db e

  chain_again :
      (others : ℕ → Db → Db) (ids : BundleIds) (tenant : ℕ) (d : Db) (a : Aggregate)
      → IsRecorded tenant b.idempotency_key (print_of b) a d
      → chain others ids (ok tt) (ok tenant) d ≡ (ok a, d)
  unfolding replay_bundle
  chain_again others ids tenant d a h =
      ap (λ r. (lift r >>= λ r. imported ids tenant (print_of b) b others r) d) h

  -- After a bundle import that returned a model, a version and a task, whatever other connections
  -- committed after its first replay, between the lookups and the inserts of its transaction, and
  -- before it read the rows again, the same request sent again returns the same three rows and
  -- writes nothing.
  pub import_bundle-import_bundle :
      (others later : ℕ → Db → Db) (ids ids' : BundleIds) (db : Db) (a : Aggregate)
      → (import_bundle libs print_of others ids b db).0 ≡ ok a
      → let d = (import_bundle libs print_of others ids b db).1 in
        import_bundle libs print_of later ids' b d ≡ (ok a, d)
  unfolding import_bundle
  import_bundle-import_bundle others later ids ids' db a h =
      let x = validate_bundle b in
      let y = parse_id libs "tenant_id" b.tenant_id in
      let (tenant, e, f, recorded) = chain_ok others ids x y db a h in
      let d = (chain others ids x y db).1 in
      ap (λ w. chain later ids' w y d) e
      ∙ (ap (λ w. chain later ids' (ok tt) w d) f ∙ chain_again later ids' tenant d a recorded)
