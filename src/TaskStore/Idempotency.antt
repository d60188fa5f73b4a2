-- ===== src/TaskStore/Idempotency.antt =====
-- Create of work_store.go under its idempotency key.
use mathlib.Core.Path.{subst}
use ani_model_service.Prelude.{
  ℕ, String, ◌≡◌, refl, sym, ap, ◌∙◌, some, none, Option, ok, err, arith, false, inl, inr, eq_iff,
  str_eq, ◌∷◌, ◌⊎◌, ◌≢◌,
}
use ani_model_service.Errors.{Res, Error}
use ani_model_service.Database.Table.{find}
use ani_model_service.Database.Rows.{TaskRow}
use ani_model_service.Database.Exec.{Db, Exec, Libs, lift, row, ◌>>=◌}
use ani_model_service.Database.Tasks
use ani_model_service.Database.Due
use ani_model_service.Work.{Task}
use ani_model_service.TaskStore
use ani_model_service.TaskStore.Invariant.{has_key}

lift_inv :
    {A B : Type 0} (m : Res A) (k : A → Exec B) (db d : Db) (b : B)
    → (lift m >>= k) db ≡ (ok b, d)
    → (a : A) × (m ≡ ok a) × (k a db ≡ (ok b, d))
lift_inv (ok a) k db d b h = (a, refl, h)
lift_inv (err e) k db d b h = ground arith

row_inv : {A : Type 0} (o : Option A) (a : A) → row o ≡ ok a → o ≡ some a
row_inv none a h = ground arith
row_inv (some b) a h = cc

-- The row of the request's key, with the request's fingerprint.
abbrev pub Recorded : Libs → Task → ℕ → Db → TaskRow → Type 0
Recorded libs t tenant db r =
    (find (has_key tenant t.idempotency_key) db.tasks ≡ some r)
    × (r.request_fingerprint ≡ TaskStore.fingerprint libs t)

module _ (libs : Libs) (t : Task) (tenant id : ℕ) (model version : Option ℕ) where
  insert_recorded :
      (db d : Db) (r : TaskRow) (row : TaskRow)
      → Due.insert_task row db ≡ (ok r, d)
      → (d.tasks ≡ row ∷ db.tasks) × (r ≡ row)
  unfolding Due.insert_task
  insert_recorded db d r row h = (ground arith, ground arith)

  inserted-Recorded :
      (made : Res TaskRow) (db d : Db) (u : Task)
      → TaskStore.inserted libs t tenant (TaskStore.fingerprint libs t) made db ≡ (ok u, d)
      → ((r : TaskRow) × (made ≡ ok r) × (d ≡ db)) ⊎ ((r : TaskRow) × Recorded libs t tenant d r)
  unfolding Tasks.get_import_task_by_idempotency
  inserted-Recorded (ok r) db d u h = inl (r, refl, ground arith)
  inserted-Recorded (err Error.unique_violation) db d u h =
      inr (again (find (has_key tenant t.idempotency_key) db.tasks) refl h)
    where
      again :
          (o : Option TaskRow)
          → find (has_key tenant t.idempotency_key) db.tasks ≡ o
          → (lift
              (TaskStore.replay_or libs Error.unique_violation
                (TaskStore.fingerprint libs t)
                (row o))
              db)
            ≡ (ok u, d)
          → (r : TaskRow) × Recorded libs t tenant d r
      again none e k = ground arith
      again (some r) e k = (
        r,
        (ground arith, ground (arith, eq_iff r.request_fingerprint (TaskStore.fingerprint libs t))),
      )
  inserted-Recorded (err _) db d u h = ground arith

  -- The row that is inserted for the request.
  abbrev fresh : Db → TaskRow
  fresh now =
      Due.new_task now.clock tenant id model (TaskStore.nullif_nil libs version) t.task_type
        t.source t.repo_id t.revision t.idempotency_key (TaskStore.fingerprint libs t)

  fresh-Recorded :
      (db d : Db) (r : TaskRow)
      → Due.insert_task (fresh db) db ≡ (ok r, d)
      → Recorded libs t tenant d r
  unfolding find
  fresh-Recorded db d r h =
      let (ts, e) = insert_recorded db d r (fresh db) h in
      (
        subst (λ xs. find (has_key tenant t.idempotency_key) xs ≡ some r) (sym ts)
            (rw e (ground (arith, eq_iff t.idempotency_key t.idempotency_key))),
        rw e refl,
      )

  looked_up-Recorded :
      (between : Db → Db) (existing : Res TaskRow) (db d : Db) (u : Task)
      → Tasks.get_import_task_by_idempotency tenant t.idempotency_key db ≡ (existing, db)
      → TaskStore.looked_up libs between t tenant id model version
          (TaskStore.fingerprint libs t)
          existing
          db
        ≡ (ok u, d)
      → (r : TaskRow) × Recorded libs t tenant d r
  unfolding Tasks.get_import_task_by_idempotency
  looked_up-Recorded between (ok r) db d u g h =
      let found : find (has_key tenant t.idempotency_key) db.tasks ≡ some r =
        row_inv (find (has_key tenant t.idempotency_key) db.tasks) r (ap (λ p. p.0) g) in
      let same : d ≡ db = ground arith in
      (
        r,
        (
          ap (λ (x : Db). find (has_key tenant t.idempotency_key) x.tasks) same ∙ found,
          ground (arith, eq_iff r.request_fingerprint (TaskStore.fingerprint libs t)),
        ),
      )
  looked_up-Recorded between (err Error.no_rows) db d u g h =
      elim (inserted-Recorded made.0 made.1 d u h) [
        | inr found ↦ found
        | inl (r, e, k) ↦ (r, fresh-Recorded (between db) d r (λ i. (e i, sym k i)))
      ]
    where
      made : Res TaskRow × Db
      made = Due.insert_task (fresh (between db)) (between db)
  looked_up-Recorded between (err _) db d u g h = ground arith

  -- A request whose row is recorded is answered from it, and writes nothing.
  replayed :
      (between : Db → Db) (db : Db) (r : TaskRow)
      → str_eq (TaskStore.fingerprint libs t) "" ≡ false
      → Recorded libs t tenant db r
      → TaskStore.looked_up libs between t tenant id model version
          (TaskStore.fingerprint libs t)
          (row (find (has_key tenant t.idempotency_key) db.tasks))
          db
        ≡ (ok (TaskStore.task_of_row libs r), db)
  replayed between db r some_print h =
      rw (h.0, h.1)
        (ground (arith, eq_iff (TaskStore.fingerprint libs t) (TaskStore.fingerprint libs t)))

  create_replayed :
      (between : Db → Db) (db : Db) (r : TaskRow)
      → TaskStore.parse_ids libs t.tenant_id t.id ≡ ok (tenant, id)
      → TaskStore.optional_id libs "model_id" t.model_id ≡ ok model
      → TaskStore.optional_id libs "version_id" t.version_id ≡ ok version
      → str_eq (TaskStore.fingerprint libs t) "" ≡ false
      → Recorded libs t tenant db r
      → TaskStore.create libs between t db ≡ (ok (TaskStore.task_of_row libs r), db)
  unfolding TaskStore.create Tasks.get_import_task_by_idempotency
  create_replayed between db r p q n some_print h =
      rw (p, q, n) (replayed between db r some_print h)

-- A request that Create has answered once, whatever other connections commit between its lookup
-- and its insert, is recorded under its key; sent again, it returns the recorded task and writes
-- nothing, if the digest is never the empty text.
pub create-create :
    (libs : Libs) (t u : Task) (between later : Db → Db) (db d : Db)
    → ((text : String) → str_eq (libs.sha256_hex text) "" ≡ false)
    → TaskStore.create libs between t db ≡ (ok u, d)
    → (tenant : ℕ) × (r : TaskRow) × Recorded libs t tenant d r
      × (TaskStore.create libs later t d ≡ (ok (TaskStore.task_of_row libs r), d))
unfolding TaskStore.create Tasks.get_import_task_by_idempotency TaskStore.fingerprint
create-create libs t u between later db d hex h =
    let (ids, p, h₁) = lift_inv (TaskStore.parse_ids libs t.tenant_id t.id) _ db d u h in
    let (m, q, h₂) = lift_inv (TaskStore.optional_id libs "model_id" t.model_id) _ db d u h₁ in
    let (v, n, h₃) = lift_inv (TaskStore.optional_id libs "version_id" t.version_id) _ db d u h₂ in
    let (r, recorded) =
      looked_up-Recorded libs t ids.0 ids.1 m v between
        (row (find (has_key ids.0 t.idempotency_key) db.tasks)) db d u refl h₃ in
    (ids.0, r, recorded, create_replayed libs t ids.0 ids.1 m v later d r p q n (hex _) recorded)

-- A key that is recorded with another fingerprint, or with none, is refused as a conflict, and
-- nothing is written.
create_conflict :
    (libs : Libs) (t : Task) (between : Db → Db) (db : Db) (tenant id : ℕ)
    (model version : Option ℕ) (r : TaskRow)
    → TaskStore.parse_ids libs t.tenant_id t.id ≡ ok (tenant, id)
    → TaskStore.optional_id libs "model_id" t.model_id ≡ ok model
    → TaskStore.optional_id libs "version_id" t.version_id ≡ ok version
    → find (has_key tenant t.idempotency_key) db.tasks ≡ some r
    → r.request_fingerprint ≢ TaskStore.fingerprint libs t
    → TaskStore.create libs between t db ≡ (err Error.unique_violation, db)
unfolding TaskStore.create Tasks.get_import_task_by_idempotency
create_conflict libs t between db tenant id model version r p q n f differs =
    rw (p, q, n, f) (ground (arith, eq_iff r.request_fingerprint (TaskStore.fingerprint libs t)))
