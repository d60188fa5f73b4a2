-- ===== src/TaskStore/Invariant.antt =====
-- What holds of every row of model_import_tasks between two calls of WorkStore.
use mathlib.Core.Path.{subst}
use ani_model_service.Prelude.{
  ℕ, ◌≤◌, ◌<◌, String, ◌≡◌, none, List, [], ◌∷◌, arith, All, Bool, true, ◌&&◌, ◌==◌, str_eq, sym,
  ◌≢◌, eq_iff,
}
use ani_model_service.Database.Table.{count, All-update, count-update, count_of_any, any_weaken}
use ani_model_service.Database.Rows.{TaskRow, pending, importing, completed, failed}
use ani_model_service.Database.Exec.{Db, Libs}
use ani_model_service.Database.Tasks.{is_task}
use ani_model_service.Database.Due
use ani_model_service.TaskStore.Moves.{
  Move, claims, renews, binds, completes, retries, fails, resets, Change, keep, write, add,
}
use ani_model_service.TaskStore.Calls.{Call, step, run, wait, step-Change}

-- The lease columns agree with the status: only an importing task has a lease, and it has had a
-- claim; only a completed task has a completion time, and its progress is 100.
pub record IsSound (r : TaskRow) : Type 0 where
  pub pending_free : r.status ≡ pending → (r.lease_until ≡ none) × (r.lease_owner ≡ "")
  pub completed_free : r.status ≡ completed → (r.lease_until ≡ none) × (r.lease_owner ≡ "")
  pub failed_free : r.status ≡ failed → (r.lease_until ≡ none) × (r.lease_owner ≡ "")
  pub importing_leased : r.status ≡ importing → (r.lease_until ≢ none) × (0 < r.lease_epoch)
  pub completed_full : r.status ≡ completed → r.progress_pct ≡ 100
  pub completed_timed : r.completed_at ≢ none → r.status ≡ completed

pub Move-IsSound : (now : ℕ) (r s : TaskRow) → Move now r s → IsSound r → IsSound s
Move-IsSound now r s (claims owner micros h e) v = ground arith
Move-IsSound now r s (renews owner epoch micros h e) v = ground arith
Move-IsSound now r s (binds owner epoch model version h n e) v = ground arith
Move-IsSound now r s (completes owner epoch h e) v = ground arith
Move-IsSound now r s (retries owner epoch micros message h e) v = ground arith
Move-IsSound now r s (fails owner epoch message h e) v = ground arith
Move-IsSound now r s (resets h e) v = ground arith

-- No move changes a key column.
pub record SameKeys (r s : TaskRow) : Type 0 where
  pub tenant : s.tenant_id ≡ r.tenant_id
  pub id : s.id ≡ r.id
  pub key : s.idempotency_key ≡ r.idempotency_key
  pub print : s.request_fingerprint ≡ r.request_fingerprint

pub Move-SameKeys : (now : ℕ) (r s : TaskRow) → Move now r s → SameKeys r s
Move-SameKeys now r s (claims owner micros h e) = ground arith
Move-SameKeys now r s (renews owner epoch micros h e) = ground arith
Move-SameKeys now r s (binds owner epoch model version h n e) = ground arith
Move-SameKeys now r s (completes owner epoch h e) = ground arith
Move-SameKeys now r s (retries owner epoch micros message h e) = ground arith
Move-SameKeys now r s (fails owner epoch message h e) = ground arith
Move-SameKeys now r s (resets h e) = ground arith

-- UNIQUE (tenant_id, idempotency_key)
abbrev pub has_key : ℕ → String → TaskRow → Bool
has_key tenant key r = r.tenant_id == tenant && str_eq r.idempotency_key key

abbrev pub IsKeyed : List TaskRow → Type 0
IsKeyed ts = (tenant id : ℕ) → count (is_task tenant id) ts ≤ 1

abbrev pub IsSingle : List TaskRow → Type 0
IsSingle ts = (tenant : ℕ) (key : String) → count (has_key tenant key) ts ≤ 1

pub record IsValid (db : Db) : Type 0 where
  pub sound : All IsSound db.tasks
  pub keyed : IsKeyed db.tasks
  pub single : IsSingle db.tasks

-- A row whose key no row has may be added.
insert_unique :
    (q : TaskRow → Bool) (r : TaskRow) (ts : List TaskRow)
    → count q ts ≤ 1
    → (q r ≡ true → count q ts ≡ 0)
    → count q (r ∷ ts) ≤ 1
unfolding count
insert_unique q r ts u h = ground arith

same_key :
    (now : ℕ) (f : TaskRow → TaskRow) (tenant id : ℕ) (r : TaskRow)
    → Move now r (f r)
    → is_task tenant id (f r) ≡ is_task tenant id r
same_key now f tenant id r m = ground (arith, Move-SameKeys now r (f r) m)

same_own_key :
    (now : ℕ) (f : TaskRow → TaskRow) (tenant : ℕ) (key : String) (r : TaskRow)
    → Move now r (f r)
    → has_key tenant key (f r) ≡ has_key tenant key r
same_own_key now f tenant key r m = ground (arith, Move-SameKeys now r (f r) m)

module _ {db db' : Db} where
  Change-IsSound : Change db db' → All IsSound db.tasks → All IsSound db'.tasks
  Change-IsSound (keep e) v = subst (All IsSound) (sym e) v
  Change-IsSound (write p f e moves) v =
      subst (All IsSound) (sym e)
        (All-update IsSound p f (λ r h. Move-IsSound db.clock r (f r) (moves r h)) db.tasks v)
  Change-IsSound (add r e clash new) v = subst (All IsSound) (sym e) (ground arith, v)

  Change-IsKeyed : Change db db' → IsKeyed db.tasks → IsKeyed db'.tasks
  Change-IsKeyed (keep e) v tenant id = subst IsKeyed (sym e) v tenant id
  Change-IsKeyed (write p f e moves) v tenant id =
      rw
        (
          e,
          count-update (is_task tenant id) p f (λ r h. same_key db.clock f tenant id r (moves r h))
              db.tasks,
        )
        (v tenant id)
  Change-IsKeyed (add r e clash new) v tenant id = rw e (
      insert_unique (is_task tenant id) r db.tasks (v tenant id) (λ h.
        count_of_any (is_task tenant id) db.tasks
          (any_weaken (is_task tenant id) (Due.clashes r) (λ a k. ground arith) db.tasks clash)))

  Change-IsSingle : Change db db' → IsSingle db.tasks → IsSingle db'.tasks
  Change-IsSingle (keep e) v tenant key = subst IsSingle (sym e) v tenant key
  Change-IsSingle (write p f e moves) v tenant key =
      rw
        (
          e,
          count-update (has_key tenant key) p f
              (λ r h. same_own_key db.clock f tenant key r (moves r h)) db.tasks,
        )
        (v tenant key)
  Change-IsSingle (add r e clash new) v tenant key = rw e (
      insert_unique (has_key tenant key) r db.tasks (v tenant key) (λ h.
        count_of_any (has_key tenant key) db.tasks (
          any_weaken (has_key tenant key) (Due.clashes r)
            (λ a k. ground (
              arith,
              eq_iff r.idempotency_key key,
              eq_iff a.idempotency_key key,
              eq_iff a.idempotency_key r.idempotency_key,
            ))
            db.tasks clash)))

  Change-IsValid : Change db db' → IsValid db → IsValid db'
  Change-IsValid c v = record {
    sound = Change-IsSound c v.sound;
    keyed = Change-IsKeyed c v.keyed;
    single = Change-IsSingle c v.single;
  }

module _ (libs : Libs) where
  -- Every call, successful or not, keeps the lease columns in agreement with the status and the
  -- two keys of the table unique.
  pub step-IsValid : (c : Call) (db : Db) → IsValid db → IsValid (step libs c db)
  step-IsValid c db v = Change-IsValid (step-Change libs c db) v

  -- Every interleaving of calls of WorkStore with the time that passes between them keeps the
  -- lease columns of each task in agreement with its status and the two keys of the table unique.
  pub run-IsValid : (cs : List (ℕ × Call)) (db : Db) → IsValid db → IsValid (run libs cs db)
  unfolding run
  run-IsValid [] db v = v
  run-IsValid ((n, c) ∷ cs) db v =
      run-IsValid cs (step libs c (wait n db)) (step-IsValid c (wait n db) (waited v))
    where
      waited : IsValid db → IsValid (wait n db)
      waited w = record { sound = w.sound; keyed = w.keyed; single = w.single }
