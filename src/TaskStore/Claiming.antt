-- ===== src/TaskStore/Claiming.antt =====
-- Claim of work_store.go decided by the one row of the task.
use ani_model_service.Prelude.{
  ℕ, ◌≤◌, String, ◌≡◌, refl, sym, ap, ◌∙◌, some, none, ◌&&◌, ◌||◌, ok, err, ℤ, List, arith,
  microseconds, if◌then◌else◌, Bool, true, false, Bool-cases, inl, inr, leb,
}
use ani_model_service.Errors.{Res, lease_lost, out_of_range}
use ani_model_service.Database.Table.{find, update, find-update, find-holds}
use ani_model_service.Database.Table.Keyed.{find_keyed, update_keyed}
use ani_model_service.Database.Rows.{TaskRow}
use ani_model_service.Database.Exec.{Db, Libs}
use ani_model_service.Database.Tasks
use ani_model_service.Database.Tasks.{is_task, is_due, is_leased}
use ani_model_service.Work.{Task}
use ani_model_service.TaskStore
use ani_model_service.TaskStore.Calls.{Call, run, step}
use ani_model_service.TaskStore.Invariant.{IsValid, step-IsValid}
use ani_model_service.TaskStore.Fencing.{IsFenced, run-IsFenced}

-- An increment of the row's counters would leave their columns' range.
abbrev pub is_full : TaskRow → Bool
is_full r = leb Tasks.max_int32 r.attempt_count || leb Tasks.max_int64 r.lease_epoch

abbrev pub claim_result : Libs → String → String → ℕ → ℕ → String → ℤ → TaskRow → Db → Res Task × Db
claim_result libs tenant task t i owner lease r db =
    if is_due db.clock r
    then if is_full r then (err out_of_range, db) else (
      ok (
          TaskStore.claimed_task libs tenant task
            (Tasks.claimed db.clock owner (microseconds lease) r)),
      record db {
        tasks = update (is_task t i) (Tasks.claimed db.clock owner (microseconds lease)) db.tasks;
      },
    )
    else (err lease_lost, db)

claim_ok :
    (libs : Libs) (db : Db) (tenant task owner : String) (lease : ℤ) (t i : ℕ) (r : TaskRow)
    (u : Task)
    → (claim_result libs tenant task t i owner lease r db).0 ≡ ok u
    → (is_due db.clock r ≡ true) × (is_full r ≡ false)
claim_ok libs db tenant task owner lease t i r u h = (ground arith, ground arith)

module _ (libs : Libs) (db : Db) (v : IsValid db) (tenant task owner : String) (lease : ℤ) (t i : ℕ)
    (r : TaskRow) (parsed : TaskStore.parse_ids libs tenant task ≡ ok (t, i))
    (found : find (is_task t i) db.tasks ≡ some r) where
  found_due :
      find (λ x. is_task t i x && is_due db.clock x) db.tasks
      ≡ (if is_due db.clock r then some r else none)
  found_due = find_keyed (is_task t i) (is_due db.clock) db.tasks r (v.keyed t i) found

  claim_found :
      Tasks.claim_import_task t i owner (microseconds lease) db
      ≡ Tasks.claim_row t i owner
          (microseconds lease)
          db
          (if is_due db.clock r then some r else none)
  unfolding Tasks.claim_import_task
  claim_found = ap (Tasks.claim_row t i owner (microseconds lease) db) found_due

  -- With the keys unique and the row of the task found, Claim takes the task exactly when it is
  -- due; it writes the row with the next epoch, or fails with the range of a counter, and in every
  -- other case returns ErrLeaseLost and writes nothing.
  pub claim_lem :
      TaskStore.claim libs tenant task owner lease db
      ≡ claim_result libs tenant task t i owner lease r db
  unfolding TaskStore.claim
  claim_lem =
      rw (parsed, claim_found)
        (elim (Bool-cases (is_due db.clock r)) [
          | inr late ↦ rw late refl
          | inl due ↦
              rw
                (
                  due,
                  update_keyed (is_task t i) (is_due db.clock)
                      (Tasks.claimed db.clock owner (microseconds lease)) db.tasks r (v.keyed t i)
                      found due,
                )
                (elim (Bool-cases (is_full r)) [
                  | inl full ↦ rw full refl
                  | inr room ↦ rw room refl
                ])
        ])

  -- A successful claim fences every lease that was given out before it: from then on, whatever
  -- calls are made and whatever time passes, Complete, Fail, Retry and Renew with an earlier epoch
  -- return ErrLeaseLost and change nothing.
  pub claim-IsFenced :
      (u : Task) (cs : List (ℕ × Call)) (stale : String) (epoch : ℕ)
      → (TaskStore.claim libs tenant task owner lease db).0 ≡ ok u
      → epoch ≤ r.lease_epoch
      → IsFenced libs tenant task stale epoch
          (run libs cs (TaskStore.claim libs tenant task owner lease db).1)
  claim-IsFenced u cs stale epoch h l =
      run-IsFenced libs tenant task stale epoch t i parsed cs
        (TaskStore.claim libs tenant task owner lease db).1
        (Tasks.claimed db.clock owner (microseconds lease) r)
        (unfold step in step-IsValid libs (Call.claim tenant task owner lease) db v)
        (ap (λ d. find (is_task t i) d.1.tasks) claim_lem ∙ (claimed_row taken.0 taken.1))
        (omega arith)
    where
      taken : (is_due db.clock r ≡ true) × (is_full r ≡ false)
      taken = claim_ok libs db tenant task owner lease t i r u (sym (ap (λ d. d.0) claim_lem) ∙ h)

      claimed_row :
          is_due db.clock r ≡ true
          → is_full r ≡ false
          → find (is_task t i) (claim_result libs tenant task t i owner lease r db).1.tasks
            ≡ some (Tasks.claimed db.clock owner (microseconds lease) r)
      claimed_row due room =
          rw (due, room)
            (find-update (is_task t i) (is_task t i)
                (Tasks.claimed db.clock owner (microseconds lease)) (λ a k. refl) db.tasks
              ∙ rw (found, find-holds (is_task t i) db.tasks r found) refl)
