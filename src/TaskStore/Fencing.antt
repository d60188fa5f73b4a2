-- ===== src/TaskStore/Fencing.antt =====
-- A claim fences every earlier lease of the task for good (work_store.go).
use mathlib.Core.Path.{subst}
use ani_model_service.Prelude.{
  ℕ, ◌+◌, ◌≤◌, ◌<◌, String, ◌≡◌, refl, sym, ◌∙◌, some, none, ok, err, ℤ, List, [], ◌∷◌, arith,
  if◌then◌else◌, Bool, true, false, Bool-cases, inl, inr, any,
}
use ani_model_service.Errors.{lease_lost}
use ani_model_service.Database.Table.{
  find, update, find-update, find-count, count_of_any, any_weaken,
}
use ani_model_service.Database.Rows.{TaskRow}
use ani_model_service.Database.Exec.{Db, Libs}
use ani_model_service.Database.Tasks.{is_task, is_leased}
use ani_model_service.Database.Due
use ani_model_service.TaskStore
use ani_model_service.TaskStore.Moves.{
  Move, claims, renews, binds, completes, retries, fails, resets, Change, keep, write, add,
}
use ani_model_service.TaskStore.Calls.{Call, step, run, wait, step-Change}
use ani_model_service.TaskStore.Invariant.{IsValid, Move-SameKeys, run-IsValid}
use ani_model_service.TaskStore.Ownership.{owner_calls, leased_result}

Move-epoch : (now : ℕ) (r s : TaskRow) → Move now r s → r.lease_epoch ≤ s.lease_epoch
Move-epoch now r s (claims owner micros h e) = ground arith
Move-epoch now r s (renews owner epoch micros h e) = ground arith
Move-epoch now r s (binds owner epoch model version h n e) = ground arith
Move-epoch now r s (completes owner epoch h e) = ground arith
Move-epoch now r s (retries owner epoch micros message h e) = ground arith
Move-epoch now r s (fails owner epoch message h e) = ground arith
Move-epoch now r s (resets h e) = ground arith

-- The task is there, with an epoch of at least `e`.
abbrev pub HasEpoch : ℕ → ℕ → ℕ → Db → Type 0
HasEpoch t i e db = (r : TaskRow) × (find (is_task t i) db.tasks ≡ some r) × (e ≤ r.lease_epoch)

module _ (t i e : ℕ) (db : Db) where
  moved-HasEpoch :
      (p : TaskRow → Bool) (f : TaskRow → TaskRow) (r : TaskRow)
      → ((s : TaskRow) → p s ≡ true → Move db.clock s (f s))
      → find (is_task t i) db.tasks ≡ some r
      → e ≤ r.lease_epoch
      → (s : TaskRow) × (find (is_task t i) (update p f db.tasks) ≡ some s) × (e ≤ s.lease_epoch)
  moved-HasEpoch p f r moves h l = (
    if p r then f r else r,
    find-update (is_task t i) p f kept db.tasks ∙ rw h refl,
    elim (Bool-cases (p r)) [
      | inl y ↦ rw y (omega (arith, Move-epoch db.clock r (f r) (moves r y)))
      | inr n ↦ rw n l
    ],
  )
    where
      kept : (s : TaskRow) → p s ≡ true → is_task t i (f s) ≡ is_task t i s
      kept s y = ground (arith, Move-SameKeys db.clock s (f s) (moves s y))

  -- A row with the key of `n` would clash with it, so the task is found behind the new row.
  behind :
      (n r : TaskRow)
      → find (is_task t i) db.tasks ≡ some r
      → any (Due.clashes n) db.tasks ≡ false
      → find (is_task t i) (n ∷ db.tasks) ≡ some r
  unfolding find
  behind n r h clash = elim (Bool-cases (is_task t i n)) [
    | inr other ↦ rw other h
    | inl same ↦ absurd (ground (arith, h, missing same))
  ]
    where
      missing : is_task t i n ≡ true → find (is_task t i) db.tasks ≡ none
      missing same = find-count (is_task t i) db.tasks (
          count_of_any (is_task t i) db.tasks
            (any_weaken (is_task t i) (Due.clashes n) (λ a k. ground arith) db.tasks clash))

  Change-HasEpoch : (db' : Db) → Change db db' → HasEpoch t i e db → HasEpoch t i e db'
  Change-HasEpoch db' (keep q) (r, h, l) =
      (r, subst (λ ts. find (is_task t i) ts ≡ some r) (sym q) h, l)
  Change-HasEpoch db' (write p f q moves) (r, h, l) =
      let (s, k, m) = moved-HasEpoch p f r moves h l in
      (s, subst (λ ts. find (is_task t i) ts ≡ some s) (sym q) k, m)
  Change-HasEpoch db' (add n q clash new) (r, h, l) =
      (r, subst (λ ts. find (is_task t i) ts ≡ some r) (sym q) (behind n r h clash), l)

module _ (libs : Libs) (t i e : ℕ) where
  -- No call takes a task away or turns its epoch back.
  pub run-HasEpoch :
      (cs : List (ℕ × Call)) (db : Db) → HasEpoch t i e db → HasEpoch t i e (run libs cs db)
  unfolding run
  run-HasEpoch [] db h = h
  run-HasEpoch ((n, c) ∷ cs) db h = run-HasEpoch cs (step libs c (wait n db)) (
      Change-HasEpoch t i e (wait n db) (step libs c (wait n db)) (step-Change libs c (wait n db))
        h)

-- The calls of a holder of the epoch `epoch` are refused, and change nothing.
abbrev pub IsFenced : Libs → String → String → String → ℕ → Db → Type 0
IsFenced libs tenant task owner epoch db =
    (lease after : ℤ) (message : String)
    → (TaskStore.complete libs tenant task owner epoch db ≡ (err lease_lost, db))
      × (TaskStore.fail_task libs tenant task owner epoch message db ≡ (err lease_lost, db))
      × (TaskStore.retry libs tenant task owner epoch after message db ≡ (err lease_lost, db))
      × (TaskStore.renew libs tenant task owner epoch lease db ≡ (err lease_lost, db))

module _ (libs : Libs) (tenant task owner : String) (epoch t i : ℕ)
    (parsed : TaskStore.parse_ids libs tenant task ≡ ok (t, i)) where
  older-IsFenced :
      (db : Db)
      → IsValid db
      → HasEpoch t i (epoch + 1) db
      → IsFenced libs tenant task owner epoch db
  older-IsFenced db v (r, h, l) lease after message =
      let (c, f, y, n) =
        owner_calls libs db v.keyed tenant task owner epoch t i r parsed h lease after message in
      (c ∙ lost _, f ∙ lost _, y ∙ lost _, n ∙ lost _)
    where
      not_leased : is_leased owner epoch db.clock r ≡ false
      not_leased = ground arith

      lost : (g : TaskRow → TaskRow) → leased_result g t i owner epoch r db ≡ (err lease_lost, db)
      lost g = rw not_leased

  -- Once the epoch of a task has passed that of a lease, every later Complete, Fail, Retry and
  -- Renew with that lease returns ErrLeaseLost and changes nothing, whatever calls were made and
  -- whatever time passed since.
  pub run-IsFenced :
      (cs : List (ℕ × Call)) (db : Db) (r : TaskRow)
      → IsValid db
      → find (is_task t i) db.tasks ≡ some r
      → epoch < r.lease_epoch
      → IsFenced libs tenant task owner epoch (run libs cs db)
  run-IsFenced cs db r v h l =
      older-IsFenced (run libs cs db) (run-IsValid libs cs db v)
        (run-HasEpoch libs t i (epoch + 1) cs db (r, h, omega arith))
