-- ===== src/TaskStore/Moves.antt =====
-- The state machine of an import task, and the calls of WorkStore
-- (internal/data/postgres/work_store.go) as steps of it.
pub mod Leased
pub mod Shared
use ani_model_service.Prelude.{
  ℕ, ◌+◌, String, ◌≡◌, refl, ◌∙◌, Bool, true, false, ◌&&◌, ok, err, ℤ, microseconds, Option, none,
  some, List, [], ◌∷◌, arith, any, ltb, leb, ◌||◌, not, Bool-cases, Option-cases, inl, inr, ◌⊎◌,
  is_none,
}
use ani_model_service.Errors.{Res, Error}
use ani_model_service.Database.Table.{update, count, find}
use ani_model_service.Database.Rows.{TaskRow, TaskStatus, pending, is_failed}
use ani_model_service.Database.Exec.{Db, Exec, lift, attempt, ◌>>=◌, Libs, parse_id, row, pure}
use ani_model_service.Database.Tasks
use ani_model_service.Database.Tasks.{is_leased, is_due, is_task}
use ani_model_service.Database.Due
use ani_model_service.Work.{Task}
use ani_model_service.TaskStore

-- One change of one task at the time `now`.
pub data Move (now : ℕ) (r s : TaskRow) : Type 0 where
  claims :
      (owner : String) (micros : ℤ)
      → is_due now r ≡ true
      → s ≡ Tasks.claimed now owner micros r
      → Move now r s
  renews :
      (owner : String) (epoch : ℕ) (micros : ℤ)
      → is_leased owner epoch now r ≡ true
      → s ≡ Tasks.renewed now micros r
      → Move now r s
  binds :
      (owner : String) (epoch model version : ℕ)
      → is_leased owner epoch now r ≡ true
      → r.model_version_id ≡ none
      → s ≡ Tasks.bound now model version r
      → Move now r s
  completes :
      (owner : String) (epoch : ℕ)
      → is_leased owner epoch now r ≡ true
      → s ≡ Tasks.completed now r
      → Move now r s
  retries :
      (owner : String) (epoch : ℕ) (micros : ℤ) (message : String)
      → is_leased owner epoch now r ≡ true
      → s ≡ Tasks.retried now micros message r
      → Move now r s
  fails :
      (owner : String) (epoch : ℕ) (message : String)
      → is_leased owner epoch now r ≡ true
      → s ≡ Tasks.failed now message r
      → Move now r s
  resets : is_failed r.status ≡ true → s ≡ Tasks.reset now r → Move now r s

-- What an inserted row holds besides its keys.
pub record IsNew (r : TaskRow) : Type 0 where
  pub status : r.status ≡ pending
  pub lease_until : r.lease_until ≡ none
  pub lease_owner : r.lease_owner ≡ ""
  pub lease_epoch : r.lease_epoch ≡ 0
  pub attempt_count : r.attempt_count ≡ 0
  pub completed_at : r.completed_at ≡ none

-- What a call does to the task table: nothing, a move of the rows that it selects, or a new row
-- whose keys no other row has.
pub data Change (db db' : Db) : Type 0 where
  keep : db'.tasks ≡ db.tasks → Change db db'
  write :
      (p : TaskRow → Bool) (f : TaskRow → TaskRow)
      → db'.tasks ≡ update p f db.tasks
      → ((r : TaskRow) → p r ≡ true → Move db.clock r (f r))
      → Change db db'
  add :
      (r : TaskRow)
      → db'.tasks ≡ r ∷ db.tasks
      → any (Due.clashes r) db.tasks ≡ false
      → IsNew r
      → Change db db'
