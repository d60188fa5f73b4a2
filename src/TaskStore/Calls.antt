-- ===== src/TaskStore/Calls.antt =====
-- The calls of WorkStore as one alphabet: any interleaving of the service's requests and of any
-- number of workers is a list of these, with the time that passes in between.
use ani_model_service.Prelude.{ℕ, ◌+◌, String, ℤ, List, [], ◌∷◌}
use ani_model_service.Database.Exec.{Db, Libs}
use ani_model_service.Work.{Task}
use ani_model_service.TaskStore
use ani_model_service.TaskStore.Moves.{Change}
use ani_model_service.TaskStore.Moves.Leased.{
  complete-Change, retry-Change, fail-Change, renew-Change, bind-Change,
}
use ani_model_service.TaskStore.Moves.Shared.{create-Change, claim-Change, retry_failed-Change}

pub data Call : Type 0 where
  create : Task → Call
  claim : String → String → String → ℤ → Call
  renew : String → String → String → ℕ → ℤ → Call
  bind : String → String → String → ℕ → String → String → Call
  complete : String → String → String → ℕ → Call
  retry : String → String → String → ℕ → ℤ → String → Call
  fail : String → String → String → ℕ → String → Call
  retry_failed : String → String → Call

-- Time passes between two calls.
abbrev pub wait : ℕ → Db → Db
wait n db = record db { clock = db.clock + n }

module _ (libs : Libs) where
  -- The tables after the call; an error leaves what was written before it.
  unfoldable pub step : Call → Db → Db
  step (create t) db = (TaskStore.create libs (λ d. d) t db).1
  step (claim tenant task owner lease) db = (TaskStore.claim libs tenant task owner lease db).1
  step (renew tenant task owner epoch lease) db =
      (TaskStore.renew libs tenant task owner epoch lease db).1
  step (bind tenant task owner epoch model version) db =
      (TaskStore.bind libs tenant task owner epoch model version db).1
  step (complete tenant task owner epoch) db =
      (TaskStore.complete libs tenant task owner epoch db).1
  step (retry tenant task owner epoch after message) db =
      (TaskStore.retry libs tenant task owner epoch after message db).1
  step (fail tenant task owner epoch message) db =
      (TaskStore.fail_task libs tenant task owner epoch message db).1
  step (retry_failed tenant task) db = (TaskStore.retry_failed libs tenant task db).1

  unfoldable pub run : List (ℕ × Call) → Db → Db
  unfolding step
  run [] db = db
  run ((n, c) ∷ cs) db = run cs (step c (wait n db))

  -- Every call of WorkStore, whatever its arguments, makes moves of the task state machine only:
  -- it writes no row, moves the rows that it selects, or adds a pending row whose keys are new.
  pub step-Change : (c : Call) (db : Db) → Change db (step c db)
  unfolding step
  step-Change (create t) db = create-Change libs db t
  step-Change (claim tenant task owner lease) db = claim-Change libs db tenant task owner lease
  step-Change (renew tenant task owner epoch lease) db =
      renew-Change libs db tenant task owner epoch lease
  step-Change (bind tenant task owner epoch model version) db =
      bind-Change libs db tenant task owner epoch model version
  step-Change (complete tenant task owner epoch) db =
      complete-Change libs db tenant task owner epoch
  step-Change (retry tenant task owner epoch after message) db =
      retry-Change libs db tenant task owner epoch after message
  step-Change (fail tenant task owner epoch message) db =
      fail-Change libs db tenant task owner epoch message
  step-Change (retry_failed tenant task) db = retry_failed-Change libs db tenant task ""
