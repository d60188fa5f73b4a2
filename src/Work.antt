-- ===== src/Work.antt =====
-- internal/biz/work/work.go: the import task and its lease. An int64 or int is held as its bit
-- pattern, a number below 2 ^ 64; a time is a number of nanoseconds, 0 the zero time.
pub mod Lease
use ani_model_service.Prelude.{
  ℕ, ◌+◌, ◌%◌, ◌^◌, String, Bool, ◌&&◌, ◌||◌, not, ok, err, ltb, ◌==◌, str_eq, if◌then◌else◌, ℤ,
  is_positive, add_duration,
}
use ani_model_service.Errors.{Res, invalid_transition, lease_fenced}
use ani_model_service.Database.Rows.{
  TaskStatus, importing, is_importing, is_active, completed, failed,
}

pub record Task : Type 0 where
  pub tenant_id : String
  pub id : String
  pub lease_owner : String
  pub model_id : String
  pub version_id : String
  pub task_type : String
  pub source : String
  pub repo_id : String
  pub revision : String
  pub idempotency_key : String
  pub lease_epoch : ℕ
  pub status : TaskStatus
  pub lease_until : ℕ
  pub attempt_count : ℕ
  pub progress_pct : ℕ
  pub error_message : String
  pub created_at : ℕ
  pub completed_at : ℕ

abbrev pub wrap64 : ℕ → ℕ
wrap64 n = n % 2 ^ 64

unfoldable pub claim : Task → String → ℕ → ℤ → Res Task
claim t owner now lease =
    if str_eq owner ""
      || (not (is_positive lease)
          || (not (is_active t.status) || (not (t.lease_until == 0) && ltb now t.lease_until)))
    then err invalid_transition
    else ok (record t {
      lease_owner = owner;
      lease_epoch = wrap64 (t.lease_epoch + 1);
      status = importing;
      lease_until = add_duration now lease;
      attempt_count = wrap64 (t.attempt_count + 1);
    })

-- The condition under which `Complete` and `Fail` go on.
abbrev pub is_held : Task → String → ℕ → ℕ → Bool
is_held t owner epoch now =
    is_importing t.status
    && (str_eq t.lease_owner owner && (t.lease_epoch == epoch && ltb now t.lease_until))

unfoldable pub complete : Task → String → ℕ → ℕ → Res Task
complete t owner epoch now =
    if not (is_held t owner epoch now)
    then err lease_fenced
    else ok (record t { status = completed; lease_owner = ""; lease_until = 0 })

unfoldable pub fail : Task → String → ℕ → ℕ → Res Task
fail t owner epoch now =
    if not (is_held t owner epoch now)
    then err lease_fenced
    else ok (record t { status = failed; lease_owner = ""; lease_until = 0 })
