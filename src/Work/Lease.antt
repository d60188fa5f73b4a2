-- ===== src/Work/Lease.antt =====
-- What the lease of internal/biz/work/work.go guarantees.
use ani_model_service.Prelude.{ℕ, ◌+◌, ◌<◌, ◌^◌, String, ◌≡◌, ◌⊎◌, ok, err, arith, ℤ, pos, eq_iff}
use ani_model_service.Errors.{invalid_transition, lease_fenced}
use ani_model_service.Database.Rows.{completed, failed}
use ani_model_service.Work.{Task, claim, complete, fail}

-- A task claimed with a lease of n nanoseconds cannot be claimed by anybody before the lease has
-- run out.
claim-excludes :
    (t u : Task) (owner other : String) (now later n : ℕ) (lease : ℤ)
    → claim t owner now (pos n) ≡ ok u
    → later < now + n
    → claim u other later lease ≡ err invalid_transition
unfolding claim
claim-excludes t u owner other now later n lease h l = ground arith

-- The owner of a fresh lease may complete or fail the task until the lease runs out.
claim-held :
    (t u : Task) (owner : String) (now later n : ℕ)
    → claim t owner now (pos n) ≡ ok u
    → later < now + n
    → (complete u owner u.lease_epoch later
        ≡ ok (record u { status = completed; lease_owner = ""; lease_until = 0 }))
      × (fail u owner u.lease_epoch later
          ≡ ok (record u { status = failed; lease_owner = ""; lease_until = 0 }))
unfolding claim complete fail
claim-held t u owner now later n h l =
    (ground (arith, eq_iff owner owner), ground (arith, eq_iff owner owner))

-- While the epoch stays below 2 ^ 63, the epoch of a first claim is fenced after a second claim:
-- it neither completes nor fails the task.
reclaim-fences :
    (t u v : Task) (owner other : String) (now later at : ℕ) (lease again : ℤ)
    → t.lease_epoch + 2 < 2 ^ 63
    → claim t owner now lease ≡ ok u
    → claim u other later again ≡ ok v
    → (complete v owner u.lease_epoch at ≡ err lease_fenced)
      × (fail v owner u.lease_epoch at ≡ err lease_fenced)
unfolding claim complete fail
reclaim-fences t u v owner other now later at lease again small h k = (ground arith, ground arith)

-- A completed or failed task cannot be claimed, completed or failed again.
complete-terminal :
    (t u : Task) (owner other : String) (epoch now later again : ℕ) (lease : ℤ)
    → (complete t owner epoch now ≡ ok u) ⊎ (fail t owner epoch now ≡ ok u)
    → (claim u other later lease ≡ err invalid_transition)
      × (complete u other again later ≡ err lease_fenced)
      × (fail u other again later ≡ err lease_fenced)
unfolding claim complete fail
complete-terminal t u owner other epoch now later again lease h =
    (ground arith, ground arith, ground arith)
