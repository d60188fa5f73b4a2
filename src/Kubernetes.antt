-- ===== src/Kubernetes.antt =====
-- The Kubernetes Jobs of internal/data/kubernetes/import_job.go: the phase of a Job, and the objects
-- of one import as the API server keeps them.
pub mod Cluster
pub mod Ensures
pub mod Calm
pub mod Phases
use ani_model_service.Prelude.{
  ℕ, String, Bool, true, false, not, ltb, str_eq, if◌then◌else◌, Option, none, some, List, [], ◌∷◌,
}

-- JobPhase; unknown is the empty phase of a nil Job.
pub data Phase : Type 0 where
  pending running succeeded failed : Phase

-- batchv1.JobConditionType: Complete, Failed, or another one
pub data ConditionType : Type 0 where
  complete failed other : ConditionType

pub record Condition : Type 0 where
  pub type : ConditionType
  -- condition.Status == corev1.ConditionTrue
  pub is_true : Bool
  pub reason : String
  pub text : String

-- The fields of batchv1.JobStatus that JobStatus reads.
pub record Job : Type 0 where
  pub active : ℕ
  pub succeeded : ℕ
  pub failed : ℕ
  pub conditions : List Condition

pub record ImportJobStatus : Type 0 where
  pub phase : Phase
  pub reason : String
  pub text : String

abbrev pub phase_of : ConditionType → Phase → Phase
phase_of ConditionType.complete phase = Phase.succeeded
phase_of ConditionType.failed phase = Phase.failed
phase_of ConditionType.other phase = phase

-- The loop over the conditions: a condition that is not true is skipped.
unfoldable pub read_conditions : ImportJobStatus → List Condition → ImportJobStatus
read_conditions s [] = s
read_conditions s (c ∷ cs) =
    read_conditions
      (if c.is_true
        then record { phase = phase_of c.type s.phase; reason = c.reason; text = c.text }
        else s)
      cs

-- The phase by the counters, when no condition has decided it.
abbrev pub counted : Job → Phase → Phase
counted j Phase.pending =
    if ltb 0 j.active
    then Phase.running
    else if ltb 0 j.failed
    then Phase.failed
    else if ltb 0 j.succeeded
    then Phase.succeeded
    else Phase.pending
counted j phase = phase

-- JobStatus, without the counters and times that it copies
unfoldable pub job_status : Job → ImportJobStatus
unfolding read_conditions
job_status j =
    let s =
      read_conditions (record { phase = Phase.pending; reason = ""; text = "" }) j.conditions in
    record s { phase = counted j s.phase }
