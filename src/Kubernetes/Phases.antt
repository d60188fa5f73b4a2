-- ===== src/Kubernetes/Phases.antt =====
-- The phase of a Job, read from its conditions in one pass: JobStatus of
-- internal/data/kubernetes/import_job.go.
use ani_model_service.Prelude.{Option, none, some, List, [], ◌∷◌, if◌then◌else◌}
use ani_model_service.Kubernetes.{Phase, ConditionType, Condition}

abbrev pub decided : ConditionType → Option Phase
decided ConditionType.complete = some Phase.succeeded
decided ConditionType.failed = some Phase.failed
decided ConditionType.other = none

abbrev pub or_else : Option Phase → Option Phase → Option Phase
or_else (some p) o = some p
or_else none o = o

-- The last true condition of type Complete or Failed.
abbrev pub last_decided : List Condition → Option Phase
last_decided [] = none
last_decided (c ∷ cs) = or_else (last_decided cs) (if c.is_true then decided c.type else none)

abbrev pub phase_or : Phase → Option Phase → Phase
phase_or p none = p
phase_or p (some q) = q
