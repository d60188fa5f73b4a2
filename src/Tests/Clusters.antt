-- ===== src/Tests/Clusters.antt =====
-- An import attempt on Kubernetes, and the size of its volume
-- (internal/worker/kubernetes_executor.go, internal/data/kubernetes/import_job.go).
use ani_model_service.Prelude.{
  ℕ, ◌+◌, ◌-◌, ◌*◌, ◌^◌, ◌≤◌, ◌<◌, ◌≡◌, ◌↔◌, refl, ok, none, some, [], ◌∷◌, List, Bool, true, false,
  suc, pos, negsuc, is_negative, if◌then◌else◌, arith, leb,
}
use ani_model_service.Errors.{Error}
use ani_model_service.Kubernetes.{Job, ConditionType, job_status, read_conditions}
use ani_model_service.Kubernetes.Phases
use ani_model_service.Kubernetes.Cluster.{Api, Op, World, empty}
use ani_model_service.Kubernetes.Cluster
use ani_model_service.Kubernetes.Calm.{observed}
use ani_model_service.Kubernetes.Ensures.{at}
use ani_model_service.KubernetesExecutor.Driver
use ani_model_service.KubernetesExecutor.Driver.{
  Attempt, SignedUrl, Ended, execute, validate_signed_url,
}
use ani_model_service.KubernetesExecutor.Cleanup
use ani_model_service.KubernetesExecutor.Cleanup.{IsQuiet, start}
use ani_model_service.KubernetesExecutor.Ending
use ani_model_service.KubernetesExecutor.Ending.{IsHealthy}
use ani_model_service.KubernetesExecutor.Watching.{is_finished}
use ani_model_service.KubernetesExecutor.Storage.{
  File, max_int64, gi_bytes, estimate_size, storage_units, headroom,
}
use ani_model_service.KubernetesExecutor.Sizes

-- The Job is done from the fourth call on.
abbrev jobs : ℕ → Job
jobs n = record {
  active = 1;
  succeeded = 0;
  failed = 0;
  conditions =
      record { type = ConditionType.complete; is_true = leb 8 n; reason = ""; text = "" } ∷ [];
}

-- A Job that is marked for deletion is collected before the thirtieth call or a later one.
abbrev gc : ℕ → Bool
gc n = leb 30 n

abbrev calm : Api
calm = record { env = λ n c. observed (jobs n) (gc n) c; fault = λ op n. none }

abbrev upload : SignedUrl
upload = record { url = "https://storage/7"; expires_at = 900 }

abbrev attempt : Attempt
attempt = record {
  task_id = "7";
  tenant_id = "tenant";
  object_ref = "imports/7/model.tar";
  upload_url = λ n. ok upload;
  now = λ n. 100;
  done = λ n. false;
  finalize = λ n. ok tt;
  bucket = ok tt;
  spec = ok tt;
}

-- Reading the Job fails.
abbrev is_job_get : Op → Bool
is_job_get Op.job_get = true
is_job_get Op.job_delete = false
is_job_get Op.job_create = false
is_job_get Op.pvc_get = false
is_job_get Op.pvc_create = false
is_job_get Op.pvc_delete = false
is_job_get Op.secret_get = false
is_job_get Op.secret_create = false
is_job_get Op.secret_update = false
is_job_get Op.secret_delete = false

abbrev lossy : Api
lossy = record {
  env = λ n c. c;
  fault = λ op n. if is_job_get op then some (Error.message "timeout") else none;
}

abbrev quiet : IsQuiet lossy
quiet = record { idle = λ n c e. refl; pvc = λ n. refl; secret = λ n. refl }

healthy : IsHealthy calm jobs gc attempt
unfolding validate_signed_url
healthy = record {
  calm = record { env = λ n c. refl; fault = λ op n. refl };
  bucket = refl;
  spec = refl;
  alive = λ n. refl;
  signed = λ n. (upload, refl, refl);
}

stops : (m : ℕ) → 8 ≤ m → is_finished (job_status (jobs m)).phase ≡ true
unfolding job_status read_conditions
stops m h = let e : leb 8 m ≡ true = ground arith in rw e refl

execute_ends_example :
    (e : Ended) × (w : World) × (execute calm attempt (suc 8) (at (start none) 0) ≡ (ok e, w))
    × (w.cluster.secret ≡ none)
    × (Cluster.collect w.cluster ≡ empty)
execute_ends_example = Ending.execute_ends calm jobs gc attempt 8 8 0 healthy stops (omega arith)

abbrev files : List File
files =
    record { path = "config.json"; size = pos 10 }
    ∷ record { path = "model.gguf"; size = pos (60 * 2 ^ 30) }
    ∷ []

estimate_size_iff_example : (estimate_size "" files ≡ some (72 * 2 ^ 30 + 12)) ↔ (
    Sizes.AllFit "" files
    × (0 < Sizes.sum_taken "" files)
    × (72 * 2 ^ 30 + 12 ≡ Sizes.sum_taken "" files + headroom (Sizes.sum_taken "" files))
    × (72 * 2 ^ 30 + 12 ≤ max_int64))
estimate_size_iff_example = Sizes.estimate_size_iff "" files (72 * 2 ^ 30 + 12)

storage_units_lem_example :
    (2 ^ 63 - 1 + gi_bytes ≤ 2 ^ 63
      → (u : ℕ) × (storage_units (2 ^ 63 - 1) ≡ pos u)
        × (2 ^ 63 - 1 ≤ u * gi_bytes)
        × (u * gi_bytes < 2 ^ 63 - 1 + gi_bytes))
    × (2 ^ 63 < 2 ^ 63 - 1 + gi_bytes → is_negative (storage_units (2 ^ 63 - 1)) ≡ true)
storage_units_lem_example = Sizes.storage_units_lem (2 ^ 63 - 1) (omega arith)

-- The volume of a request of nearly 2 ^ 63 bytes.
storage_units_overflow : storage_units (2 ^ 63 - 1) ≡ negsuc (2 ^ 33 - 2)
unfolding storage_units
storage_units_overflow = refl
