-- ===== src/Kubernetes/Cluster.antt =====
-- The Job, the volume claim and the upload Secret of one import attempt, and the calls of
-- ImportJobClient (internal/data/kubernetes/import_job.go) on them. `env` is what the controllers
-- and others do before a call, `fault` a call that fails on its way.
use ani_model_service.Prelude.{
  ℕ, suc, String, Bool, true, false, ok, err, Result, ◌&&◌, not, if◌then◌else◌, Option, none, some,
  [],
}
use ani_model_service.Errors.{Error}
use ani_model_service.Kubernetes.{Job, ImportJobStatus, job_status}

-- apierrors.IsNotFound, IsAlreadyExists, and any other error
pub data ApiError : Type 0 where
  not_found already_exists : ApiError
  failure : Error → ApiError

-- The labels and annotations of an upload Secret. `expires_at` is none where the annotation is
-- missing, and some none where it does not parse.
pub record Secret : Type 0 where
  pub task_id : String
  pub tenant_id : String
  pub object_ref : String
  pub url : String
  pub expires_at : Option (Option ℕ)

-- A Job or a claim that is marked for deletion is still there.
pub record Cluster : Type 0 where
  pub job : Option Job
  pub job_deleting : Bool
  pub has_pvc : Bool
  pub pvc_deleting : Bool
  pub secret : Option Secret

abbrev pub empty : Cluster
empty = record {
  job = none;
  job_deleting = false;
  has_pvc = false;
  pvc_deleting = false;
  secret = none;
}

-- The Job and its pods are gone, and a claim that waited for them to be deleted.
abbrev pub released : Cluster → Cluster
released c = record c {
  job = none;
  job_deleting = false;
  has_pvc = c.has_pvc && not c.pvc_deleting;
  pvc_deleting = false;
}

-- What the garbage collection of Kubernetes leaves of the objects once it has run.
abbrev pub collected : Option Job → Cluster → Cluster
collected none c = c
collected (some j) c = if c.job_deleting then released c else c

abbrev pub collect : Cluster → Cluster
collect c = collected c.job c

pub data Op : Type 0 where
  pvc_get pvc_create pvc_delete job_get job_create job_delete : Op
  secret_get secret_create secret_update secret_delete : Op

-- The cluster at a step, which counts the calls.
pub record World : Type 0 where
  pub cluster : Cluster
  pub step : ℕ

pub record Api : Type 0 where
  pub env : ℕ → Cluster → Cluster
  pub fault : Op → ℕ → Option Error

abbrev pub Run : Type 0 → Type 0
Run A = World → Result ApiError A × World

module _ {A : Type 0} where
  unfoldable pub pure : A → Run A
  pure a w = (ok a, w)

  unfoldable pub fail : ApiError → Run A
  fail e w = (err e, w)

module _ {A B : Type 0} where
  abbrev pub continue : Result ApiError A → (A → Run B) → Run B
  continue (ok a) f w = f a w
  continue (err e) f w = (err e, w)

  infixl 5 ◌>>=◌ ◌>>◌
  unfoldable pub ◌>>=◌ : Run A → (A → Run B) → Run B
  ◌>>=◌ m f w = let (r, w') = m w in continue r f w'

  abbrev pub ◌>>◌ : Run A → Run B → Run B
  m >> k = m >>= λ _. k

unfoldable pub attempt : {A : Type 0} → Run A → Run (Result ApiError A)
attempt m w = let (r, w') = m w in (ok r, w')

abbrev pub answered :
    {A : Type 0}
    → Option Error
    → Result ApiError A × Cluster
    → Cluster
    → ℕ
    → Result ApiError A × World
answered none (r, after) before step = (r, record { cluster = after; step = suc step })
answered (some e) reply before step =
    (err (ApiError.failure e), record { cluster = before; step = suc step })

module _ (api : Api) where
  unfoldable pub call : {A : Type 0} → Op → (Cluster → Result ApiError A × Cluster) → Run A
  call op act w =
      let before = api.env w.step w.cluster in
      answered (api.fault op w.step) (act before) before w.step

  abbrev pub found : {A : Type 0} → Option A → Result ApiError A
  found none = err ApiError.not_found
  found (some a) = ok a

  -- GetPVC, CreatePVC, DeletePVC
  unfoldable pub get_pvc : Run (Unit {0})
  get_pvc = call Op.pvc_get (λ c. (if c.has_pvc then ok tt else err ApiError.not_found, c))

  unfoldable pub create_pvc : Run (Unit {0})
  create_pvc = call Op.pvc_create (λ c.
      if c.has_pvc then (err ApiError.already_exists, c) else (ok tt, record c { has_pvc = true }))

  -- A claim that the pods of the Job may mount stays, marked, until they are gone.
  abbrev pub unclaimed : Option Job → Cluster → Cluster
  unclaimed none c = record c { has_pvc = false; pvc_deleting = false }
  unclaimed (some j) c = record c { pvc_deleting = c.has_pvc }

  abbrev pub pvc_deleted : Cluster → Result ApiError (Unit {0}) × Cluster
  pvc_deleted c = (if c.has_pvc then ok tt else err ApiError.not_found, unclaimed c.job c)

  unfoldable pub delete_pvc : Run (Unit {0})
  delete_pvc = call Op.pvc_delete pvc_deleted

  -- Get, Status, Create, DeleteJob
  unfoldable pub get_job : Run Job
  get_job = call Op.job_get (λ c. (found c.job, c))

  unfoldable pub status : Run ImportJobStatus
  unfolding get_job
  status = get_job >>= λ j. pure (job_status j)

  abbrev pub fresh_job : Job
  fresh_job = record { active = 0; succeeded = 0; failed = 0; conditions = [] }

  abbrev pub created_job : Option Job → Cluster → Result ApiError Job × Cluster
  created_job none c = (ok fresh_job, record c { job = some fresh_job; job_deleting = false })
  created_job (some j) c = (err ApiError.already_exists, c)

  unfoldable pub create_job : Run Job
  create_job = call Op.job_create (λ c. created_job c.job c)

  abbrev pub deleted : {A : Type 0} → Option A → Result ApiError (Unit {0})
  deleted none = err ApiError.not_found
  deleted (some a) = ok tt

  -- DeletePropagationForeground: the Job stays, marked, until its pods are collected.
  abbrev pub marked : Option Job → Cluster → Cluster
  marked none c = c
  marked (some j) c = record c { job_deleting = true }

  abbrev pub job_deleted : Cluster → Result ApiError (Unit {0}) × Cluster
  job_deleted c = (deleted c.job, marked c.job c)

  unfoldable pub delete_job : Run (Unit {0})
  delete_job = call Op.job_delete job_deleted

  -- GetSecret, CreateSecret, UpdateSecret, DeleteSecret
  unfoldable pub get_secret : Run Secret
  get_secret = call Op.secret_get (λ c. (found c.secret, c))

  abbrev pub created_secret :
      Secret → Option Secret → Cluster → Result ApiError (Unit {0}) × Cluster
  created_secret s none c = (ok tt, record c { secret = some s })
  created_secret s (some t) c = (err ApiError.already_exists, c)

  unfoldable pub create_secret : Secret → Run (Unit {0})
  create_secret s = call Op.secret_create (λ c. created_secret s c.secret c)

  abbrev pub updated_secret :
      Secret → Option Secret → Cluster → Result ApiError (Unit {0}) × Cluster
  updated_secret s none c = (err ApiError.not_found, c)
  updated_secret s (some t) c = (ok tt, record c { secret = some s })

  unfoldable pub update_secret : Secret → Run (Unit {0})
  update_secret s = call Op.secret_update (λ c. updated_secret s c.secret c)

  abbrev pub secret_deleted : Cluster → Result ApiError (Unit {0}) × Cluster
  secret_deleted c = (deleted c.secret, record c { secret = none })

  unfoldable pub delete_secret : Run (Unit {0})
  delete_secret = call Op.secret_delete secret_deleted
