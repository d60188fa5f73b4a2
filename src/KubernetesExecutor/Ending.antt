-- ===== src/KubernetesExecutor/Ending.antt =====
-- A whole attempt of Execute in internal/worker/kubernetes_executor.go that nothing goes wrong with.
use mathlib.Core.Path.{subst}
use ani_model_service.Prelude.{
  ℕ, suc, ◌≤◌, Bool, true, false, ◌≡◌, refl, sym, ap, ◌∙◌, ok, err, Result, none, arith, eq_iff,
}
use ani_model_service.Kubernetes.{Job, job_status}
use ani_model_service.Kubernetes.Cluster.{
  ApiError, Cluster, World, Api, Op, empty, collect, fresh_job,
}
use ani_model_service.Kubernetes.Ensures.{at, Ensures}
use ani_model_service.Kubernetes.Calm.{
  IsCalm, Reaches, Next, bind-Reaches, read-Reaches, observed, acted,
}
use ani_model_service.KubernetesExecutor.Driver
use ani_model_service.KubernetesExecutor.Driver.{
  Attempt, SignedUrl, Ended, is_own, watch, clean_up, validate_signed_url, refresh_upload_secret,
  execute, prepare, upload_secret,
}
use ani_model_service.KubernetesExecutor.Cleanup.{
  IsQuiet, Trouble, Prepared, start, started, prepare_lem,
}
use ani_model_service.KubernetesExecutor.Watching.{is_finished, Ends, watch_lem}

observed_idle : (j : Job) (b : Bool) (c : Cluster) → c.job ≡ none → observed j b c ≡ c
observed_idle j b c e = ap (λ o. acted j b o c) e

calm-IsQuiet : (api : Api) (jobs : ℕ → Job) (gc : ℕ → Bool) → IsCalm api jobs gc → IsQuiet api
calm-IsQuiet api jobs gc calm = record {
  idle = λ n c e. calm.env n c ∙ observed_idle (jobs n) (gc n) c e;
  pvc = λ n. calm.fault Op.pvc_delete n;
  secret = λ n. calm.fault Op.secret_delete n;
}

-- An attempt that nothing goes wrong with.
pub record IsHealthy (api : Api) (jobs : ℕ → Job) (gc : ℕ → Bool) (a : Attempt) : Type 0 where
  pub calm : IsCalm api jobs gc
  pub bucket : a.bucket ≡ ok tt
  pub spec : a.spec ≡ ok tt
  pub alive : (n : ℕ) → a.done n ≡ false
  pub signed :
      (n : ℕ)
      → (u : SignedUrl) × (a.upload_url n ≡ ok u) × (validate_signed_url u (a.now n) ≡ ok tt)

no-Trouble :
    (api : Api) (jobs : ℕ → Job) (gc : ℕ → Bool) (a : Attempt)
    → IsHealthy api jobs gc a
    → ¬ Trouble api a none
no-Trouble api jobs gc a h (Trouble.lost op n x e) = ground (arith, h.calm.fault op n, e)
no-Trouble api jobs gc a h (Trouble.no_bucket x e) = ground (arith, h.bucket, e)
no-Trouble api jobs gc a h (Trouble.no_spec x e) = ground (arith, h.spec, e)
no-Trouble api jobs gc a h (Trouble.no_url n x e) =
    let (u, p, v) = h.signed n in ground (arith, p, e)
no-Trouble api jobs gc a h (Trouble.bad_url u n x e v) =
    let (t, p, w) = h.signed n in
    let same : t ≡ u = ground (arith, p, e) in
    ground (arith, ap (λ y. validate_signed_url y (a.now n)) same, v, w)
no-Trouble api jobs gc a h (Trouble.taken t e) = absurd (ground (arith, e))

upload_secret_own :
    (api : Api) (a : Attempt) (u : SignedUrl) → is_own api a (upload_secret api a u) ≡ true
upload_secret_own api a u = ground (
  arith,
  eq_iff a.task_id a.task_id,
  eq_iff a.tenant_id a.tenant_id,
  eq_iff a.object_ref a.object_ref,
)

module _ (api : Api) (jobs : ℕ → Job) (gc : ℕ → Bool) (a : Attempt) (last k : ℕ)
    (h : IsHealthy api jobs gc a)
    (stops : (m : ℕ) → last ≤ m → is_finished (job_status (jobs m)).phase ≡ true) where
  -- The loop of an attempt whose objects are all there.
  started_lem :
      (u : SignedUrl) (n : ℕ)
      → last ≤ k
      → Reaches Ends
          (Driver.run_watch api a (suc k))
          (at (started api (calm-IsQuiet api jobs gc h.calm) a u) n)
  started_lem u n l = bind-Reaches _ _ _ _ (
      read-Reaches _ a.now _ (
        watch_lem api jobs gc h.calm a h.alive h.signed last stops k (a.now n) (fresh_job api) true
          (upload_secret api a u) n (upload_secret_own api a u, u.expires_at, refl)
          (omega (arith, l))))

  prepared_lem :
      (r : Result ApiError (Unit {0})) (w : World)
      → last ≤ k
      → Prepared api (calm-IsQuiet api jobs gc h.calm) a none r w.cluster
      → Next Ends (λ t. Driver.run_watch api a (suc k)) r w
  prepared_lem (ok t) w l (_, u, e) =
      subst (λ c. Reaches Ends (Driver.run_watch api a (suc k)) (at c w.step)) (sym e)
        (started_lem u w.step l)
  prepared_lem (err e) w l (why, left) = absurd (no-Trouble api jobs gc a h why)

  execute_lem : (n : ℕ) → last ≤ k → Reaches Ends (execute api a (suc k)) (at (start none) n)
  unfolding execute
  execute_lem n l = bind-Reaches _ _ _ _ (entered n l)
    where
      entered :
          (n : ℕ)
          → last ≤ k
          → Reaches
              (Next Ends (λ t. Driver.run_watch api a (suc k)))
              (prepare api a)
              (at (start none) n)
      entered n l =
          unfold Ensures Reaches in
          (prepared_lem (prepare api a (at (start none) n)).0 (prepare api a (at (start none) n)).1
            l (prepare_lem api (calm-IsQuiet api jobs gc h.calm) a none n))

-- When no call is lost, only the Job controller and the garbage collection act, upload URLs are
-- valid and the context is not cancelled, an attempt that starts with no Job, claim or Secret and
-- whose Job has finished from a given call on returns after at most that many polls, its Secret is
-- gone, and once the garbage collection has run, which takes a Job that is marked for deletion and
-- then a claim that is, neither its Job nor its claim is left.
pub execute_ends :
    (api : Api) (jobs : ℕ → Job) (gc : ℕ → Bool) (a : Attempt) (last k n : ℕ)
    → IsHealthy api jobs gc a
    → ((m : ℕ) → last ≤ m → is_finished (job_status (jobs m)).phase ≡ true)
    → last ≤ k
    → (e : Ended) × (w : World) × (execute api a (suc k) (at (start none) n) ≡ (ok e, w))
      × (w.cluster.secret ≡ none)
      × (collect w.cluster ≡ empty)
unfolding Reaches
execute_ends api jobs gc a last k n h stops l =
    let (e, r, c) = execute_lem api jobs gc a last k h stops n l in
    (
      e,
      (execute api a (suc k) (at (start none) n)).1,
      λ i. (r i, (execute api a (suc k) (at (start none) n)).1),
      c.0,
      c.1,
    )
