-- ===== src/KubernetesExecutor/Cleanup.antt =====
-- What an attempt leaves in the cluster when Execute of internal/worker/kubernetes_executor.go
-- returns before its Job runs.
use ani_model_service.Prelude.{
  ℕ, true, ◌≡◌, refl, ◌⊎◌, inl, inr, ok, err, Option, none, some, arith,
}
use ani_model_service.Errors.{Res, Error}
use ani_model_service.Kubernetes.Cluster
use ani_model_service.Kubernetes.Cluster.{
  ApiError, Secret, Cluster, Api, Op, Run, pure, fail, attempt, ◌>>=◌, empty, fresh_job,
}
use ani_model_service.Kubernetes.Ensures.{
  Post, Ensures, at, Then, IsIdle, bind_rule, attempt_rule, call_rule, pure_rule, fail_rule,
}
use ani_model_service.KubernetesExecutor.Driver
use ani_model_service.KubernetesExecutor.Driver.{
  Attempt, SignedUrl, prepare, validate_signed_url, upload_secret, create_import_job, ensure_pvc,
  cleanup_pvc, cleanup_upload_secret, drop_pvc, drop_secret,
}

-- No Job and no claim; then the claim, the Secret and the Job of the attempt.
abbrev pub start : Option Secret → Cluster
start s = record empty { secret = s }

abbrev pub with_claim : Option Secret → Cluster
with_claim s = record empty { has_pvc = true; secret = s }

-- Nobody else touches the objects while there is no Job, and no deletion is lost.
pub record IsQuiet (api : Api) : Type 0 where
  pub idle : IsIdle api
  pub pvc : (n : ℕ) → api.fault Op.pvc_delete n ≡ none
  pub secret : (n : ℕ) → api.fault Op.secret_delete n ≡ none

-- Why an attempt stops before its Job runs.
pub data Trouble (api : Api) (a : Attempt) (s : Option Secret) : Type 0 where
  lost : (op : Op) (n : ℕ) (x : Error) → api.fault op n ≡ some x → Trouble api a s
  no_bucket : (x : Error) → a.bucket ≡ err x → Trouble api a s
  no_spec : (x : Error) → a.spec ≡ err x → Trouble api a s
  no_url : (n : ℕ) (x : Error) → a.upload_url n ≡ err x → Trouble api a s
  bad_url :
      (u : SignedUrl) (n : ℕ) (x : Error)
      → a.upload_url n ≡ ok u
      → validate_signed_url u (a.now n) ≡ err x
      → Trouble api a s
  taken : (t : Secret) → s ≡ some t → Trouble api a s

module _ (api : Api) (quiet : IsQuiet api) (a : Attempt) where
  abbrev pub started : SignedUrl → Cluster
  started u = record empty {
    job = some (fresh_job api);
    has_pvc = true;
    secret = some (upload_secret api a u);
  }

  -- What prepare leaves: everything, nothing, or the claim alone when reading the Job is lost.
  abbrev pub Left : Option Secret → ApiError → Cluster → Type 0
  Left s e d =
      (d ≡ start s)
      ⊎ ((d ≡ with_claim s)
          × (n : ℕ) × (x : Error) × (api.fault Op.job_get n ≡ some x)
          × (e ≡ ApiError.failure x))

  abbrev pub Prepared : Option Secret → Post (Unit {0})
  Prepared s (ok r) d = (s ≡ none) × (u : SignedUrl) × (d ≡ started u)
  Prepared s (err e) d = Trouble api a s × Left s e d

  cleanup_pvc_lem :
      (Q : Post (Unit {0})) (s : Option Secret)
      → Q (ok tt) (start s)
      → Ensures Q (cleanup_pvc api) (with_claim s)
  unfolding cleanup_pvc Cluster.delete_pvc
  cleanup_pvc_lem Q s h = attempt_rule Q _ _ _ (
      call_rule api quiet.idle _ _ _ _ refl (λ n e k. absurd (ground (arith, quiet.pvc n, k)))
        (pure_rule Q _ _ h))

  cleanup_upload_secret_lem :
      (Q : Post (Unit {0})) (s : Option Secret)
      → Q (ok tt) (with_claim none)
      → Ensures Q (cleanup_upload_secret api) (with_claim s)
  unfolding cleanup_upload_secret Cluster.delete_secret
  cleanup_upload_secret_lem Q s h = attempt_rule Q _ _ _ (
      call_rule api quiet.idle _ _ _ _ refl (λ n e k. absurd (ground (arith, quiet.secret n, k)))
        (pure_rule Q _ _ h))

  drop_pvc_lem :
      {A : Type 0} (Q : Post A) (e : ApiError) (s : Option Secret)
      → Q (err e) (start s)
      → Ensures Q (drop_pvc api e) (with_claim s)
  drop_pvc_lem Q e s h = bind_rule Q _ _ _ (cleanup_pvc_lem _ s (fail_rule Q _ _ h))

  drop_secret_lem :
      {A : Type 0} (Q : Post A) (e : ApiError) (s : Option Secret)
      → Q (err e) (start none)
      → Ensures Q (drop_secret api e) (with_claim s)
  drop_secret_lem Q e s h = bind_rule Q _ _ _ (
      cleanup_upload_secret_lem _ s
        (bind_rule Q _ _ _ (cleanup_pvc_lem _ none (fail_rule Q _ _ h))))

  ensure_pvc_lem :
      (Q : Post (Unit {0})) (s : Option Secret)
      → Q (ok tt) (with_claim s)
      → ((e : ApiError) → Trouble api a s → Q (err e) (start s))
      → Ensures Q (ensure_pvc api) (start s)
  unfolding ensure_pvc Cluster.get_pvc Cluster.create_pvc
  ensure_pvc_lem Q s h k = attempt_rule Q _ _ _ (
      call_rule api quiet.idle _ _ _ _ refl
        (λ n e x. fail_rule Q _ _ (k (ApiError.failure e) (lost _ n e x)))
        (attempt_rule Q _ _ _ (
          call_rule api quiet.idle _ _ _ _ refl
            (λ n e x. fail_rule Q _ _ (k (ApiError.failure e) (lost _ n e x)))
            (pure_rule Q _ _ h))))

  -- An error after the claim is there drops the claim.
  dropped :
      {A : Type 0} (f : A → Run (Unit {0})) (s : Option Secret) (e : ApiError)
      → Trouble api a s
      → Ensures (Then (Prepared s) f) (drop_pvc api e) (with_claim s)
  dropped f s e why = drop_pvc_lem _ e s (why, inl refl)

  or_drop_pvc_lem :
      {A : Type 0} (f : A → Run (Unit {0})) (s : Option Secret) (r : Res A)
      → ((x : A) → r ≡ ok x → Ensures (Prepared s) (f x) (with_claim s))
      → ((x : Error) → r ≡ err x → Trouble api a s)
      → Ensures (Then (Prepared s) f) (Driver.or_drop_pvc api r) (with_claim s)
  or_drop_pvc_lem f s (ok x) h why = pure_rule _ _ _ (h x refl)
  or_drop_pvc_lem f s (err e) h why = dropped f s (ApiError.failure e) (why e refl)

  create_job_lem :
      (u : SignedUrl)
      → Ensures
          (Prepared none)
          (attempt (Cluster.create_job api) >>= Driver.job_created api)
          (with_claim (some (upload_secret api a u)))
  unfolding Cluster.create_job
  create_job_lem u = attempt_rule _ _ _ _ (
      call_rule api quiet.idle _ _ _ _ refl
        (λ n e k. drop_secret_lem _ (ApiError.failure e) _ (lost _ n e k, inl refl))
        (pure_rule _ _ _ (refl, u, refl)))

  secret_and_job_lem :
      (u : SignedUrl)
      → Ensures
          (Prepared none)
          (attempt (Cluster.create_secret api (upload_secret api a u)) >>= λ made.
            Driver.secret_created api made >>= λ x.
            attempt (Cluster.create_job api) >>= Driver.job_created api)
          (with_claim none)
  unfolding Cluster.create_secret
  secret_and_job_lem u = attempt_rule _ _ _ _ (
      call_rule api quiet.idle _ _ _ _ refl
        (λ n e k. bind_rule _ _ _ _ (dropped _ none (ApiError.failure e) (lost _ n e k)))
        (bind_rule _ _ _ _ (pure_rule _ _ _ (create_job_lem u))))

  -- The URL is signed and checked at one time.
  url_lem :
      (K : SignedUrl → ℕ → Run (Unit {0}))
      → ((u : SignedUrl) (n : ℕ)
          → a.upload_url n ≡ ok u
          → Ensures (Prepared none) (K u (a.now n)) (with_claim none))
      → Ensures
          (Prepared none)
          (Driver.create_upload_url api a >>= λ url.
            Driver.or_drop_pvc api url >>= λ u. Driver.clock a.now >>= λ t. K u t)
          (with_claim none)
  unfolding Ensures ◌>>=◌ pure
  url_lem K h n = go (a.upload_url n) refl
    where
      f : SignedUrl → Run (Unit {0})
      f u = Driver.clock a.now >>= λ t. K u t

      go :
          (r : Res SignedUrl)
          → a.upload_url n ≡ r
          → Prepared none
              ((Driver.or_drop_pvc api r >>= f) (at (with_claim none) n)).0
              ((Driver.or_drop_pvc api r >>= f) (at (with_claim none) n)).1.cluster
      go (ok u) e = h u n e n
      go (err x) e =
          bind_rule (Prepared none) (drop_pvc api (ApiError.failure x)) f (with_claim none)
            (dropped f none (ApiError.failure x) (no_url n x e)) n

  create_import_job_lem :
      (s : Option Secret) → Ensures (Prepared s) (create_import_job api a) (with_claim s)
  unfolding create_import_job Cluster.get_secret
  create_import_job_lem none = attempt_rule _ _ _ _ (
      call_rule api quiet.idle _ _ _ _ refl
        (λ n e k. bind_rule _ _ _ _ (dropped _ none (ApiError.failure e) (lost _ n e k)))
        (bind_rule _ _ _ _ (
          pure_rule _ _ _ (
            url_lem _ (λ u n e. bind_rule _ _ _ _ (
              or_drop_pvc_lem _ none (validate_signed_url u (a.now n)) (λ t v. secret_and_job_lem u)
                (λ x v. bad_url u n x e v)))))))
  create_import_job_lem (some t) = attempt_rule _ _ _ _ (
      call_rule api quiet.idle _ _ _ _ refl
        (λ n e k. bind_rule _ _ _ _ (dropped _ (some t) (ApiError.failure e) (lost _ n e k)))
        (bind_rule _ _ _ _
          (dropped _ (some t) (ApiError.failure Driver.already_there) (taken t refl))))

  lift_res_lem :
      (f : Unit {0} → Run (Unit {0})) (s : Option Secret) (r : Res (Unit {0}))
      → Ensures (Prepared s) (f tt) (start s)
      → ((x : Error) → r ≡ err x → Trouble api a s)
      → Ensures (Then (Prepared s) f) (Driver.lift_res r) (start s)
  lift_res_lem f s (ok tt) h why = pure_rule _ _ _ h
  lift_res_lem f s (err e) h why = fail_rule _ _ _ (why e refl, inl refl)

  pub prepare_lem : (s : Option Secret) → Ensures (Prepared s) (prepare api a) (start s)
  unfolding prepare Cluster.get_job
  prepare_lem s = bind_rule _ _ _ _ (
      lift_res_lem _ s a.bucket
        (bind_rule _ _ _ _ (
          lift_res_lem _ s a.spec
            (bind_rule _ _ _ _ (
              ensure_pvc_lem _ s
                (attempt_rule _ _ _ _ (
                  call_rule api quiet.idle _ _ _ _ refl
                    (λ n e k. fail_rule _ _ _ (lost _ n e k, inr (refl, n, e, k, refl)))
                    (create_import_job_lem s)))
                (λ e why. (why, inl refl))))
            no_spec))
        no_bucket)
