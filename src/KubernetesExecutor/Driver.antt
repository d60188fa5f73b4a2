-- ===== src/KubernetesExecutor/Driver.antt =====
-- Execute of internal/worker/kubernetes_executor.go: it prepares the volume claim, the upload Secret
-- and the Job of an attempt, watches the Job, and cleans up.
use ani_model_service.Prelude.{
  ℕ, zero, suc, ◌+◌, ◌*◌, ◌^◌, String, Bool, ◌&&◌, ◌||◌, not, ok, err, Result, ltb, leb, str_eq,
  if◌then◌else◌, Option, none, some,
}
use ani_model_service.Errors.{Res, Error}
use ani_model_service.Kubernetes.{Phase, Job}
use ani_model_service.Kubernetes.Cluster
use ani_model_service.Kubernetes.Cluster.{
  ApiError, Secret, Cluster, World, Api, Run, pure, fail, attempt, ◌>>=◌, ◌>>◌,
}

-- storage.SignedURL
pub record SignedUrl : Type 0 where
  pub url : String
  pub expires_at : ℕ

-- ValidateSignedURL of internal/biz/storage/storage.go
unfoldable pub validate_signed_url : SignedUrl → ℕ → Res (Unit {0})
validate_signed_url u now =
    if str_eq u.url "" || leb u.expires_at now then err Error.url_expired else ok tt

abbrev pub failure : {A : Type 0} → Error → Run A
failure e = fail (ApiError.failure e)

abbrev pub lift_res : {A : Type 0} → Res A → Run A
lift_res (ok a) = pure a
lift_res (err e) = failure e

abbrev pub minutes : ℕ → ℕ
minutes n = n * 60 * 10 ^ 9

-- Why Execute returns: the Job has succeeded, with the result of finalizeJob, or it has failed.
pub data Ended : Type 0 where
  finalized : Res (Unit {0}) → Ended
  job_failed : Ended

-- The executor on one task. `upload_url` is CreateUploadURL at a step, `now` the clock, `done` says
-- when the context is cancelled, and `finalize` is finalizeJob.
pub record Attempt : Type 0 where
  pub task_id : String
  pub tenant_id : String
  pub object_ref : String
  pub upload_url : ℕ → Res SignedUrl
  pub now : ℕ → ℕ
  pub done : ℕ → Bool
  pub finalize : ℕ → Res (Unit {0})
  pub bucket : Res (Unit {0})
  pub spec : Res (Unit {0})

abbrev pub clock : (ℕ → ℕ) → Run ℕ
clock now w = (ok (now w.step), w)

abbrev pub already_there : Error
already_there = Error.message "import upload secret already exists"

abbrev pub identity_mismatch : Error
identity_mismatch = Error.message "import upload secret identity mismatch"

module _ (api : Api) where
  -- cleanupPVC, cleanupJob, cleanupUploadSecret: every caller drops the error.
  unfoldable pub cleanup_pvc : Run (Unit {0})
  cleanup_pvc = attempt (Cluster.delete_pvc api) >>= λ r. pure tt

  unfoldable pub cleanup_job : Run (Unit {0})
  cleanup_job = attempt (Cluster.delete_job api) >>= λ r. pure tt

  unfoldable pub cleanup_upload_secret : Run (Unit {0})
  cleanup_upload_secret = attempt (Cluster.delete_secret api) >>= λ r. pure tt

  abbrev pub pvc_created : Result ApiError (Unit {0}) → Run (Unit {0})
  pvc_created (ok u) = pure tt
  pvc_created (err ApiError.already_exists) = Cluster.get_pvc api
  pvc_created (err e) = fail e

  abbrev pub pvc_found : Result ApiError (Unit {0}) → Run (Unit {0})
  pvc_found (ok u) = pure tt
  pvc_found (err ApiError.not_found) = attempt (Cluster.create_pvc api) >>= pvc_created
  pvc_found (err e) = fail e

  -- ensurePVC
  unfoldable pub ensure_pvc : Run (Unit {0})
  ensure_pvc = attempt (Cluster.get_pvc api) >>= pvc_found

  -- An early return of Execute after the volume claim is there.
  abbrev pub drop_pvc : {A : Type 0} → ApiError → Run A
  drop_pvc e = cleanup_pvc >>= λ u. fail e

  abbrev pub drop_secret : {A : Type 0} → ApiError → Run A
  drop_secret e = do cleanup_upload_secret; cleanup_pvc; fail e

  abbrev pub or_drop_pvc : {A : Type 0} → Res A → Run A
  or_drop_pvc (ok a) = pure a
  or_drop_pvc (err e) = drop_pvc (ApiError.failure e)

  abbrev pub no_secret : Result ApiError Secret → Run (Unit {0})
  no_secret (ok s) = drop_pvc (ApiError.failure already_there)
  no_secret (err ApiError.not_found) = pure tt
  no_secret (err e) = drop_pvc e

  abbrev pub secret_created : Result ApiError (Unit {0}) → Run (Unit {0})
  secret_created (ok u) = pure tt
  secret_created (err ApiError.already_exists) = drop_pvc (ApiError.failure already_there)
  secret_created (err e) = drop_pvc e

  abbrev pub job_again : Result ApiError Job → Run (Unit {0})
  job_again (ok j) = pure tt
  job_again (err e) = drop_secret e

  abbrev pub job_created : Result ApiError Job → Run (Unit {0})
  job_created (ok j) = pure tt
  job_created (err ApiError.already_exists) = attempt (Cluster.get_job api) >>= job_again
  job_created (err e) = drop_secret e

  module _ (a : Attempt) where
    abbrev pub upload_secret : SignedUrl → Secret
    upload_secret u = record {
      task_id = a.task_id;
      tenant_id = a.tenant_id;
      object_ref = a.object_ref;
      url = u.url;
      expires_at = some (some u.expires_at);
    }

    -- CreateUploadURL
    abbrev pub create_upload_url : Run (Res SignedUrl)
    create_upload_url w = (ok (a.upload_url w.step), w)

    -- The Secret and the Job of an attempt that has no Job yet.
    unfoldable pub create_import_job : Run (Unit {0})
    create_import_job = do
      existing ← attempt (Cluster.get_secret api)
      no_secret existing
      url ← create_upload_url
      upload ← or_drop_pvc url
      now ← clock a.now
      or_drop_pvc (validate_signed_url upload now)
      made ← attempt (Cluster.create_secret api (upload_secret upload))
      secret_created made
      job ← attempt (Cluster.create_job api)
      job_created job

    abbrev pub job_found : Result ApiError Job → Run (Unit {0})
    job_found (ok j) = pure tt
    job_found (err ApiError.not_found) = create_import_job
    job_found (err e) = fail e

    -- Execute up to the loop
    unfoldable pub prepare : Run (Unit {0})
    prepare = do
      lift_res a.bucket
      lift_res a.spec
      ensure_pvc
      job ← attempt (Cluster.get_job api)
      job_found job

    abbrev pub is_own : Secret → Bool
    is_own s =
        str_eq s.task_id a.task_id
        && (str_eq s.tenant_id a.tenant_id && str_eq s.object_ref a.object_ref)

    abbrev pub renewed : Secret → SignedUrl → Secret
    renewed s u = record s { url = u.url; expires_at = some (some u.expires_at) }

    -- time.Until(expires) > 10*time.Minute
    abbrev pub is_fresh : ℕ → ℕ → Bool
    is_fresh now expires = ltb (now + minutes 10) expires

    abbrev pub renew_secret : Secret → Run (Unit {0})
    renew_secret s = do
      url ← create_upload_url
      upload ← lift_res url
      now ← clock a.now
      lift_res (validate_signed_url upload now)
      Cluster.update_secret api (renewed s upload)

    abbrev pub refresh_expiring : Secret → ℕ → Run (Unit {0})
    refresh_expiring s expires =
        clock a.now >>= λ now. if is_fresh now expires then pure tt else renew_secret s

    abbrev pub refresh_parsed : Secret → Option ℕ → Run (Unit {0})
    refresh_parsed s none = failure (Error.message "invalid import upload expiration")
    refresh_parsed s (some expires) = refresh_expiring s expires

    abbrev pub refresh_annotated : Secret → Option (Option ℕ) → Run (Unit {0})
    refresh_annotated s none = pure tt
    refresh_annotated s (some expires) =
        if not (is_own s) then failure identity_mismatch else refresh_parsed s expires

    -- refreshUploadSecret
    unfoldable pub refresh_upload_secret : Run (Unit {0})
    refresh_upload_secret = Cluster.get_secret api >>= λ s. refresh_annotated s s.expires_at

    -- The objects of an attempt go in this order: the Job first, so that its volume is released.
    unfoldable pub clean_up : Run (Unit {0})
    clean_up = do cleanup_job; cleanup_pvc; cleanup_upload_secret

    abbrev pub run_finalize : Run (Res (Unit {0}))
    run_finalize w = (ok (a.finalize w.step), w)

    -- The refresh that is due, and the time of the next one.
    abbrev pub refresh_now : Run ℕ
    refresh_now = do refresh_upload_secret; later ← clock a.now; pure (later + 30 * 10 ^ 9)

    abbrev pub refreshed : ℕ → Run ℕ
    refreshed next = clock a.now >>= λ now. if ltb now next then pure next else refresh_now

    abbrev pub is_done : Run Bool
    is_done w = (ok (a.done w.step), w)

    -- The select on ctx.Done and the ticker.
    abbrev pub unless_done : (ℕ → Run Ended) → ℕ → Run Ended
    unless_done again later = is_done >>= λ cancelled.
        if cancelled then failure (Error.message "context canceled") else again later

    abbrev pub wait : (ℕ → Run Ended) → ℕ → Run Ended
    wait again next = refreshed next >>= unless_done again

    abbrev pub after_poll : (ℕ → Run Ended) → ℕ → Phase → Run Ended
    after_poll again next Phase.succeeded = do r ← run_finalize; clean_up; pure (Ended.finalized r)
    after_poll again next Phase.failed = clean_up >>= λ u. pure Ended.job_failed
    after_poll again next phase = wait again next

    -- The loop, on fuel.
    unfoldable pub watch : ℕ → ℕ → Run Ended
    watch zero next = failure (Error.message "out of fuel")
    watch (suc n) next = Cluster.status api >>= λ s. after_poll (watch n) next s.phase

    abbrev pub run_watch : ℕ → Run Ended
    run_watch fuel = clock a.now >>= watch fuel

    -- Execute; the poll loop takes a round of fuel for each status.
    unfoldable pub execute : ℕ → Run Ended
    execute fuel = prepare >>= λ t. run_watch fuel
