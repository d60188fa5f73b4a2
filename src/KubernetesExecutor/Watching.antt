-- ===== src/KubernetesExecutor/Watching.antt =====
-- Execute of internal/worker/kubernetes_executor.go returns once its Job has finished, and cleans up
-- its objects.
use mathlib.Core.Path.{subst}
use ani_model_service.Prelude.{
  ℕ, zero, suc, ◌+◌, ◌*◌, ◌^◌, ◌≤◌, Bool, true, false, ◌≡◌, refl, sym, ok, Result, some, none,
  arith, ltb, if◌then◌else◌,
}
use ani_model_service.Kubernetes.{Job, Phase, job_status}
use ani_model_service.Kubernetes.Cluster
use ani_model_service.Kubernetes.Cluster.{
  ApiError, Secret, Cluster, World, Api, Op, Run, pure, attempt, ◌>>=◌, empty, collect, fresh_job,
}
use ani_model_service.Kubernetes.Ensures.{at}
use ani_model_service.Kubernetes.Calm.{
  IsCalm, observed, Reaches, Next, Goal, bind-Reaches, attempt-Reaches, pure-Reaches, read-Reaches,
  call-Reaches,
}
use ani_model_service.KubernetesExecutor.Driver
use ani_model_service.KubernetesExecutor.Driver.{
  Attempt, SignedUrl, Ended, is_own, watch, clean_up, validate_signed_url, refresh_upload_secret,
  execute, prepare, upload_secret,
}

abbrev pub is_finished : Phase → Bool
is_finished Phase.succeeded = true
is_finished Phase.failed = true
is_finished Phase.pending = false
is_finished Phase.running = false

-- The Secret is gone, and the garbage collection leaves nothing.
abbrev pub IsCleanedUp : Cluster → Type 0
IsCleanedUp c = (c.secret ≡ none) × (collect c ≡ empty)

-- Execute has returned because the Job has finished, and its objects are cleaned up.
abbrev pub Ends : Goal Ended
Ends r w = (e : Ended) × (r ≡ ok e) × IsCleanedUp w.cluster

module _ (api : Api) (jobs : ℕ → Job) (gc : ℕ → Bool) (calm : IsCalm api jobs gc)
    (a : Attempt) where
  abbrev Own : Secret → Type 0
  Own s = (is_own api a s ≡ true) × (x : ℕ) × (s.expires_at ≡ some (some x))

  -- The Job runs with its Secret.
  abbrev running : Job → Bool → Secret → Cluster
  running j p s = record empty { job = some j; has_pvc = p; secret = some s }

  -- The three deletions, with what the controllers do before each of them.
  abbrev cleaned : (Bool × Bool × Bool) → (Job × Job × Job) → Cluster → Cluster
  cleaned (b, b', b'') (j, j', j'') c =
      let c1 = (Cluster.job_deleted api (observed j b c)).1 in
      let c2 = (Cluster.pvc_deleted api (observed j' b' c1)).1 in
      (Cluster.secret_deleted api (observed j'' b'' c2)).1

  cleaned_lem :
      (b b' b'' p : Bool) (j j' j'' k : Job) (s : Secret)
      → collect (cleaned (b, b', b'') (j, j', j'') (running k p s)) ≡ empty
  cleaned_lem b true b'' p j j' j'' k s = refl
  cleaned_lem b false true true j j' j'' k s = refl
  cleaned_lem b false true false j j' j'' k s = refl
  cleaned_lem b false false true j j' j'' k s = refl
  cleaned_lem b false false false j j' j'' k s = refl

  -- The clusters after each of the three deletions that start at step `n`.
  abbrev without_job : ℕ → Cluster → Cluster
  without_job n c = (Cluster.job_deleted api (observed (jobs n) (gc n) c)).1

  abbrev without_claim : ℕ → Cluster → Cluster
  without_claim n c =
      (Cluster.pvc_deleted api (observed (jobs (suc n)) (gc (suc n)) (without_job n c))).1

  deletion_lem :
      (Q : Goal (Unit {0})) (op : Op) (act : Cluster → Result ApiError (Unit {0}) × Cluster)
      (c : Cluster) (n : ℕ)
      → Q (ok tt) (at (act (observed (jobs n) (gc n) c)).1 (suc n))
      → Reaches Q (attempt (Cluster.call api op act) >>= λ r. pure tt) (at c n)
  deletion_lem Q op act c n h =
      attempt-Reaches Q (Cluster.call api op act) (λ r. pure tt) (at c n)
        (call-Reaches api jobs gc calm (λ r v. Reaches Q (pure tt) v) op act (at c n)
          (pure-Reaches Q tt (at (act (observed (jobs n) (gc n) c)).1 (suc n)) h))

  deletions_lem :
      (Q : Goal (Unit {0})) (c : Cluster) (n : ℕ)
      → Q (ok tt) (
          at
            (cleaned
              (gc n, gc (suc n), gc (suc (suc n)))
              (jobs n, jobs (suc n), jobs (suc (suc n)))
              c)
            (suc (suc (suc n))))
      → Reaches Q (clean_up api a) (at c n)
  unfolding clean_up Driver.cleanup_job Driver.cleanup_pvc Driver.cleanup_upload_secret
      Cluster.delete_job Cluster.delete_pvc Cluster.delete_secret
  deletions_lem Q c n h =
      bind-Reaches Q (Driver.cleanup_job api)
        (λ u. Driver.cleanup_pvc api >>= λ v. Driver.cleanup_upload_secret api) (at c n)
        (deletion_lem
          (Next Q (λ u. Driver.cleanup_pvc api >>= λ v. Driver.cleanup_upload_secret api))
          Op.job_delete (Cluster.job_deleted api) c n
          (bind-Reaches Q (Driver.cleanup_pvc api) (λ v. Driver.cleanup_upload_secret api)
            (at (without_job n c) (suc n))
            (deletion_lem (Next Q (λ v. Driver.cleanup_upload_secret api)) Op.pvc_delete
              (Cluster.pvc_deleted api) (without_job n c) (suc n)
              (deletion_lem Q Op.secret_delete (Cluster.secret_deleted api) (without_claim n c)
                (suc (suc n)) h))))

  clean_up_lem :
      (Q : Goal (Unit {0})) (j : Job) (p : Bool) (s : Secret) (n : ℕ)
      → ((c : Cluster) (m : ℕ) → IsCleanedUp c → Q (ok tt) (at c m))
      → Reaches Q (clean_up api a) (at (running j p s) n)
  clean_up_lem Q j p s n h =
      let b = gc (suc n) in
      let b' = gc (suc (suc n)) in
      deletions_lem Q (running j p s) n (
        h (cleaned (gc n, b, b') (jobs n, jobs (suc n), jobs (suc (suc n))) (running j p s))
          (suc (suc (suc n)))
          (refl, cleaned_lem (gc n) b b' p (jobs n) (jobs (suc n)) (jobs (suc (suc n))) j s))

  module _ (alive : (n : ℕ) → a.done n ≡ false)
      (signed : (n : ℕ)
        → (u : SignedUrl) × (a.upload_url n ≡ ok u)
          × (validate_signed_url u (a.now n) ≡ ok tt)) where
    -- What holds after a refresh that started at step `n`.
    abbrev Kept : Goal (Unit {0}) → Bool → ℕ → Type 0
    Kept Q p n = (j : Job) (s : Secret) (m : ℕ) → n ≤ m → Own s → Q (ok tt) (at (running j p s) m)

    renew_lem :
        (Q : Goal (Unit {0})) (j : Job) (p : Bool) (s : Secret) (n : ℕ)
        → Own s
        → Kept Q p n
        → Reaches Q (Driver.renew_secret api a s) (at (running j p s) n)
    unfolding Cluster.update_secret
    renew_lem Q j p s n own h =
        let (u, e, v) = signed n in
        bind-Reaches _ _ _ _ (
          read-Reaches _ a.upload_url _ (
            rw e (
              bind-Reaches _ _ _ _ (
                pure-Reaches _ _ _ (
                  bind-Reaches _ _ _ _ (
                    read-Reaches _ a.now _ (
                      rw v (
                        bind-Reaches _ _ _ _ (
                          pure-Reaches _ _ _ (
                            call-Reaches api jobs gc calm _ _ _ _ (
                              h (jobs n) (Driver.renewed api a s u) (suc n) (omega arith)
                                (own.0, u.expires_at, refl))))))))))))

    refresh_lem :
        (Q : Goal (Unit {0})) (j : Job) (p : Bool) (s : Secret) (n : ℕ)
        → Own s
        → Kept Q p n
        → Reaches Q (refresh_upload_secret api a) (at (running j p s) n)
    unfolding refresh_upload_secret Cluster.get_secret
    refresh_lem Q j p s n (own, x, e) h = bind-Reaches _ _ _ _ (
        call-Reaches api jobs gc calm _ _ _ _ (
          subst
            (λ o.
              Reaches Q (Driver.refresh_annotated api a s o) (at (running (jobs n) p s) (suc n)))
            (sym e)
            (rw own (
              bind-Reaches _ _ _ _
                (read-Reaches _ a.now _ (go (Driver.is_fresh api a (a.now (suc n)) x)))))))
      where
        go :
            (b : Bool)
            → Reaches Q
                (if b then pure tt else Driver.renew_secret api a s)
                (at (running (jobs n) p s) (suc n))
        go true = pure-Reaches _ _ _ (h (jobs n) s (suc n) (omega arith) (own, x, e))
        go false =
            renew_lem Q (jobs n) p s (suc n) (own, x, e)
              (λ j' s' m l o. h j' s' m (omega (arith, l)) o)

    -- The loop goes on from a later step.
    abbrev GoesOn : (ℕ → Run Ended) → Bool → ℕ → Type 0
    GoesOn again p n =
        (next : ℕ) (j : Job) (s : Secret) (m : ℕ)
        → n ≤ m
        → Own s
        → Reaches Ends (again next) (at (running j p s) m)

    wait_lem :
        (again : ℕ → Run Ended) (next : ℕ) (j : Job) (p : Bool) (s : Secret) (n : ℕ)
        → Own s
        → GoesOn again p n
        → Reaches Ends (Driver.wait api a again next) (at (running j p s) n)
    wait_lem again next j p s n own h =
        bind-Reaches _ _ _ _
          (bind-Reaches _ _ _ _ (read-Reaches _ a.now _ (due (ltb (a.now n) next))))
      where
        rest :
            (next' : ℕ) (j' : Job) (s' : Secret) (m : ℕ)
            → n ≤ m
            → Own s'
            → Reaches Ends (Driver.unless_done api a again next') (at (running j' p s') m)
        rest next' j' s' m l o =
            bind-Reaches _ _ _ _ (read-Reaches _ a.done _ (rw (alive m) (h next' j' s' m l o)))

        due :
            (b : Bool)
            → Reaches
                (Next Ends (Driver.unless_done api a again))
                (if b then pure next else Driver.refresh_now api a)
                (at (running j p s) n)
        due true = pure-Reaches _ _ _ (rest next j s n (omega arith) own)
        due false = bind-Reaches _ _ _ _ (
            refresh_lem _ j p s n own (λ j' s' m l o. bind-Reaches _ _ _ _ (
              read-Reaches _ a.now _
                (pure-Reaches _ _ _ (rest (a.now m + 30 * 10 ^ 9) j' s' m l o)))))

    after_poll_lem :
        (again : ℕ → Run Ended) (next : ℕ) (j : Job) (p : Bool) (s : Secret) (n : ℕ) (phase : Phase)
        → Own s
        → (is_finished phase ≡ false → GoesOn again p n)
        → Reaches Ends (Driver.after_poll api a again next phase) (at (running j p s) n)
    after_poll_lem again next j p s n Phase.succeeded own h = bind-Reaches _ _ _ _ (
        read-Reaches _ a.finalize _ (
          bind-Reaches _ _ _ _ (
            clean_up_lem _ j p s n
              (λ c m z. pure-Reaches _ _ _ (Ended.finalized (a.finalize n), refl, z)))))
    after_poll_lem again next j p s n Phase.failed own h =
        bind-Reaches _ _ _ _
          (clean_up_lem _ j p s n (λ c m z. pure-Reaches _ _ _ (Ended.job_failed, refl, z)))
    after_poll_lem again next j p s n Phase.pending own h = wait_lem again next j p s n own (h refl)
    after_poll_lem again next j p s n Phase.running own h = wait_lem again next j p s n own (h refl)

    module _ (last : ℕ)
        (stops : (n : ℕ) → last ≤ n → is_finished (job_status (jobs n)).phase ≡ true) where
      poll_lem :
          (k next : ℕ) (j : Job) (p : Bool) (s : Secret) (n : ℕ)
          → Own s
          → (is_finished (job_status (jobs n)).phase ≡ false → GoesOn (watch api a k) p (suc n))
          → Reaches Ends (watch api a (suc k) next) (at (running j p s) n)
      unfolding watch Cluster.status Cluster.get_job
      poll_lem k next j p s n own h = bind-Reaches _ _ _ _ (
          bind-Reaches _ _ _ _ (
            call-Reaches api jobs gc calm _ _ _ _ (
              pure-Reaches _ _ _ (
                after_poll_lem (watch api a k) next (jobs n) p s (suc n) (job_status (jobs n)).phase
                  own h))))

      pub watch_lem :
          (k next : ℕ) (j : Job) (p : Bool) (s : Secret) (n : ℕ)
          → Own s
          → last ≤ n + k
          → Reaches Ends (watch api a (suc k) next) (at (running j p s) n)
      watch_lem zero next j p s n own l =
          poll_lem zero next j p s n own
            (λ e. absurd (ground (arith, stops n (omega (arith, l)), e)))
      watch_lem (suc k) next j p s n own l =
          poll_lem (suc k) next j p s n own
            (λ e next' j' s' m l' o. watch_lem k next' j' p s' m o (omega (arith, l, l')))
