-- ===== src/Kubernetes/Ensures.antt =====
-- What a run of calls ensures of its result and of the cluster that it leaves, when nobody else
-- touches the objects (internal/data/kubernetes/import_job.go).
use mathlib.Core.Path.{subst}
use ani_model_service.Prelude.{ℕ, ◌≡◌, refl, sym, ok, err, Result, Option, none, some}
use ani_model_service.Errors.{Error}
use ani_model_service.Kubernetes.Cluster.{
  ApiError, Cluster, World, Api, Op, Run, pure, fail, continue, attempt, answered, call, ◌>>=◌,
}

abbrev pub Post : Type 0 → Type 1
Post A = Result ApiError A → Cluster → Type 0

abbrev pub at : Cluster → ℕ → World
at c n = record { cluster = c; step = n }

unfoldable pub Ensures : {A : Type 0} → Post A → Run A → Cluster → Type 0
Ensures Q m c = (n : ℕ) → Q (m (at c n)).0 (m (at c n)).1.cluster

-- The postcondition of the first of two steps.
abbrev pub Then : {A B : Type 0} → Post B → (A → Run B) → Post A
Then Q f (ok a) c = Ensures Q (f a) c
Then Q f (err e) c = Q (err e) c

module _ {A B : Type 0} where
  pub bind_rule :
      (Q : Post B) (m : Run A) (f : A → Run B) (c : Cluster)
      → Ensures (Then Q f) m c
      → Ensures Q (m >>= f) c
  unfolding Ensures ◌>>=◌
  bind_rule Q m f c h n = go (m (at c n)).0 (m (at c n)).1 (h n)
    where
      go :
          (r : Result ApiError A) (w : World)
          → Then Q f r w.cluster
          → Q (continue r f w).0 (continue r f w).1.cluster
      go (ok a) w k = k w.step
      go (err e) w k = k

  -- Two steps, the first of which never fails.
  pub attempt_rule :
      (Q : Post B) (m : Run A) (f : Result ApiError A → Run B) (c : Cluster)
      → Ensures (λ r d. Ensures Q (f r) d) m c
      → Ensures Q (attempt m >>= f) c
  unfolding Ensures ◌>>=◌ attempt
  attempt_rule Q m f c h n = h n (m (at c n)).1.step

module _ {A : Type 0} where
  pub pure_rule : (Q : Post A) (a : A) (c : Cluster) → Q (ok a) c → Ensures Q (pure a) c
  unfolding Ensures pure
  pure_rule Q a c h n = h

  pub fail_rule : (Q : Post A) (e : ApiError) (c : Cluster) → Q (err e) c → Ensures Q (fail e) c
  unfolding Ensures fail
  fail_rule Q e c h n = h

  -- A step that only reads the world's counter.
  pub read_rule :
      (Q : Post A) (f : ℕ → A) (c : Cluster)
      → ((n : ℕ) → Q (ok (f n)) c)
      → Ensures Q (λ w. (ok (f w.step), w)) c
  unfolding Ensures
  read_rule Q f c h n = h n

-- Nobody else touches the objects while there is no Job.
abbrev pub IsIdle : Api → Type 0
IsIdle api = (n : ℕ) (c : Cluster) → c.job ≡ none → api.env n c ≡ c

module _ (api : Api) (idle : IsIdle api) {A : Type 0} where
  -- A call is lost on its way, or does what it does.
  pub call_rule :
      (Q : Post A) (op : Op) (act : Cluster → Result ApiError A × Cluster) (c : Cluster)
      → c.job ≡ none
      → ((n : ℕ) (e : Error) → api.fault op n ≡ some e → Q (err (ApiError.failure e)) c)
      → Q (act c).0 (act c).1
      → Ensures Q (call api op act) c
  unfolding Ensures call
  call_rule Q op act c no_job lost done n = go (api.fault op n) refl
    where
      go :
          (f : Option Error)
          → api.fault op n ≡ f
          → Q
              (answered f (act (api.env n c)) (api.env n c) n).0
              (answered f (act (api.env n c)) (api.env n c) n).1.cluster
      go none e = subst (λ d. Q (act d).0 (act d).1) (sym (idle n c no_job)) done
      go (some x) e =
          subst (λ d. Q (err (ApiError.failure x)) d) (sym (idle n c no_job)) (lost n x e)
