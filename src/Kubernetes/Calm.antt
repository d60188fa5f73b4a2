-- ===== src/Kubernetes/Calm.antt =====
-- Runs in which no call is lost and only the Job controller and the garbage collection act: before
-- the n-th call the controller reports `jobs n`, and a Job that is marked for deletion is collected
-- where `gc n` says so (internal/data/kubernetes/import_job.go).
use mathlib.Core.Path.{subst}
use ani_model_service.Prelude.{
  ℕ, suc, Bool, ◌&&◌, if◌then◌else◌, ◌≡◌, sym, ok, err, Result, Option, none, some,
}
use ani_model_service.Errors.{Error}
use ani_model_service.Kubernetes.{Job}
use ani_model_service.Kubernetes.Cluster.{
  ApiError, Cluster, World, Api, Op, Run, released, pure, continue, attempt, answered, call, ◌>>=◌,
}
use ani_model_service.Kubernetes.Ensures.{at}

abbrev pub acted : Job → Bool → Option Job → Cluster → Cluster
acted j b none c = c
acted j b (some k) c = if c.job_deleting && b then released c else record c { job = some j }

abbrev pub observed : Job → Bool → Cluster → Cluster
observed j b c = acted j b c.job c

pub record IsCalm (api : Api) (jobs : ℕ → Job) (gc : ℕ → Bool) : Type 0 where
  pub env : (n : ℕ) (c : Cluster) → api.env n c ≡ observed (jobs n) (gc n) c
  pub fault : (op : Op) (n : ℕ) → api.fault op n ≡ none

abbrev pub Goal : Type 0 → Type 1
Goal A = Result ApiError A → World → Type 0

unfoldable pub Reaches : {A : Type 0} → Goal A → Run A → World → Type 0
Reaches Q m w = Q (m w).0 (m w).1

abbrev pub Next : {A B : Type 0} → Goal B → (A → Run B) → Goal A
Next Q f (ok a) w = Reaches Q (f a) w
Next Q f (err e) w = Q (err e) w

module _ {A B : Type 0} where
  pub bind-Reaches :
      (Q : Goal B) (m : Run A) (f : A → Run B) (w : World)
      → Reaches (Next Q f) m w
      → Reaches Q (m >>= f) w
  unfolding Reaches ◌>>=◌
  bind-Reaches Q m f w h = go (m w).0 (m w).1 h
    where
      go :
          (r : Result ApiError A) (v : World)
          → Next Q f r v
          → Q (continue r f v).0 (continue r f v).1
      go (ok a) v k = k
      go (err e) v k = k

  pub attempt-Reaches :
      (Q : Goal B) (m : Run A) (f : Result ApiError A → Run B) (w : World)
      → Reaches (λ r v. Reaches Q (f r) v) m w
      → Reaches Q (attempt m >>= f) w
  unfolding Reaches ◌>>=◌ attempt
  attempt-Reaches Q m f w h = h

module _ {A : Type 0} where
  pub pure-Reaches : (Q : Goal A) (a : A) (w : World) → Q (ok a) w → Reaches Q (pure a) w
  unfolding Reaches pure
  pure-Reaches Q a w h = h

  pub read-Reaches :
      (Q : Goal A) (f : ℕ → A) (w : World)
      → Q (ok (f w.step)) w
      → Reaches Q (λ v. (ok (f v.step), v)) w
  unfolding Reaches
  read-Reaches Q f w h = h

module _ (api : Api) (jobs : ℕ → Job) (gc : ℕ → Bool) (calm : IsCalm api jobs gc) {A : Type 0} where
  pub call-Reaches :
      (Q : Goal A) (op : Op) (act : Cluster → Result ApiError A × Cluster) (w : World)
      → Q
          (act (observed (jobs w.step) (gc w.step) w.cluster)).0
          (at (act (observed (jobs w.step) (gc w.step) w.cluster)).1 (suc w.step))
      → Reaches Q (call api op act) w
  unfolding Reaches call
  call-Reaches Q op act w h =
      subst
        (λ (p : Option Error × Cluster).
          Q (answered p.0 (act p.1) p.1 w.step).0 (answered p.0 (act p.1) p.1 w.step).1)
        (λ i. (sym (calm.fault op w.step) i, sym (calm.env w.step w.cluster) i)) h
