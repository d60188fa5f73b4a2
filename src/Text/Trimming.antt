-- ===== src/Text/Trimming.antt =====
-- When trimming changes nothing.
use mathlib.Core.List.{reverse, reverse-reverse, reverse-cons}
use ani_model_service.Prelude.{
  ℕ, ◌≤◌, ◌≡◌, refl, sym, ap, ◌∙◌, Bool, true, List, [], ◌∷◌, ◌++◌, all, not, arith, length,
  length-append, Bool-cases, inl, inr,
}
use ani_model_service.Text.{trim_left, trim_func, same}

pub same_refl : (s : List ℕ) → same s s ≡ true
same_refl [] = refl
same_refl (c ∷ s) = ground (arith, same_refl s)

pub same→eq : (s t : List ℕ) → same s t ≡ true → s ≡ t
same→eq [] [] h = refl
same→eq [] (d ∷ t) h = ground arith
same→eq (c ∷ s) [] h = ground arith
same→eq (c ∷ s) (d ∷ t) h = ground (arith, same→eq s t)

length-reverse : (xs : List ℕ) → length (reverse xs) ≡ length xs
length-reverse [] = refl
length-reverse (x ∷ xs) =
    omega
      (arith, ap length (reverse-cons x xs), length-append (reverse xs) (x ∷ []), length-reverse xs)

module _ (p : ℕ → Bool) where
  length-trim_left : (s : List ℕ) → length (trim_left p s) ≤ length s
  unfolding trim_left
  length-trim_left [] = omega arith
  length-trim_left (c ∷ s) = ground (arith, length-trim_left s)

  trim_left_kept : (s : List ℕ) → length s ≤ length (trim_left p s) → trim_left p s ≡ s
  unfolding trim_left
  trim_left_kept [] h = refl
  trim_left_kept (c ∷ s) h = ground (arith, length-trim_left s)

  -- Trimming that gives the text back has taken nothing off either end.
  trim_func_kept :
      (s : List ℕ) → trim_func p s ≡ s → (trim_left p s ≡ s) × (trim_left p (reverse s) ≡ reverse s)
  unfolding trim_func
  trim_func_kept s h = (
    left,
    trim_left_kept (reverse s)
        (omega (arith, length-reverse s, whole, ap (λ x. length (trim_left p (reverse x))) left)),
  )
    where
      whole : length (trim_left p (reverse (trim_left p s))) ≡ length s
      whole = sym (length-reverse (trim_left p (reverse (trim_left p s)))) ∙ ap length h

      left : trim_left p s ≡ s
      left = trim_left_kept s (
          omega (
            arith,
            whole,
            length-reverse (trim_left p s),
            length-trim_left (reverse (trim_left p s)),
          ))

  kept_trim_func :
      (s : List ℕ) → trim_left p s ≡ s → trim_left p (reverse s) ≡ reverse s → trim_func p s ≡ s
  unfolding trim_func
  kept_trim_func s h k = rw (h, k) (reverse-reverse s)

  trim_left_none : (s : List ℕ) → all (λ c. not (p c)) s ≡ true → trim_left p s ≡ s
  unfolding trim_left
  trim_left_none [] h = refl
  trim_left_none (c ∷ s) h = ground arith

module _ (p : ℕ → Bool) where
  all-append : (s t : List ℕ) → all p s ≡ true → all p t ≡ true → all p (s ++ t) ≡ true
  all-append [] t h k = k
  all-append (c ∷ s) t h k = ground (arith, all-append s t)

  all-reverse : (s : List ℕ) → all p s ≡ true → all p (reverse s) ≡ true
  all-reverse [] h = refl
  all-reverse (c ∷ s) h =
      ap (all p) (reverse-cons c s)
      ∙ all-append (reverse s) (c ∷ []) (all-reverse s (ground arith)) (ground arith)

-- A text without a character of the set is not changed.
pub trim_func_none : (p : ℕ → Bool) (s : List ℕ) → all (λ c. not (p c)) s ≡ true → trim_func p s ≡ s
trim_func_none p s h =
    kept_trim_func p s (trim_left_none p s h)
      (trim_left_none p (reverse s) (all-reverse (λ c. not (p c)) s h))

module _ (p q : ℕ → Bool) (narrower : (c : ℕ) → q c ≡ true → p c ≡ true) where
  narrow_left : (s : List ℕ) → trim_left p s ≡ s → trim_left q s ≡ s
  unfolding trim_left
  narrow_left [] h = refl
  narrow_left (c ∷ s) h = elim (Bool-cases (p c)) [
    | inr n ↦ ground (arith, narrower c)
    | inl y ↦ absurd (omega (arith, length-trim_left p s, ap length (rw y at h)))
  ]

  -- Trimming a smaller set takes off no more.
  pub narrow_trim : (s : List ℕ) → trim_func p s ≡ s → trim_func q s ≡ s
  narrow_trim s h =
      let (l, r) = trim_func_kept p s h in
      kept_trim_func q s (narrow_left s l) (narrow_left (reverse s) r)
