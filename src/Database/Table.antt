-- ===== src/Database/Table.antt =====
-- Tables as lists of rows, and the three statement forms that the queries of
-- internal/data/postgres/model.sql.go use: SELECT of one row, UPDATE ... WHERE and INSERT.
pub mod Keyed
use mathlib.Core.Option
use mathlib.Core.Path.{subst}
use ani_model_service.Prelude.{
  ℕ, suc, ◌≤◌, ◌≡◌, refl, ap, ◌∙◌, Bool, true, false, ◌&&◌, Option, none, some, List, [], ◌∷◌,
  arith, if◌then◌else◌, All, any, Bool-cases, inl, inr,
}

module _ {ℓ} {A : Type ℓ} where
  -- SELECT ... WHERE p, read by QueryRow: the first row, or no rows.
  unfoldable pub find : (A → Bool) → List A → Option A
  find p [] = none
  find p (x ∷ xs) = if p x then some x else find p xs

  -- UPDATE ... SET f WHERE p.
  unfoldable pub update : (A → Bool) → (A → A) → List A → List A
  update p f [] = []
  update p f (x ∷ xs) = (if p x then f x else x) ∷ update p f xs

  -- The number of rows that a statement affects.
  unfoldable pub count : (A → Bool) → List A → ℕ
  count p [] = 0
  count p (x ∷ xs) = if p x then suc (count p xs) else count p xs

  -- SELECT ... WHERE p of many rows.
  unfoldable pub select : (A → Bool) → List A → List A
  select p [] = []
  select p (x ∷ xs) = if p x then x ∷ select p xs else select p xs

  pub find-holds : (p : A → Bool) (xs : List A) (a : A) → find p xs ≡ some a → p a ≡ true
  unfolding find
  find-holds p [] a h = ground arith
  find-holds p (x ∷ xs) a h = ground (arith, find-holds p xs a)

  -- A predicate on all rows holds of the row that is found.
  pub find-All {κ} :
      (P : A → Type κ) (p : A → Bool) (xs : List A) (a : A) → find p xs ≡ some a → All P xs → P a
  unfolding find
  find-All P p [] a h hs = ground arith
  find-All P p (x ∷ xs) a h hs = elim (Bool-cases (p x)) [
    | inl e ↦ found (rw e at h)
    | inr e ↦ find-All P p xs a (rw e at h) hs.1
  ]
    where
      found : some x ≡ some a → P a
      found q = let e : x ≡ a = cc in subst P e hs.0

  -- An update that leaves the key test alone acts on the row that is found.
  pub find-update :
      (q p : A → Bool) (f : A → A)
      → ((a : A) → p a ≡ true → q (f a) ≡ q a)
      → (xs : List A)
      → find q (update p f xs) ≡ Option.map (λ a. if p a then f a else a) (find q xs)
  unfolding find update
  find-update q p f k [] = refl
  find-update q p f k (x ∷ xs) = ground (arith, k x, find-update q p f k xs)

  -- An update whose condition no row meets changes nothing.
  pub update_none : (p : A → Bool) (f : A → A) (xs : List A) → count p xs ≡ 0 → update p f xs ≡ xs
  unfolding count update
  update_none p f [] h = refl
  update_none p f (x ∷ xs) h = ground (arith, update_none p f xs)

  -- A predicate that every affected row keeps is kept by the table.
  pub All-update {κ} :
      (P : A → Type κ) (p : A → Bool) (f : A → A)
      → ((a : A) → p a ≡ true → P a → P (f a))
      → (xs : List A) → All P xs
      → All P (update p f xs)
  unfolding update
  All-update P p f k [] h = tt
  All-update P p f k (x ∷ xs) h = (
    elim (Bool-cases (p x)) [ inl e ↦ rw e (k x e h.0) | inr e ↦ rw e h.0 ],
    All-update P p f k xs h.1,
  )

  pub find-count : (p : A → Bool) (xs : List A) → count p xs ≡ 0 → find p xs ≡ none
  unfolding find count
  find-count p [] h = refl
  find-count p (x ∷ xs) h = ground (arith, find-count p xs)

  -- A stronger condition affects no more rows.
  pub count-le :
      (p q : A → Bool)
      → ((a : A) → p a ≡ true → q a ≡ true)
      → (xs : List A) → count p xs ≤ count q xs
  unfolding count
  count-le p q k [] = omega arith
  count-le p q k (x ∷ xs) = ground (arith, k x, count-le p q k xs)

  -- Updating non-key columns leaves the number of rows of a key alone.
  pub count-update :
      (q p : A → Bool) (f : A → A)
      → ((a : A) → p a ≡ true → q (f a) ≡ q a)
      → (xs : List A) → count q (update p f xs) ≡ count q xs
  unfolding count update
  count-update q p f k [] = refl
  count-update q p f k (x ∷ xs) = ground (arith, k x, count-update q p f k xs)

  pub count_of_any : (p : A → Bool) (xs : List A) → any p xs ≡ false → count p xs ≡ 0
  unfolding count
  count_of_any p [] h = refl
  count_of_any p (x ∷ xs) h = ground (arith, count_of_any p xs)

  pub any_weaken :
      (p q : A → Bool)
      → ((a : A) → p a ≡ true → q a ≡ true)
      → (xs : List A) → any q xs ≡ false
      → any p xs ≡ false
  any_weaken p q k [] h = refl
  any_weaken p q k (x ∷ xs) h = ground (arith, k x, any_weaken p q k xs)

  pub All-map {κ ρ} :
      (P : A → Type κ) (Q : A → Type ρ)
      → ((a : A) → P a → Q a)
      → (xs : List A) → All P xs
      → All Q xs
  All-map P Q k [] h = tt
  All-map P Q k (x ∷ xs) h = (k x h.0, All-map P Q k xs h.1)
