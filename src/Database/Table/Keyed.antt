-- ===== src/Database/Table/Keyed.antt =====
-- Statements on a key: what they do when one row has it.
use ani_model_service.Prelude.{
  ◌≤◌, ◌≡◌, refl, ap, ◌∙◌, Bool, true, false, ◌&&◌, none, some, List, [], ◌∷◌, arith, if◌then◌else◌,
  any, Bool-cases, inl, inr,
}
use ani_model_service.Database.Table.{find, update, count, update_none, count-le, find-count}

and_left : (a b : Bool) → (a && b) ≡ true → a ≡ true
and_left a b h = ground arith

module _ {ℓ} {A : Type ℓ} where
  -- With one row of the key that also meets the condition, the condition may be left out.
  pub update_keyed :
      (q c : A → Bool) (f : A → A) (xs : List A) (a : A)
      → count q xs ≤ 1
      → find q xs ≡ some a
      → c a ≡ true
      → update (λ x. q x && c x) f xs ≡ update q f xs
  unfolding count find update
  update_keyed q c f [] a u h k = refl
  update_keyed q c f (x ∷ xs) a u h k = elim (Bool-cases (q x)) [
    | inl e ↦ ground (
      arith,
      update_none q f xs,
      update_none (λ y. q y && c y) f xs,
      count-le (λ y. q y && c y) q (λ y i. and_left (q y) (c y) i) xs,
    )
    | inr e ↦ ground (arith, update_keyed q c f xs a)
  ]

  -- With one row of the key, the row found decides whether a keyed statement affects it.
  pub count_of_find :
      (q c : A → Bool) (xs : List A)
      → count q xs ≤ 1
      → count (λ a. q a && c a) xs ≡ elim (find q xs) [ none ↦ 0 | some a ↦ if c a then 1 else 0 ]
  unfolding count find
  count_of_find q c [] h = refl
  count_of_find q c (x ∷ xs) h = ground (
    arith,
    count_of_find q c xs,
    find-count q xs,
    count-le (λ a. q a && c a) q (λ a e. and_left (q a) (c a) e) xs,
  )

  -- A keyed statement, with one row of the key: it affects that row if the row meets the
  -- condition, and else no row.
  pub keyed_statement :
      (q c : A → Bool) (f : A → A) (xs : List A) (a : A)
      → count q xs ≤ 1
      → find q xs ≡ some a
      → (count (λ x. q x && c x) xs ≡ (if c a then 1 else 0))
        × (update (λ x. q x && c x) f xs ≡ (if c a then update q f xs else xs))
  keyed_statement q c f xs a u h = elim (Bool-cases (c a)) [
    | inl e ↦ rw e (n ∙ ap (λ b. if b then 1 else 0) e, update_keyed q c f xs a u h e)
    | inr e ↦
        let z : count (λ x. q x && c x) xs ≡ 0 = n ∙ ap (λ b. if b then 1 else 0) e in
        rw e (z, update_none (λ x. q x && c x) f xs z)
  ]
    where
      n : count (λ x. q x && c x) xs ≡ (if c a then 1 else 0)
      n = count_of_find q c xs u ∙ ground (arith, h)

  -- With one row of the key, a keyed SELECT finds it if it meets the condition.
  pub find_keyed :
      (q c : A → Bool) (xs : List A) (a : A)
      → count q xs ≤ 1
      → find q xs ≡ some a
      → find (λ x. q x && c x) xs ≡ (if c a then some a else none)
  unfolding count find
  find_keyed q c [] a u h = ground arith
  find_keyed q c (x ∷ xs) a u h = elim (Bool-cases (q x)) [
    | inl e ↦ ground (
      arith,
      find-count (λ y. q y && c y) xs,
      count-le (λ y. q y && c y) q (λ y i. and_left (q y) (c y) i) xs,
    )
    | inr e ↦ ground (arith, find_keyed q c xs a)
  ]

  none_left : (p : A → Bool) (xs : List A) → count p xs ≡ 0 → any p xs ≡ false
  unfolding count
  none_left p [] h = refl
  none_left p (x ∷ xs) h = ground (arith, none_left p xs)

  -- With one row of the key, EXISTS with the key and a condition is about that row.
  pub any_keyed :
      (q c : A → Bool) (xs : List A)
      → count q xs ≤ 1
      → any (λ x. q x && c x) xs ≡ true
      → (a : A) × (find q xs ≡ some a) × (c a ≡ true)
  unfolding count find
  any_keyed q c [] u h = ground arith
  any_keyed q c (x ∷ xs) u h = elim (Bool-cases (q x)) [
    | inl e ↦ (
      x,
      rw e refl,
      ground (
        arith,
        none_left (λ y. q y && c y) xs,
        count-le (λ y. q y && c y) q (λ y i. and_left (q y) (c y) i) xs,
      ),
    )
    | inr e ↦ let (a, h₁, h₂) = any_keyed q c xs (ground arith) (ground arith) in (a, rw e h₁, h₂)
  ]
