-- ===== src/Listing/Order.antt =====
-- ORDER BY created_at DESC, id DESC of the list statements of internal/data/postgres/model.sql.go:
-- what the order keeps, and how a boundary cuts it.
use ani_model_service.Prelude.{
  suc, ◌≡◌, ◌≢◌, refl, ap, ◌∙◌, Bool, true, false, ◌&&◌, List, [], ◌∷◌, ◌++◌, All, arith,
  Bool-cases, inl, inr, length, if◌then◌else◌,
}
use ani_model_service.Database.Table.{select, count}
use ani_model_service.Listing.{Position, precedes, place, newest_first}

precedes_trans :
    (a b c : Position) → precedes a b ≡ true → precedes b c ≡ true → precedes a c ≡ true
precedes_trans a b c h k = ground arith

precedes_weaken :
    (a b c : Position) → precedes a b ≡ false → precedes a c ≡ true → precedes b c ≡ true
precedes_weaken a b c h k = ground arith

precedes_irrefl : (a : Position) → precedes a a ≡ false
precedes_irrefl a = ground arith

precedes_asym : (a b : Position) → precedes a b ≡ true → precedes b a ≡ false
precedes_asym a b h = ground arith

precedes_total : (a b : Position) → b ≢ a → precedes a b ≡ false → precedes b a ≡ true
precedes_total a b n h = elim (Bool-cases (precedes b a)) [
  | inl e ↦ e
  | inr e ↦
      let times : b.0 ≡ a.0 = ground arith in
      let ids : b.1 ≡ a.1 = ground arith in absurd (n (λ i. (times i, ids i)))
]

module _ {A : Type 0} where
  pub select-select :
      (p q : A → Bool) (xs : List A) → select (λ x. p x && q x) xs ≡ select q (select p xs)
  unfolding select
  select-select p q [] = refl
  select-select p q (x ∷ xs) = ground (arith, select-select p q xs)

  pub length-select : (p : A → Bool) (xs : List A) → length (select p xs) ≡ count p xs
  unfolding select count
  length-select p [] = refl
  length-select p (x ∷ xs) = ground (arith, length-select p xs)

  pub count-select :
      (p q : A → Bool) (xs : List A) → count q (select p xs) ≡ count (λ x. p x && q x) xs
  unfolding select count
  count-select p q [] = refl
  count-select p q (x ∷ xs) = ground (arith, count-select p q xs)

  pub All-select {κ} :
      (P : A → Type κ) (p : A → Bool) (xs : List A) → All P xs → All P (select p xs)
  unfolding select
  All-select P p [] h = tt
  All-select P p (x ∷ xs) h = elim (Bool-cases (p x)) [
    | inl e ↦ rw e (h.0, All-select P p xs h.1)
    | inr e ↦ rw e (All-select P p xs h.1)
  ]

module _ {A : Type 0} (at : A → Position) where
  -- No two rows have the same position.
  abbrev pub IsDistinct : List A → Type 0
  IsDistinct [] = Unit
  IsDistinct (x ∷ xs) = All (λ y. at y ≢ at x) xs × IsDistinct xs

  -- Each row is newer than all rows after it.
  abbrev pub Descends : List A → Type 0
  Descends [] = Unit
  Descends (x ∷ xs) = All (λ y. precedes (at y) (at x) ≡ true) xs × Descends xs

  count-place : (q : A → Bool) (x : A) (ys : List A) → count q (place at x ys) ≡ count q (x ∷ ys)
  unfolding place count
  count-place q x [] = refl
  count-place q x (y ∷ ys) = ground (arith, count-place q x ys)

  count_next :
      (q : A → Bool) (x : A) (xs : List A)
      → count q (newest_first at xs) ≡ count q xs
      → count q (place at x (newest_first at xs)) ≡ count q (x ∷ xs)
  unfolding count
  count_next q x xs h = count-place q x (newest_first at xs) ∙ ground (arith, h)

  -- The order loses no row and adds none.
  pub count-newest_first : (q : A → Bool) (xs : List A) → count q (newest_first at xs) ≡ count q xs
  unfolding newest_first
  count-newest_first q [] = refl
  count-newest_first q (x ∷ xs) = count_next q x xs (count-newest_first q xs)

  All-place {κ} : (P : A → Type κ) (x : A) (ys : List A) → P x → All P ys → All P (place at x ys)
  unfolding place
  All-place P x [] h k = (h, tt)
  All-place P x (y ∷ ys) h k = elim (Bool-cases (precedes (at x) (at y))) [
    | inl e ↦ rw e (k.0, All-place P x ys h k.1)
    | inr e ↦ rw e (h, k)
  ]

  pub All-newest_first {κ} : (P : A → Type κ) (xs : List A) → All P xs → All P (newest_first at xs)
  unfolding newest_first
  All-newest_first P [] h = tt
  All-newest_first P (x ∷ xs) h = All-place P x (newest_first at xs) h.0 (All-newest_first P xs h.1)

  below :
      (x y : A) (zs : List A)
      → precedes (at y) (at x) ≡ true
      → All (λ z. precedes (at z) (at y) ≡ true) zs
      → All (λ z. precedes (at z) (at x) ≡ true) zs
  below x y [] h k = tt
  below x y (z ∷ zs) h k = (precedes_trans (at z) (at y) (at x) k.0 h, below x y zs h k.1)

  place-Descends :
      (x : A) (ys : List A) → All (λ y. at y ≢ at x) ys → Descends ys → Descends (place at x ys)
  unfolding place
  place-Descends x [] h k = (tt, tt)
  place-Descends x (y ∷ ys) h k = elim (Bool-cases (precedes (at x) (at y))) [
    | inl e ↦
        rw e
          (All-place (λ z. precedes (at z) (at y) ≡ true) x ys e k.0, place-Descends x ys h.1 k.1)
    | inr e ↦
        let older = precedes_total (at x) (at y) h.0 e in rw e ((older, below x y ys older k.0), k)
  ]

  pub newest_first-Descends : (xs : List A) → IsDistinct xs → Descends (newest_first at xs)
  unfolding newest_first
  newest_first-Descends [] h = tt
  newest_first-Descends (x ∷ xs) h =
      place-Descends x (newest_first at xs) (All-newest_first (λ y. at y ≢ at x) xs h.0)
        (newest_first-Descends xs h.1)

  pub select-IsDistinct : (p : A → Bool) (xs : List A) → IsDistinct xs → IsDistinct (select p xs)
  unfolding select
  select-IsDistinct p [] h = tt
  select-IsDistinct p (x ∷ xs) h = elim (Bool-cases (p x)) [
    | inl e ↦ rw e (All-select (λ y. at y ≢ at x) p xs h.0, select-IsDistinct p xs h.1)
    | inr e ↦ rw e (select-IsDistinct p xs h.1)
  ]

  select-place :
      (k : Position) (x : A) (ys : List A)
      → select (λ y. precedes (at y) k) (place at x ys) ≡ (
          if precedes (at x) k
          then place at x (select (λ y. precedes (at y) k) ys)
          else select (λ y. precedes (at y) k) ys)
  unfolding select place
  select-place k x [] = ground arith
  select-place k x (y ∷ ys) =
      ground (
        arith,
        precedes_trans (at x) (at y) k,
        precedes_weaken (at x) (at y) k,
        select-place k x ys,
      )

  -- A boundary may be applied before or after the order.
  pub select-newest_first :
      (k : Position) (xs : List A)
      → select (λ y. precedes (at y) k) (newest_first at xs)
        ≡ newest_first at (select (λ y. precedes (at y) k) xs)
  unfolding select newest_first
  select-newest_first k [] = refl
  select-newest_first k (x ∷ xs) =
      ground (arith, select-place k x (newest_first at xs), select-newest_first k xs)

  select-All :
      (m : A) (ys : List A)
      → All (λ y. precedes (at y) (at m) ≡ true) ys
      → select (λ y. precedes (at y) (at m)) ys ≡ ys
  unfolding select
  select-All m [] h = refl
  select-All m (y ∷ ys) h = rw h.0 (ap (◌∷◌ y) (select-All m ys h.1))

  All-middle {κ} : (P : A → Type κ) (xs : List A) (m : A) (ys : List A) → All P (xs ++ m ∷ ys) → P m
  All-middle P [] m ys h = h.0
  All-middle P (x ∷ xs) m ys h = All-middle P xs m ys h.1

  -- The position of a row cuts off the rows up to it.
  pub select_cut :
      (front : List A) (m : A) (rest : List A)
      → Descends (front ++ m ∷ rest)
      → select (λ y. precedes (at y) (at m)) (front ++ m ∷ rest) ≡ rest
  unfolding select
  select_cut [] m rest h = rw (precedes_irrefl (at m)) (select-All m rest h.0)
  select_cut (x ∷ front) m rest h =
      rw
        (precedes_asym (at m) (at x)
          (All-middle (λ y. precedes (at y) (at x) ≡ true) front m rest h.0))
        (select_cut front m rest h.1)

  length-place : (x : A) (ys : List A) → length (place at x ys) ≡ suc (length ys)
  unfolding place
  length-place x [] = refl
  length-place x (y ∷ ys) = ground (arith, length-place x ys)

  pub length-newest_first : (xs : List A) → length (newest_first at xs) ≡ length xs
  unfolding newest_first
  length-newest_first [] = refl
  length-newest_first (x ∷ xs) =
      length-place x (newest_first at xs) ∙ ap suc (length-newest_first xs)
