-- ===== src/Deletion/Batches.antt =====
-- The batches of reference checks of internal/data/postgres/deletion_store.go.
use ani_model_service.Prelude.{
  ℕ, zero, suc, ◌≤◌, String, ◌≡◌, refl, ap, ◌∙◌, Bool, true, false, ◌||◌, ok, err, if◌then◌else◌,
  List, [], ◌∷◌, ◌++◌, take, drop, length, any, All, arith, take-append-drop, length-drop,
  Bool-cases, inl, inr,
}
use ani_model_service.Errors.{Res, Error}
use ani_model_service.Deletion
use ani_model_service.Deletion.{ReferenceChecker, batches, check_batches, check_references}

abbrev pub joined : List (List String) → List String
joined [] = []
joined (b ∷ bs) = b ++ joined bs

any-append : (p : String → Bool) (xs ys : List String) → any p (xs ++ ys) ≡ (any p xs || any p ys)
any-append p [] ys = refl
any-append p (x ∷ xs) ys = ground (arith, any-append p xs ys)

-- The slices cover the ids, in order.
joined-batches : (n : ℕ) (ids : List String) → length ids ≤ n → joined (batches n ids) ≡ ids
unfolding batches
joined-batches zero [] h = refl
joined-batches zero (id ∷ ids) h = absurd (omega (arith, h))
joined-batches (suc n) [] h = refl
joined-batches (suc n) (id ∷ ids) h =
    ap (◌++◌ (take 256 (id ∷ ids)))
      (joined-batches n (drop 256 (id ∷ ids)) (omega (arith, h, length-drop 256 (id ∷ ids))))
    ∙ take-append-drop 256 (id ∷ ids)

take-le : (n : ℕ) (ids : List String) → length (take n ids) ≤ n
take-le zero ids = omega arith
take-le (suc n) [] = omega arith
take-le (suc n) (id ∷ ids) = omega (arith, take-le n ids)

small : (n : ℕ) (ids : List String) → All (λ batch. length batch ≤ 256) (batches n ids)
unfolding batches
small zero ids = tt
small (suc n) [] = tt
small (suc n) (id ∷ ids) = (take-le 256 (id ∷ ids), small n (drop 256 (id ∷ ids)))

module _ (refs : ReferenceChecker) (tenant : String) (is_active : String → Bool)
    (answers : (batch : List String) → refs tenant batch ≡ ok (any is_active batch)) where
  check_cons :
      (b : List String) (bs : List (List String))
      → check_batches refs tenant (b ∷ bs)
        ≡ (if any is_active b then err Error.model_in_use else check_batches refs tenant bs)
  unfolding check_batches
  check_cons b bs = go (refs tenant b) (any is_active b) (answers b)
    where
      go :
          (r : Res Bool) (active : Bool)
          → r ≡ ok active
          → elim (Deletion.check_result r) [ err e ↦ err e | ok u ↦ check_batches refs tenant bs ]
            ≡ (if active then err Error.model_in_use else check_batches refs tenant bs)
      go r true e = rw e refl
      go r false e = rw e refl

  checked :
      (bs : List (List String))
      → check_batches refs tenant bs
        ≡ (if any is_active (joined bs) then err Error.model_in_use else ok tt)
  unfolding check_batches
  checked [] = refl
  checked (b ∷ bs) = elim (Bool-cases (any is_active b)) [
    | inl e ↦ check_cons b bs ∙ rw (any-append is_active b (joined bs), e) refl
    | inr e ↦ check_cons b bs ∙ rw (any-append is_active b (joined bs), e) (checked bs)
  ]

  -- With a checker that answers for every id of a batch, the checks by batches refuse exactly when
  -- some id is active.
  pub check_references_lem :
      (ids : List String)
      → check_references refs tenant ids
        ≡ (if any is_active ids then err Error.model_in_use else ok tt)
  unfolding check_references
  check_references_lem ids =
      checked (batches (length ids) ids)
      ∙ ap (λ xs. if any is_active xs then err Error.model_in_use else ok tt)
          (joined-batches (length ids) ids (omega arith))

-- The loop of a protected deletion asks about every id exactly once and in order, and about at
-- most 256 at a time.
batches_lem :
    (ids : List String)
    → (joined (batches (length ids) ids) ≡ ids)
      × All (λ batch. length batch ≤ 256) (batches (length ids) ids)
batches_lem ids = (joined-batches (length ids) ids (omega arith), small (length ids) ids)
