-- ===== src/Rpc/Consistent.antt =====
-- When singleConsistentMetadataValue of cmd/ani-model-service/rpc_policy.go returns a value.
use ani_model_service.Prelude.{
  String, ◌≡◌, ◌≢◌, ◌↔◌, ◌⊎◌, inl, inr, refl, false, ok, err, List, [], ◌∷◌, All, arith, eq_iff,
}
use ani_model_service.Errors.{Res}
use ani_model_service.Rpc.{Headers}
use ani_model_service.Rpc.Metadata.{
  single_metadata_value, merge_values, merged, single_consistent_metadata_value,
}

-- The key has no value, or exactly this one.
abbrev pub Agrees : Headers → String → String → Type 0
Agrees md v key =
    (single_metadata_value md key false ≡ ok "") ⊎ (single_metadata_value md key false ≡ ok v)

abbrev pub Present : Headers → String → List String → Type 0
Present md v [] = ⊥
Present md v (key ∷ keys) = (single_metadata_value md key false ≡ ok v) ⊎ Present md v keys

module _ (md : Headers) (v : String) (some_value : v ≢ "") where
  abbrev Agreed : String → List String → Type 0
  Agreed value keys =
      ((value ≡ "") ⊎ (value ≡ v)) × All (Agrees md v) keys × ((value ≡ v) ⊎ Present md v keys)

  merge_values-cons :
      (key : String) (keys : List String) (value : String) (r : Res String)
      → single_metadata_value md key false ≡ r
      → ((w : String) → (merge_values md w keys ≡ ok v) ↔ Agreed w keys)
      → (merge_values md value (key ∷ keys) ≡ ok v) ↔ Agreed value (key ∷ keys)
  unfolding merge_values
  merge_values-cons key keys value (err e) h ih =
      rw h (λ k. absurd (cc), λ k. absurd (ground arith))
  merge_values-cons key keys value (ok c) h ih =
      rw h
        (ground (arith, eq_iff c "", eq_iff value "", eq_iff value c, eq_iff v "", ih value, ih c))

  merge_values_lem :
      (keys : List String) (value : String)
      → (merge_values md value keys ≡ ok v) ↔ Agreed value keys
  unfolding merge_values
  merge_values_lem [] value = ground (arith, eq_iff value "", eq_iff v "")
  merge_values_lem (key ∷ keys) value =
      merge_values-cons key keys value (single_metadata_value md key false) refl
        (λ w. merge_values_lem keys w)

-- The value that is returned is never empty.
pub merge_values_some :
    (md : Headers) (keys : List String) (value v : String)
    → merge_values md value keys ≡ ok v
    → v ≢ ""
unfolding merge_values
merge_values_some md [] value v h = ground (arith, eq_iff value "", eq_iff v "")
merge_values_some md (key ∷ keys) value v h =
    step (single_metadata_value md key false) h (λ w. merge_values_some md keys w v)
  where
    step :
        (r : Res String)
        → (elim r [
          | err e ↦ err e
          | ok candidate ↦ elim (merged value candidate) [
            | err e ↦ err e
            | ok next ↦ merge_values md next keys
          ]
        ])
          ≡ ok v
        → ((w : String) → merge_values md w keys ≡ ok v → v ≢ "")
        → v ≢ ""
    step (err e) k ih = absurd (cc)
    step (ok c) k ih = go (merged value c) k ih
      where
        go :
            (m : Res String)
            → (elim m [ err e ↦ err e | ok next ↦ merge_values md next keys ]) ≡ ok v
            → ((w : String) → merge_values md w keys ≡ ok v → v ≢ "")
            → v ≢ ""
        go (err e) k ih = absurd (cc)
        go (ok w) k ih = ih w k

-- singleConsistentMetadataValue returns a value exactly when the value is not empty, each of the
-- keys has no value or exactly this one, and one of them has it.
pub single_consistent_iff :
    (md : Headers) (keys : List String) (v : String)
    → (single_consistent_metadata_value md keys ≡ ok v)
      ↔ ((v ≢ "") × All (Agrees md v) keys × Present md v keys)
unfolding single_consistent_metadata_value
single_consistent_iff md keys v = (
  λ h.
      let some_value = merge_values_some md keys "" v h in
      let agreed = (merge_values_lem md v some_value keys "").0 h in
      (some_value, agreed.1, ground arith),
  λ (some_value, agree, present).
      (merge_values_lem md v some_value keys "").1 (inl refl, agree, inr present),
)
