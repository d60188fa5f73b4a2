-- ===== src/Model/Validation.antt =====
-- What the checks of internal/biz/model/model.go accept.
use ani_model_service.Prelude.{
  ℕ, ◌≤◌, ◌<◌, String, ◌≡◌, refl, ◌↔◌, ◌⊎◌, ◌≢◌, inl, inr, true, false, not, ◌&&◌, List, [], ◌∷◌,
  all, ok, arith, ◌==◌, eq_iff, str_eq, Bool-cases, ap, ◌∙◌,
}
use ani_model_service.Text.{
  codes, byte_length, trim_func, trim_space, is_space, same, is_blank, is_empty,
}
use ani_model_service.Text.Trimming.{same_refl, same→eq, trim_func_none, narrow_trim}
use ani_model_service.Model.{
  check_name_chars, is_name_char, validate_model_name, validate_recommended_image,
}

check_name_chars_iff : (s : List ℕ) → (check_name_chars s ≡ ok tt) ↔ (all is_name_char s ≡ true)
unfolding check_name_chars
check_name_chars_iff [] = (λ h. refl, λ h. refl)
check_name_chars_iff (c ∷ s) = (
  λ h. ground (arith, (check_name_chars_iff s).0),
  λ h. ground (arith, (check_name_chars_iff s).1),
)

no_space : (s : List ℕ) → all is_name_char s ≡ true → all (λ c. not (c == b' ')) s ≡ true
no_space [] h = refl
no_space (c ∷ s) h = ground (arith, no_space s)

-- A model name is accepted exactly when it has 1 to 63 bytes and its characters are lower-case
-- letters, digits, dots and dashes.
validate_model_name_iff :
    (name : String)
    → (validate_model_name name ≡ ok tt)
      ↔ ((0 < byte_length name) × (byte_length name ≤ 63) × (all is_name_char (codes name) ≡ true))
unfolding validate_model_name
validate_model_name_iff name = (
  λ h. (ground arith, ground arith, (check_name_chars_iff (codes name)).0 (ground arith)),
  λ h.
      let chars : check_name_chars (codes name) ≡ ok tt =
        (check_name_chars_iff (codes name)).1 h.2 in
      ground (arith, trimmed h.2),
)
  where
    trimmed :
        all is_name_char (codes name) ≡ true
        → same (trim_func (λ c. c == b' ') (codes name)) (codes name) ≡ true
    trimmed k =
        ap (λ t. same t (codes name))
          (trim_func_none (λ c. c == b' ') (codes name) (no_space (codes name) k))
        ∙ same_refl (codes name)

-- The CHECK of model_versions and trained_artifact_registrations (migrations/000010):
-- btrim strips spaces only.
abbrev pub ImagePair : String → String → Type 0
ImagePair id scope =
    ((id ≡ "") × (scope ≡ ""))
    ⊎ ((codes id ≢ [])
        × (trim_func (λ c. c == b' ') (codes id) ≡ codes id)
        × ((scope ≡ "platform") ⊎ (scope ≡ "tenant")))

-- A recommended image that the service accepts meets the CHECK of the tables, so a validated
-- request is not refused by the database for its image.
validate_recommended_image-ImagePair :
    (id scope : String) → validate_recommended_image id scope ≡ ok tt → ImagePair id scope
unfolding validate_recommended_image
validate_recommended_image-ImagePair id scope h =
    elim (Bool-cases (str_eq id "" && str_eq scope "")) [
      | inl e ↦ inl (ground (arith, eq_iff id "", eq_iff scope ""))
      | inr e ↦ inr (
        λ k. cc (blank k, not_blank e),
        narrow_trim is_space (λ c. c == b' ') space (codes id) (same→eq _ _ (kept e)),
        ground (arith, eq_iff scope "platform", eq_iff scope "tenant"),
      )
    ]
  where
    space : (c : ℕ) → (c == b' ') ≡ true → is_space c ≡ true
    space c k = unfold is_space in ground arith

    blank : codes id ≡ [] → is_blank id ≡ true
    blank k = unfold is_blank in ap (λ s. is_empty (trim_func is_space s)) k

    not_blank : (str_eq id "" && str_eq scope "") ≡ false → is_blank id ≡ false
    not_blank e = ground arith

    kept : (str_eq id "" && str_eq scope "") ≡ false → same (trim_space id) (codes id) ≡ true
    kept e = ground arith
