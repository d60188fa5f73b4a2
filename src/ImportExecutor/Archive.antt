-- ===== src/ImportExecutor/Archive.antt =====
-- The repository paths of an archive: validateArchivePath, bundleFormat and manifestRevision of
-- internal/worker/import_executor.go.
use ani_model_service.Prelude.{
  ℕ, String, Bool, true, false, ◌||◌, not, ok, err, ◌==◌, if◌then◌else◌, List, [], ◌∷◌, any, ◌≡◌,
  ◌≢◌, ◌↔◌, ◌⊎◌, inl, inr, refl, sym, ap, ◌∙◌, All, arith, ◌++◌, Bool-cases,
}
use ani_model_service.Errors.{Res, Error}
use ani_model_service.Text.{codes, same, has_prefix}
use ani_model_service.Text.Trimming.{same→eq, same_refl}
use ani_model_service.Text.Paths.{
  clean, resolve, resolve_all, is_abs, segments, dot, dot_dot, slash, join,
}
use ani_model_service.Text.Paths.Segments.{join-segments}
use ani_model_service.Text.Paths.Cleaning.{IsPlain, IsRelative, clean_iff}

abbrev pub backslash : ℕ
backslash = b'\\'

abbrev pub up_prefix : List ℕ
up_prefix = b'.' ∷ b'.' ∷ b'/' ∷ []

abbrev pub is_unsafe : List ℕ → Bool
is_unsafe s =
    same s []
    || (any (λ c. c == 0) s
        || (any (λ c. c == backslash) s
            || (is_abs s || (not (same (clean s) s) || (same s dot || has_prefix up_prefix s)))))

-- validateArchivePath
unfoldable pub validate_archive_path : String → Res (Unit {0})
validate_archive_path name = if is_unsafe (codes name) then err Error.importer_provider else ok tt

up_prefix_text :
    (s : List ℕ) → has_prefix up_prefix s ≡ true → (t : List ℕ) × (s ≡ dot_dot ++ slash ∷ t)
unfolding has_prefix
up_prefix_text [] h = absurd (cc)
up_prefix_text (c ∷ []) h = absurd (ground (arith, h))
up_prefix_text (c ∷ d ∷ []) h = absurd (ground (arith, h))
up_prefix_text (c ∷ d ∷ e ∷ t) h =
    let p : c ≡ b'.' = ground arith in
    let q : d ≡ b'.' = ground arith in
    let r : e ≡ slash = ground arith in (t, λ i. p i ∷ q i ∷ r i ∷ t)

-- A path that starts with "../" has ".." as the first of several segments.
up_prefix-segments :
    (s : List ℕ)
    → has_prefix up_prefix s ≡ true
    → (rest : List (List ℕ)) × (segments s ≡ dot_dot ∷ rest)
up_prefix-segments s h =
    let (t, e) = up_prefix_text s h in (segments t, rw e (unfold segments in refl))

segments-up_prefix :
    (s : List ℕ) (rest : List (List ℕ))
    → rest ≢ []
    → segments s ≡ dot_dot ∷ rest
    → has_prefix up_prefix s ≡ true
segments-up_prefix s [] h e = absurd (h refl)
segments-up_prefix s (q ∷ qs) h e =
    rw (sym (join-segments s) ∙ ap join e) (unfold join has_prefix in refl)

-- The characters that a path may not hold.
abbrev pub IsClean : List ℕ → Type 0
IsClean s = (any (λ c. c == 0) s ≡ false) × (any (λ c. c == backslash) s ≡ false)

plain_abs : (s : List ℕ) → All IsPlain (segments s) → is_abs s ≡ false
unfolding segments
plain_abs [] h = refl
plain_abs (c ∷ s) h = elim (Bool-cases (c == slash)) [
  | inl e ↦ absurd ((rw e at h).0.0 refl)
  | inr e ↦ e
]

plain_some : (s : List ℕ) → All IsPlain (segments s) → s ≢ []
unfolding segments
plain_some [] h e = h.0.0 refl
plain_some (c ∷ s) h e = ground (arith, e)

plain_no_dot : (s : List ℕ) → All IsPlain (segments s) → s ≢ dot
unfolding segments
plain_no_dot s h e = (rw e at h).0.1 refl

plain_up : (s : List ℕ) → All IsPlain (segments s) → has_prefix up_prefix s ≡ false
plain_up s h = elim (Bool-cases (has_prefix up_prefix s)) [
  | inl e ↦ let (rest, k) = up_prefix-segments s e in absurd ((rw k at h).0.2 refl)
  | inr e ↦ e
]

plain-IsRelative : (s : List ℕ) → All IsPlain (segments s) → IsRelative s
plain-IsRelative s h =
    (plain_abs s h, plain_some s h, plain_no_dot s h, λ rest k e. (rw e at h).0.2 refl)

same_iff : (p q : List ℕ) → (same p q ≡ true) ↔ (p ≡ q)
same_iff p q = (same→eq p q, λ e. rw e (same_refl q))

-- The parent directory passes every test.
dots_safe : is_unsafe dot_dot ≡ false
unfolding clean segments resolve_all resolve join has_prefix
dots_safe = refl

is_unsafe_iff :
    (s : List ℕ) → (is_unsafe s ≡ false) ↔ (IsClean s × ((s ≡ dot_dot) ⊎ All IsPlain (segments s)))
is_unsafe_iff s = (
  λ h.
      let up : has_prefix up_prefix s ≡ false = ground arith in
      let relative : IsRelative s = (
        ground arith,
        ground (arith, same_iff s []),
        ground (arith, same_iff s dot),
        λ rest k e. absurd (ground (arith, segments-up_prefix s rest k e, up)),
      ) in
      let kept : clean s ≡ s = ground (arith, same_iff (clean s) s) in
      ((ground arith, ground arith), (clean_iff s relative).0 kept),
  λ (chars, h). elim h [
    | inl e ↦ rw e dots_safe
    | inr plain ↦
        let kept : clean s ≡ s = (clean_iff s (plain-IsRelative s plain)).1 (inr plain) in
        ground (
          arith,
          same_iff s [],
          same_iff s dot,
          same_iff (clean s) s,
          plain_abs s plain,
          plain_some s plain,
          plain_no_dot s plain,
          plain_up s plain,
        )
  ],
)

-- validateArchivePath accepts a path exactly when it holds no NUL and no backslash and it is the
-- parent directory .., or none of its segments between slashes is empty, . or ..
pub validate_archive_path_iff :
    (name : String)
    → (validate_archive_path name ≡ ok tt)
      ↔ (IsClean (codes name) × ((codes name ≡ dot_dot) ⊎ All IsPlain (segments (codes name))))
unfolding validate_archive_path
validate_archive_path_iff name = (
  λ h. (is_unsafe_iff (codes name)).0 (ground arith),
  λ h. let safe = (is_unsafe_iff (codes name)).1 h in rw safe refl,
)
