-- ===== src/Text/Paths/Cleaning.antt =====
-- Which relative paths path.Clean leaves as they are.
use mathlib.Core.List.{
  reverse, reverse_aux, reverse-cons, reverse-reverse, append_assoc, append-nil,
}
use ani_model_service.Prelude.{
  ℕ, ◌≡◌, ◌≢◌, ◌↔◌, refl, sym, ap, ◌∙◌, ◌⊎◌, inl, inr, Bool, true, false, ◌||◌, List, [], ◌∷◌, ◌++◌,
  All, arith, Bool-cases,
}
use ani_model_service.Text.{is_empty, same}
use ani_model_service.Text.Trimming.{same_refl, same→eq}
use ani_model_service.Text.Paths.{
  dot, dot_dot, segments, join, pop, resolve, resolve_all, or_dot, clean, is_abs,
}
use ani_model_service.Text.Paths.Segments.{NoSlash, segments-NoSlash, segments-join, join-segments}

-- A segment that names an entry of its directory.
abbrev pub IsPlain : List ℕ → Type 0
IsPlain p = (p ≢ []) × (p ≢ dot) × (p ≢ dot_dot)

same_iff : (p q : List ℕ) → (same p q ≡ true) ↔ (p ≡ q)
same_iff p q = (same→eq p q, λ e. rw e (same_refl q))

empty_iff : (p : List ℕ) → (is_empty p ≡ true) ↔ (p ≡ [])
empty_iff [] = (λ h. refl, λ h. refl)
empty_iff (c ∷ p) = (λ h. absurd (cc), λ h. absurd (cc))

resolve_plain :
    (rooted : Bool) (stack : List (List ℕ)) (p : List ℕ)
    → IsPlain p
    → resolve rooted stack p ≡ p ∷ stack
unfolding resolve
resolve_plain rooted stack p h = ground (arith, empty_iff p, same_iff p dot, same_iff p dot_dot)

resolve_all_plain :
    (rooted : Bool) (stack ps : List (List ℕ))
    → All IsPlain ps
    → resolve_all rooted stack ps ≡ reverse ps ++ stack
unfolding resolve_all
resolve_all_plain rooted stack [] h = refl
resolve_all_plain rooted stack (p ∷ ps) (h, hs) =
    ap (λ s. resolve_all rooted s ps) (resolve_plain rooted stack p h)
    ∙ resolve_all_plain rooted (p ∷ stack) ps hs
    ∙ sym (append_assoc (reverse ps) (p ∷ []) stack)
    ∙ ap (λ x. x ++ stack) (sym (reverse-cons p ps))

-- The stack is plain, or its bottom is "..".
abbrev Bottom : List (List ℕ) → Type 0
Bottom stack = (init : List (List ℕ)) × (stack ≡ init ++ dot_dot ∷ [])

abbrev Shape : List (List ℕ) → Type 0
Shape stack = All NoSlash stack × (All IsPlain stack ⊎ Bottom stack)

Bottom-tail :
    (top : List ℕ) (stack : List (List ℕ)) → top ≢ dot_dot → Bottom (top ∷ stack) → Bottom stack
Bottom-tail top stack h ([], e) = absurd (h (ground arith))
Bottom-tail top stack h (x ∷ init, e) = (init, ground arith)

dots-NoSlash : NoSlash dot_dot
dots-NoSlash = ground arith

deeper : (p : List ℕ) (stack : List (List ℕ)) → Bottom stack → Bottom (p ∷ stack)
deeper p stack (init, e) = (p ∷ init, ap (◌∷◌ p) e)

pop-Shape : (stack : List (List ℕ)) → Shape stack → Shape (pop false stack)
pop-Shape [] h = ((dots-NoSlash, tt), inr ([], refl))
pop-Shape (top ∷ stack) (n, h) = elim (Bool-cases (same top dot_dot)) [
  | inl e ↦
      rw e ((dots-NoSlash, n), inr (deeper dot_dot (top ∷ stack) (again (same→eq top dot_dot e) h)))
  | inr e ↦ rw e (n.1, below (λ k. absurd (ground (arith, same_iff top dot_dot, e, k))) h)
]
  where
    again : top ≡ dot_dot → All IsPlain (top ∷ stack) ⊎ Bottom (top ∷ stack) → Bottom (top ∷ stack)
    again e (inl plain) = absurd (plain.0.2 e)
    again e (inr bottom) = bottom

    below :
        top ≢ dot_dot
        → All IsPlain (top ∷ stack) ⊎ Bottom (top ∷ stack)
        → All IsPlain stack ⊎ Bottom stack
    below h (inl plain) = inl plain.1
    below h (inr bottom) = inr (Bottom-tail top stack h bottom)

push-Shape :
    (stack : List (List ℕ)) (p : List ℕ) → NoSlash p → IsPlain p → Shape stack → Shape (p ∷ stack)
push-Shape stack p n h (ns, inl plain) = ((n, ns), inl (h, plain))
push-Shape stack p n h (ns, inr bottom) = ((n, ns), inr (deeper p stack bottom))

resolve-Shape :
    (stack : List (List ℕ)) (p : List ℕ) → NoSlash p → Shape stack → Shape (resolve false stack p)
unfolding resolve
resolve-Shape stack p n h = elim (Bool-cases (is_empty p || same p dot)) [
  | inl e ↦ rw e h
  | inr e ↦ elim (Bool-cases (same p dot_dot)) [
    | inl d ↦ rw (e, d) (pop-Shape stack h)
    | inr d ↦
        rw (e, d)
          (push-Shape stack p n (ground (arith, empty_iff p, same_iff p dot, same_iff p dot_dot)) h)
  ]
]

resolve_all-Shape :
    (ps stack : List (List ℕ)) → All NoSlash ps → Shape stack → Shape (resolve_all false stack ps)
unfolding resolve_all
resolve_all-Shape [] stack n h = h
resolve_all-Shape (p ∷ ps) stack (n, ns) h =
    resolve_all-Shape ps (resolve false stack p) ns (resolve-Shape stack p n h)

-- The text does not start with a slash and is none of "", "." and "../...".
abbrev pub IsRelative : List ℕ → Type 0
IsRelative s =
    (is_abs s ≡ false)
    × (s ≢ [])
    × (s ≢ dot)
    × ((rest : List (List ℕ)) → rest ≢ [] → segments s ≢ dot_dot ∷ rest)

All-reverse_aux :
    (P : List ℕ → Type 0) (ps acc : List (List ℕ))
    → All P ps
    → All P acc
    → All P (reverse_aux ps acc)
All-reverse_aux P [] acc h k = k
All-reverse_aux P (p ∷ ps) acc (h, hs) k = All-reverse_aux P ps (p ∷ acc) hs (h, k)

reverse_last : (init : List (List ℕ)) (p : List ℕ) → reverse (init ++ p ∷ []) ≡ p ∷ reverse init
reverse_last init p =
    ap (λ x. reverse (x ++ p ∷ [])) (sym (reverse-reverse init))
    ∙ ap reverse (sym (reverse-cons p (reverse init)))
    ∙ reverse-reverse (p ∷ reverse init)

or_dot_inv : (s t : List ℕ) → or_dot s ≡ t → t ≢ dot → s ≡ t
or_dot_inv [] t h k = absurd (k (sym h))
or_dot_inv (c ∷ s) t h k = h

-- The segments of a relative path that path.Clean leaves alone.
kept_segments :
    (s : List ℕ)
    → clean s ≡ s
    → IsRelative s
    → segments s ≡ reverse (resolve_all false [] (segments s))
unfolding clean
kept_segments s h (rooted, some_text, no_dot, up) =
    go (reverse stack) refl (or_dot_inv (join (reverse stack)) s (rw rooted at h) no_dot)
  where
    stack : List (List ℕ)
    stack = resolve_all false [] (segments s)

    go :
        (out : List (List ℕ))
        → reverse stack ≡ out
        → join (reverse stack) ≡ s
        → segments s ≡ reverse stack
    go [] e k = absurd (some_text (sym (unfold join in (ap join (sym e) ∙ k))))
    go (q ∷ qs) e k =
        ap segments (sym k)
        ∙ ap (λ x. segments (join x)) e
        ∙ segments-join q qs (
            rw e at (
              All-reverse_aux NoSlash stack []
                (resolve_all-Shape (segments s) [] (segments-NoSlash s) (tt, inl tt)).0 tt))
        ∙ sym e

clean_inv : (s : List ℕ) → clean s ≡ s → IsRelative s → (s ≡ dot_dot) ⊎ All IsPlain (segments s)
clean_inv s h r =
    go (resolve_all-Shape (segments s) [] (segments-NoSlash s) (tt, inl tt)).1 (kept_segments s h r)
  where
    stack : List (List ℕ)
    stack = resolve_all false [] (segments s)

    up :
        (rest : List (List ℕ))
        → segments s ≡ dot_dot ∷ rest
        → (s ≡ dot_dot) ⊎ All IsPlain (segments s)
    up [] e = inl (sym (join-segments s) ∙ unfold join in (ap join e))
    up (q ∷ qs) e = absurd (r.3 (q ∷ qs) (λ k. ground (arith, k)) e)

    go :
        All IsPlain stack ⊎ Bottom stack
        → segments s ≡ reverse stack
        → (s ≡ dot_dot) ⊎ All IsPlain (segments s)
    go (inl plain) e = inr (rw e (All-reverse_aux IsPlain stack [] plain tt))
    go (inr (init, b)) e = up (reverse init) (e ∙ ap reverse b ∙ reverse_last init dot_dot)

clean_plain : (s : List ℕ) → is_abs s ≡ false → s ≢ [] → All IsPlain (segments s) → clean s ≡ s
unfolding clean
clean_plain s rooted some_text plain =
    rw
      (
        rooted,
        resolve_all_plain false [] (segments s) plain,
        append-nil (reverse (segments s)),
        reverse-reverse (segments s),
        join-segments s,
      )
      (whole s some_text)
  where
    whole : (t : List ℕ) → t ≢ [] → or_dot t ≡ t
    whole [] h = absurd (h refl)
    whole (c ∷ t) h = refl

pub clean_iff :
    (s : List ℕ) → IsRelative s → (clean s ≡ s) ↔ ((s ≡ dot_dot) ⊎ All IsPlain (segments s))
clean_iff s r = (
  λ h. clean_inv s h r,
  λ h. elim h [ inl e ↦ rw e dots | inr plain ↦ clean_plain s r.0 r.1 plain ],
)
  where
    dots : clean dot_dot ≡ dot_dot
    dots = unfold clean segments resolve_all resolve join in refl
