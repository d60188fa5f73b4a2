-- ===== src/Text/Paths/Segments.antt =====
-- Which relative paths path.Clean leaves as they are.
use ani_model_service.Prelude.{
  ℕ, ◌≡◌, ◌≢◌, refl, ap, ◌∙◌, inl, inr, ◌==◌, if◌then◌else◌, List, [], ◌∷◌, ◌++◌, All, arith,
  Bool-cases,
}
use ani_model_service.Text.Paths.{slash, put_first, segments, join}

abbrev pub NoSlash : List ℕ → Type 0
NoSlash [] = Unit
NoSlash (c ∷ s) = (c ≢ slash) × NoSlash s

pub segments-NoSlash : (s : List ℕ) → All NoSlash (segments s)
unfolding segments
segments-NoSlash [] = (tt, tt)
segments-NoSlash (c ∷ s) = step (segments s) (segments-NoSlash s)
  where
    step :
        (r : List (List ℕ))
        → All NoSlash r
        → All NoSlash (if c == slash then [] ∷ r else put_first c r)
    step [] h = ground arith
    step (p ∷ ps) h = ground arith

pub segments-cons : (s : List ℕ) → (p : List ℕ) × (ps : List (List ℕ)) × (segments s ≡ p ∷ ps)
unfolding segments
segments-cons [] = ([], [], refl)
segments-cons (c ∷ s) =
    let (p, ps, e) = segments-cons s in
    elim (Bool-cases (c == slash)) [
      | inl h ↦ ([], p ∷ ps, rw (h, e) refl)
      | inr h ↦ (c ∷ p, ps, rw (h, e) refl)
    ]

-- Splitting and joining.
pub join-segments : (s : List ℕ) → join (segments s) ≡ s
unfolding segments join
join-segments [] = refl
join-segments (c ∷ s) = let (p, ps, e) = segments-cons s in step p ps e (join-segments s)
  where
    step :
        (p : List ℕ) (ps : List (List ℕ))
        → segments s ≡ p ∷ ps
        → join (segments s) ≡ s
        → join (segments (c ∷ s)) ≡ c ∷ s
    step p [] e ih = rw e (ground (arith, e, ih))
    step p (q ∷ ps) e ih = rw e (ground (arith, e, ih))

segments_append : (p s : List ℕ) → NoSlash p → segments (p ++ slash ∷ s) ≡ p ∷ segments s
unfolding segments
segments_append [] s h = ground arith
segments_append (c ∷ p) s (h, hs) = ground (arith, segments_append p s hs)

segments_whole : (p : List ℕ) → NoSlash p → segments p ≡ p ∷ []
unfolding segments
segments_whole [] h = refl
segments_whole (c ∷ p) (h, hs) = ground (arith, segments_whole p hs)

pub segments-join :
    (p : List ℕ) (ps : List (List ℕ)) → All NoSlash (p ∷ ps) → segments (join (p ∷ ps)) ≡ p ∷ ps
unfolding join
segments-join p [] (h, _) = segments_whole p h
segments-join p (q ∷ ps) (h, hs) =
    segments_append p (join (q ∷ ps)) h ∙ ap (◌∷◌ p) (segments-join q ps hs)
