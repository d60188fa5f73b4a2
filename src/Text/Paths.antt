-- ===== src/Text/Paths.antt =====
-- The Go package path on slash-separated texts: path.Clean and path.IsAbs, over characters.
pub mod Segments
pub mod Cleaning
use mathlib.Core.List.{reverse}
use ani_model_service.Prelude.{ℕ, Bool, true, false, ◌||◌, ◌==◌, if◌then◌else◌, List, [], ◌∷◌, ◌++◌}
use ani_model_service.Text.{is_empty, same}

abbrev pub slash : ℕ
slash = b'/'

abbrev pub dot : List ℕ
dot = b'.' ∷ []

abbrev pub dot_dot : List ℕ
dot_dot = b'.' ∷ b'.' ∷ []

abbrev pub put_first : ℕ → List (List ℕ) → List (List ℕ)
put_first c [] = (c ∷ []) ∷ []
put_first c (p ∷ ps) = (c ∷ p) ∷ ps

-- strings.Split(s, "/")
unfoldable pub segments : List ℕ → List (List ℕ)
segments [] = [] ∷ []
segments (c ∷ s) = let rest = segments s in if c == slash then [] ∷ rest else put_first c rest

unfoldable pub join : List (List ℕ) → List ℕ
join [] = []
join (p ∷ []) = p
join (p ∷ q ∷ ps) = p ++ slash ∷ join (q ∷ ps)

-- path.IsAbs
abbrev pub is_abs : List ℕ → Bool
is_abs [] = false
is_abs (c ∷ s) = c == slash

-- ".." takes the last segment away; at the start of a relative path it stays.
abbrev pub pop : Bool → List (List ℕ) → List (List ℕ)
pop rooted [] = if rooted then [] else dot_dot ∷ []
pop rooted (top ∷ stack) = if same top dot_dot then dot_dot ∷ top ∷ stack else stack

-- One segment; the stack has the last segment kept at its head.
unfoldable pub resolve : Bool → List (List ℕ) → List ℕ → List (List ℕ)
resolve rooted stack p =
    if is_empty p || same p dot
    then stack
    else if same p dot_dot
    then pop rooted stack
    else p ∷ stack

unfoldable pub resolve_all : Bool → List (List ℕ) → List (List ℕ) → List (List ℕ)
unfolding resolve
resolve_all rooted stack [] = stack
resolve_all rooted stack (p ∷ ps) = resolve_all rooted (resolve rooted stack p) ps

abbrev pub or_dot : List ℕ → List ℕ
or_dot [] = dot
or_dot (c ∷ s) = c ∷ s

-- path.Clean
unfoldable pub clean : List ℕ → List ℕ
unfolding segments join resolve_all
clean s =
    let kept = join (reverse (resolve_all (is_abs s) [] (segments s))) in
    if is_abs s then slash ∷ kept else or_dot kept
