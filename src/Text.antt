-- ===== src/Text.antt =====
-- What the source uses of the Go packages strings, regexp and path, over the characters of a text.
pub mod Trimming
pub mod Paths
use Prim.Native.Char.{code}
use Prim.Native.String
use Prim.Native.String.{String}
use ani_model_service.Prelude.{
  ℕ, suc, ◌+◌, ◌-◌, Bool, true, false, ◌&&◌, ◌||◌, not, leb, ◌==◌, if◌then◌else◌, List, [], ◌∷◌,
  ◌++◌, any, all, length,
}
use mathlib.Core.List.{reverse}

-- `range name`: the characters of the text.
abbrev pub codes : String → List ℕ
codes String.[] = []
codes (String.◌∷◌ c s) = code c ∷ codes s

-- len(s): the number of bytes.
abbrev pub byte_length : String → ℕ
byte_length s = String.len s

-- unicode.IsSpace
unfoldable pub is_space : ℕ → Bool
is_space c =
    (leb 9 c && leb c 13)
    || (c == 0x20
        || (c == 0x85
            || (c == 0xa0
                || (c == 0x1680
                    || ((leb 0x2000 c && leb c 0x200a)
                        || (c == 0x2028
                            || (c == 0x2029 || (c == 0x202f || (c == 0x205f || c == 0x3000)))))))))

unfoldable pub trim_left : (ℕ → Bool) → List ℕ → List ℕ
trim_left p [] = []
trim_left p (c ∷ s) = if p c then trim_left p s else c ∷ s

-- strings.TrimFunc
unfoldable pub trim_func : (ℕ → Bool) → List ℕ → List ℕ
unfolding trim_left
trim_func p s = reverse (trim_left p (reverse (trim_left p s)))

-- strings.TrimSpace
unfoldable pub trim_space : String → List ℕ
unfolding trim_func is_space
trim_space s = trim_func is_space (codes s)

abbrev pub is_empty : List ℕ → Bool
is_empty [] = true
is_empty (c ∷ s) = false

abbrev pub same : List ℕ → List ℕ → Bool
same [] [] = true
same (c ∷ s) (d ∷ t) = c == d && same s t
same _ _ = false

-- strings.TrimSpace(s) == ""
unfoldable pub is_blank : String → Bool
unfolding trim_space
is_blank s = is_empty (trim_space s)

-- strings.ContainsAny
abbrev pub contains_any : List ℕ → List ℕ → Bool
contains_any chars s = any (λ c. any (λ d. c == d) chars) s

-- \r and \n
abbrev pub line_breaks : List ℕ
line_breaks = 13 ∷ 10 ∷ []

abbrev pub is_digit : ℕ → Bool
is_digit c = leb b'0' c && leb c b'9'

abbrev pub is_lower : ℕ → Bool
is_lower c = leb b'a' c && leb c b'z'

abbrev pub is_upper : ℕ → Bool
is_upper c = leb b'A' c && leb c b'Z'

-- [a-fA-F0-9]
abbrev pub is_hex : ℕ → Bool
is_hex c = is_digit c || ((leb b'a' c && leb c b'f') || (leb b'A' c && leb c b'F'))

-- ^[a-fA-F0-9]{64}$
unfoldable pub is_sha256 : String → Bool
is_sha256 s = all is_hex (codes s) && length (codes s) == 64

-- strings.HasPrefix
unfoldable pub has_prefix : List ℕ → List ℕ → Bool
has_prefix [] s = true
has_prefix (c ∷ p) [] = false
has_prefix (c ∷ p) (d ∷ s) = c == d && has_prefix p s

-- strings.TrimSpace as a text: both ends, one after the other.
unfoldable pub trim_start : String → String
unfolding is_space
trim_start String.[] = String.[]
trim_start (String.◌∷◌ c s) = if is_space (code c) then trim_start s else String.◌∷◌ c s

-- A character before the trimmed rest of its text.
abbrev pub kept_before : String → Bool → String → String
kept_before String.[] space whole = if space then String.[] else whole
kept_before (String.◌∷◌ d t) space whole = whole

unfoldable pub trim_end : String → String
unfolding is_space
trim_end String.[] = String.[]
trim_end (String.◌∷◌ c s) =
    let rest = trim_end s in kept_before rest (is_space (code c)) (String.◌∷◌ c rest)

unfoldable pub trim_text : String → String
unfolding trim_start trim_end
trim_text s = trim_end (trim_start s)
