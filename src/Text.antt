-- ===== src/Text.antt =====
-- Rust's `str` and `String`, as lists of code points. `len` counts bytes of UTF-8; an offset that
-- `find` returns is modelled by the pieces that the source slices with it.
pub mod Laws
pub mod Split
pub mod Pieces
pub mod Joined
pub mod Brackets
use Prim.Native.Nat.{◌/◌, ◌%◌}
use Prim.Native.Char.{code}
use qpedia.Prelude.{
  ℕ, zero, suc, ◌+◌, String, Bool, true, false, not, ◌&&◌, ◌||◌, Option, none, some, List, [], ◌∷◌,
  ◌++◌, map, ltb, leb, ◌==◌, if◌then◌else◌, is_empty, any,
}

abbrev pub Text : Type 0
Text = List ℕ

-- A literal of the source.
abbrev pub codes : String → Text
codes String.[] = []
codes (String.◌∷◌ c s) = code c ∷ codes s

abbrev pub newline : ℕ
newline = 10

unfoldable pub text_eq : Text → Text → Bool
text_eq [] [] = true
text_eq (x ∷ xs) (y ∷ ys) = x == y && text_eq xs ys
text_eq _ _ = false

-- `contains` of a set or a slice of strings
unfoldable pub contains_text : List Text → Text → Bool
unfolding text_eq
contains_text xs s = any (text_eq s) xs

-- The bytes of a code point in UTF-8.
abbrev pub char_len : ℕ → ℕ
char_len c = if ltb c 128 then 1 else if ltb c 2048 then 2 else if ltb c 65536 then 3 else 4

-- `s.len()`
unfoldable pub byte_len : Text → ℕ
byte_len [] = 0
byte_len (c ∷ s) = char_len c + byte_len s

-- `char::is_whitespace`: the code points with the property White_Space
abbrev pub is_whitespace : ℕ → Bool
is_whitespace c =
    (leb 9 c && leb c 13)
    || c == 32
    || c == 133
    || c == 160
    || c == 5760
    || (leb 8192 c && leb c 8202)
    || c == 8232
    || c == 8233
    || c == 8239
    || c == 8287
    || c == 12288

abbrev pub is_digit : ℕ → Bool
is_digit c = leb b'0' c && leb c b'9'

abbrev pub is_lower : ℕ → Bool
is_lower c = leb b'a' c && leb c b'z'

abbrev pub is_upper : ℕ → Bool
is_upper c = leb b'A' c && leb c b'Z'

abbrev pub is_ascii_alphanumeric : ℕ → Bool
is_ascii_alphanumeric c = is_digit c || is_lower c || is_upper c

abbrev pub to_ascii_lowercase : ℕ → ℕ
to_ascii_lowercase c = if is_upper c then c + 32 else c

-- `trim_start_matches(pred)` and `trim_end_matches(pred)`
unfoldable pub trim_start_by : (ℕ → Bool) → Text → Text
trim_start_by p [] = []
trim_start_by p (c ∷ s) = let rest = trim_start_by p s in if p c then rest else c ∷ s

unfoldable pub trim_end_by : (ℕ → Bool) → Text → Text
trim_end_by p [] = []
trim_end_by p (c ∷ s) = let rest = trim_end_by p s in if is_empty rest && p c then [] else c ∷ rest

unfoldable pub trim_start : Text → Text
unfolding trim_start_by
trim_start = trim_start_by (λ c. is_whitespace c)

unfoldable pub trim_end : Text → Text
unfolding trim_end_by
trim_end = trim_end_by (λ c. is_whitespace c)

unfoldable pub trim : Text → Text
unfolding trim_start trim_end
trim s = trim_end (trim_start s)

-- `trim_matches(ch)`
unfoldable pub trim_matches : ℕ → Text → Text
unfolding trim_start_by trim_end_by
trim_matches ch s = trim_end_by (λ c. c == ch) (trim_start_by (λ c. c == ch) s)

unfoldable pub strip_prefix : Text → Text → Option Text
strip_prefix [] s = some s
strip_prefix (p ∷ ps) [] = none
strip_prefix (p ∷ ps) (c ∷ s) = let rest = strip_prefix ps s in if p == c then rest else none

unfoldable pub starts_with : Text → Text → Bool
unfolding strip_prefix
starts_with pat s = elim (strip_prefix pat s) [ none ↦ false | some _ ↦ true ]

abbrev pub prepend : ℕ → Option (Text × Text) → Option (Text × Text)
prepend c none = none
prepend c (some (before, after)) = some (c ∷ before, after)

-- `s.find(pat)` with the two slices around the first match: `&s[..i]` and `&s[i + pat.len()..]`.
unfoldable pub split_once : Text → Text → Option (Text × Text)
unfolding strip_prefix
split_once pat [] = elim (strip_prefix pat []) [ none ↦ none | some after ↦ some ([], after) ]
split_once pat (c ∷ s) =
    let later = split_once pat s in
    elim (strip_prefix pat (c ∷ s)) [ none ↦ prepend c later | some after ↦ some ([], after) ]

-- `s.contains(pat)`
unfoldable pub contains : Text → Text → Bool
unfolding split_once
contains pat s = elim (split_once pat s) [ none ↦ false | some _ ↦ true ]

unfoldable pub ends_with : Text → Text → Bool
unfolding text_eq
ends_with pat [] = text_eq pat []
ends_with pat (c ∷ s) = text_eq pat (c ∷ s) || ends_with pat s

-- The pieces between the separators: `s.split(sep)`. There is always a first piece.
unfoldable pub split_head : ℕ → Text → Text
split_head sep [] = []
split_head sep (c ∷ s) = let more = split_head sep s in if c == sep then [] else c ∷ more

unfoldable pub split_tail : ℕ → Text → List Text
unfolding split_head
split_tail sep [] = []
split_tail sep (c ∷ s) =
    let rest = split_tail sep s in if c == sep then split_head sep s ∷ rest else rest

unfoldable pub split : ℕ → Text → List Text
unfolding split_head split_tail
split sep s = split_head sep s ∷ split_tail sep s

-- `pieces.join(sep)`
unfoldable pub join : Text → List Text → Text
join sep [] = []
join sep (s ∷ []) = s
join sep (s ∷ t ∷ more) = s ++ (sep ++ join sep (t ∷ more))

abbrev pub strip_cr : Text → Text
strip_cr [] = []
strip_cr (c ∷ []) = if c == 13 then [] else c ∷ []
strip_cr (c ∷ d ∷ s) = c ∷ strip_cr (d ∷ s)

-- A line that a newline ends loses a carriage return too; an empty last line is no line.
abbrev pub chomp : List Text → List Text
chomp [] = []
chomp (s ∷ []) = if is_empty s then [] else s ∷ []
chomp (s ∷ t ∷ more) = strip_cr s ∷ chomp (t ∷ more)

-- `s.lines()`
unfoldable pub lines : Text → List Text
unfolding split
lines s = chomp (split newline s)

abbrev pub sum_of {ℓ} : {A : Type ℓ} → (A → ℕ) → List A → ℕ
sum_of f [] = 0
sum_of f (x ∷ xs) = f x + sum_of f xs

-- The digits that `format!` writes for a `u32`: ten rounds are enough below `2 ^ 32`.
decimal_from : ℕ → ℕ → Text
decimal_from zero n = []
decimal_from (suc fuel) n =
    let higher = decimal_from fuel (n / 10) in
    if ltb n 10 then (b'0' + n) ∷ [] else higher ++ (b'0' + n % 10) ∷ []

unfoldable pub decimal : ℕ → Text
unfolding decimal_from
decimal = decimal_from 10
