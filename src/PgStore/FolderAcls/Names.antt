-- ===== src/PgStore/FolderAcls/Names.antt =====
-- Folders as lists of names, the innermost first, and their paths.
use qpedia.Prelude.{
  ◌≤◌, ◌<◌, ◌≡◌, refl, ◌∙◌, inl, inr, Bool, true, false, List, [], ◌∷◌, ◌++◌, All-map, append_assoc,
  is_empty, length, length-append, All, arith,
}
use mathlib.Core.List.{reverse_aux}
use qpedia.Text.{Text, codes, join}
use qpedia.Text.Split.{HasNone}
use qpedia.PgStore.Slug.{folder_of}
use qpedia.PgStore.Slug.Shape.{IsSlug, IsSlugAfter}

-- The path of a folder from its names, the innermost first.
abbrev pub path_above : List Text → Text
path_above [] = []
path_above (name ∷ outer) = path_above outer ++ (b'/' ∷ name)

abbrev pub path_of : List Text → Text
path_of [] = codes "/"
path_of (name ∷ outer) = path_above (name ∷ outer)

-- A folder and the folders around it.
unfoldable pub ancestors : List Text → List Text
ancestors [] = codes "/" ∷ []
ancestors (name ∷ outer) = path_of (name ∷ outer) ∷ ancestors outer

abbrev pub IsShorter : Text → Text → Type 0
IsShorter path p = length p < length path

abbrev pub IsName : Text → Type 0
IsName name = (0 < length name) × HasNone b'/' name

pub length-path_of :
    (name : Text) (outer : List Text)
    → 0 < length name
    → length (path_of outer) < length (path_of (name ∷ outer))
length-path_of name [] h = omega (arith, h)
length-path_of name (n ∷ outer) h =
    omega (arith, length-append (path_above (n ∷ outer)) (b'/' ∷ name))

pub ancestors-le :
    (names : List Text)
    → All IsName names
    → All (λ p. length p ≤ length (path_of names)) (ancestors names)
unfolding ancestors
ancestors-le [] h = (omega arith, tt)
ancestors-le (name ∷ outer) ((some_char, _), hs) = (
  omega arith,
  All-map (λ p k. omega (arith, k, length-path_of name outer some_char)) (ancestors outer)
      (ancestors-le outer hs),
)

pub ancestors-IsShorter :
    (name : Text) (outer : List Text)
    → All IsName (name ∷ outer)
    → All (IsShorter (path_of (name ∷ outer))) (ancestors outer)
ancestors-IsShorter name outer ((some_char, _), hs) =
    All-map (λ p k. omega (arith, k, length-path_of name outer some_char)) (ancestors outer)
      (ancestors-le outer hs)

pub path_above-ne-nil :
    (name : Text) (outer : List Text) → is_empty (path_above (name ∷ outer)) ≡ false
path_above-ne-nil name [] = refl
path_above-ne-nil name (n ∷ outer) =
    append-ne-nil (path_above (n ∷ outer)) (b'/' ∷ name) (path_above-ne-nil n outer)
  where
    append-ne-nil : (s t : Text) → is_empty s ≡ false → is_empty (s ++ t) ≡ false
    append-ne-nil [] t h = cc
    append-ne-nil (c ∷ s) t h = refl

pub IsSlugAfter-HasNone : (dash : Bool) (s : Text) → IsSlugAfter dash s → HasNone b'/' s
IsSlugAfter-HasNone dash [] h = tt
IsSlugAfter-HasNone dash (c ∷ s) (inl (h, _, w)) = (ground arith, IsSlugAfter-HasNone true s w)
IsSlugAfter-HasNone dash (c ∷ s) (inr (h, w)) = (ground arith, IsSlugAfter-HasNone false s w)

pub IsSlug-IsName : (s : Text) → IsSlug s → IsName s
IsSlug-IsName [] (h, _) = cc
IsSlug-IsName (c ∷ s) (h, _) = (omega arith, IsSlugAfter-HasNone true (c ∷ s) h)

-- The names of a path from the outermost on, behind those of the folder that it is in.
pub path_above-reverse_aux :
    (name : Text) (parts outer : List Text)
    → path_of (reverse_aux (name ∷ parts) outer) ≡ path_above outer ++ folder_of (name ∷ parts)
unfolding folder_of join
path_above-reverse_aux name [] outer = refl
path_above-reverse_aux name (n ∷ parts) outer =
    path_above-reverse_aux n parts (name ∷ outer)
    ∙ append_assoc (path_above outer) (b'/' ∷ name) (folder_of (n ∷ parts))

pub path_of-reverse_aux : (parts : List Text) → path_of (reverse_aux parts []) ≡ folder_of parts
unfolding folder_of
path_of-reverse_aux [] = refl
path_of-reverse_aux (name ∷ parts) = path_above-reverse_aux name parts []

pub All-reverse_aux :
    (P : Text → Type 0) (xs ys : List Text) → All P xs → All P ys → All P (reverse_aux xs ys)
All-reverse_aux P [] ys h k = k
All-reverse_aux P (x ∷ xs) ys (h, hs) k = All-reverse_aux P xs (x ∷ ys) hs (h, k)
