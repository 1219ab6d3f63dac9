-- ===== src/Store/WikiRepo/Pages.antt =====
-- The pages of a repository: `list_pages("")` and `walk_md`. A folder that cannot be read is not modelled.
use qpedia.Prelude.{
  ◌≡◌, refl, ap, ◌∙◌, inl, inr, Bool, true, false, not, ◌&&◌, ◌||◌, List, [], ◌∷◌, some, arith, map,
  ◌==◌, ltb, if◌then◌else◌, Bool-cases,
}
use qpedia.Text.{Text, codes, text_eq, contains_text, ends_with, join}
use qpedia.Text.Laws.{text_eq_refl}
use qpedia.Store.WikiRepo.{FilePath, FileTree, read_file, path_eq}
use qpedia.Store.WikiRepo.Files.{path_eq→eq}

-- `path.extension() == Some("md")`, for a file's name
is_md : Text → Bool
unfolding ends_with text_eq
is_md name = ends_with (codes ".md") name && not (text_eq name (codes ".md"))

is_md_file : FilePath → Bool
unfolding is_md
is_md_file [] = false
is_md_file (name ∷ []) = is_md name
is_md_file (name ∷ other ∷ more) = is_md_file (other ∷ more)

-- A name `.git` on the way hides the file.
unfoldable pub is_page : FilePath → Bool
unfolding is_md_file contains_text
is_page p = not (contains_text p (codes ".git")) && is_md_file p

-- `rel.to_string_lossy().replace('\\', "/")`
unfoldable pub rel_path : FilePath → Text
unfolding join
rel_path p = map (λ c. if c == 92 then b'/' else c) (join (codes "/") p)

unfoldable pub walk_md : FileTree → List Text
unfolding is_page rel_path
walk_md [] = []
walk_md ((p, s) ∷ files) = let more = walk_md files in if is_page p then rel_path p ∷ more else more

-- The order of bytes is the order of code points.
text_leb : Text → Text → Bool
text_leb [] t = true
text_leb (c ∷ s) [] = false
text_leb (c ∷ s) (d ∷ t) = ltb c d || (c == d && text_leb s t)

insert_sorted : Text → List Text → List Text
unfolding text_leb
insert_sorted s [] = s ∷ []
insert_sorted s (t ∷ ts) =
    let more = insert_sorted s ts in if text_leb s t then s ∷ t ∷ ts else t ∷ more

unfoldable pub sort : List Text → List Text
unfolding insert_sorted
sort [] = []
sort (s ∷ ss) = insert_sorted s (sort ss)

unfoldable pub list_pages : FileTree → List Text
unfolding walk_md sort
list_pages files = sort (walk_md files)

contains_text-insert_sorted :
    (x s : Text) (ts : List Text)
    → contains_text (insert_sorted s ts) x ≡ (text_eq x s || contains_text ts x)
unfolding insert_sorted contains_text
contains_text-insert_sorted x s [] = refl
contains_text-insert_sorted x s (t ∷ ts) = ground (arith, contains_text-insert_sorted x s ts)

pub contains_text-sort :
    (x : Text) (ss : List Text) → contains_text (sort ss) x ≡ contains_text ss x
unfolding sort contains_text
contains_text-sort x [] = refl
contains_text-sort x (s ∷ ss) =
    contains_text-insert_sorted x s (sort ss) ∙ ap (λ b. text_eq x s || b) (contains_text-sort x ss)

contains_text-here : (x : Text) (xs : List Text) → contains_text (x ∷ xs) x ≡ true
unfolding contains_text
contains_text-here x xs = rw (text_eq_refl x)

contains_text-later :
    (x y : Text) (xs : List Text) → contains_text xs x ≡ true → contains_text (y ∷ xs) x ≡ true
unfolding contains_text
contains_text-later x y xs h = ground arith

walk_md-contains :
    (p : FilePath) (s : Text) (files : FileTree)
    → is_page p ≡ true
    → read_file p files ≡ some s
    → contains_text (walk_md files) (rel_path p) ≡ true
unfolding walk_md read_file
walk_md-contains p s [] h k = cc
walk_md-contains p s ((q, t) ∷ files) h k = elim (Bool-cases (path_eq q p)) [
  | inl e ↦ rw (path_eq→eq q p e, h) (contains_text-here (rel_path p) (walk_md files))
  | inr e ↦
      let found = walk_md-contains p s files h (rw (read_file, e) at k) in
      elim (Bool-cases (is_page q)) [
        | inl f ↦ rw f (contains_text-later (rel_path p) (rel_path q) (walk_md files) found)
        | inr f ↦ rw f found
      ]
]

-- A page that is there is listed.
pub list_pages-contains :
    (p : FilePath) (s : Text) (files : FileTree)
    → is_page p ≡ true
    → read_file p files ≡ some s
    → contains_text (list_pages files) (rel_path p) ≡ true
unfolding list_pages
list_pages-contains p s files h k =
    contains_text-sort (rel_path p) (walk_md files) ∙ walk_md-contains p s files h k
