-- ===== src/PgStore/Folders/Within.antt =====
-- Which folders lie within a folder, by their names.
use qpedia.Prelude.{
  ℕ, ◌+◌, ◌≡◌, refl, sym, ap, ◌∙◌, Bool, true, false, ◌&&◌, ◌||◌, List, [], ◌∷◌, ◌++◌, append_assoc,
  append-nil, ◌==◌, if◌then◌else◌, All, All-map, arith,
}
use qpedia.Text.{Text, codes, text_eq, starts_with, trim_end_by, join}
use qpedia.Text.Split.{HasNone}
use qpedia.Core.Source.{Source}
use qpedia.PgStore.Slug.{folder_of}
use qpedia.PgStore.Slug.Shape.{IsSlug}
use qpedia.PgStore.FolderAcls.Names.{IsName, IsSlug-IsName}
use qpedia.PgStore.Folders.{is_within, count_within}

-- The names of the outer folder are the first ones of the other.
unfoldable pub is_prefix : List Text → List Text → Bool
is_prefix [] f = true
is_prefix (n ∷ names) [] = false
is_prefix (n ∷ names) (m ∷ f) = text_eq n m && is_prefix names f

slashed : List Text → Text
slashed [] = []
slashed (n ∷ names) = b'/' ∷ (n ++ slashed names)

folder_of-slashed : (n : Text) (names : List Text) → folder_of (n ∷ names) ≡ slashed (n ∷ names)
unfolding slashed folder_of join
folder_of-slashed n [] = ap (◌∷◌ b'/') (sym (append-nil n))
folder_of-slashed n (m ∷ names) = ap (λ r. b'/' ∷ (n ++ r)) (folder_of-slashed m names)

-- A rest of a path starts with a slash.
abbrev IsRest : Text → Type 0
IsRest [] = Unit {0}
IsRest (c ∷ s) = c ≡ b'/'

text_eq-append :
    (n m r s : Text)
    → HasNone b'/' n
    → HasNone b'/' m
    → IsRest r
    → IsRest s
    → text_eq (n ++ r) (m ++ s) ≡ (text_eq n m && text_eq r s)
unfolding text_eq
text_eq-append [] [] r s hn hm hr hs = refl
text_eq-append [] (c ∷ m) [] s hn hm hr hs = refl
text_eq-append [] (c ∷ m) (d ∷ r) s hn (hm, _) hr hs = ground arith
text_eq-append (c ∷ n) [] r [] hn hm hr hs = refl
text_eq-append (c ∷ n) [] r (d ∷ s) (hn, _) hm hr hs = ground arith
text_eq-append (c ∷ n) (d ∷ m) r s (_, hn) (_, hm) hr hs =
    ground (arith, text_eq-append n m r s hn hm hr hs)

starts_with-append_names :
    (n m r s : Text)
    → HasNone b'/' n
    → HasNone b'/' m
    → IsRest s
    → starts_with (n ++ (b'/' ∷ r)) (m ++ s) ≡ (text_eq n m && starts_with (b'/' ∷ r) s)
unfolding text_eq starts_with
starts_with-append_names [] [] r s hn hm hs = refl
starts_with-append_names [] (c ∷ m) r s hn (hm, _) hs = ground arith
starts_with-append_names (c ∷ n) [] r [] hn hm hs = refl
starts_with-append_names (c ∷ n) [] r (d ∷ s) (hn, _) hm hs = ground arith
starts_with-append_names (c ∷ n) (d ∷ m) r s (_, hn) (_, hm) hs =
    ground (arith, starts_with-append_names n m r s hn hm hs)

slashed-IsRest : (names : List Text) → IsRest (slashed names)
unfolding slashed
slashed-IsRest [] = tt
slashed-IsRest (n ∷ names) = refl

text_eq_comm : (s t : Text) → text_eq s t ≡ text_eq t s
unfolding text_eq
text_eq_comm [] [] = refl
text_eq_comm [] (d ∷ t) = refl
text_eq_comm (c ∷ s) [] = refl
text_eq_comm (c ∷ s) (d ∷ t) = ground (arith, text_eq_comm s t)

-- What follows the first slash of a path with a slash at its end.
behind : List Text → Text
unfolding slashed
behind [] = []
behind (n ∷ names) = n ++ (slashed names ++ codes "/")

slashed_end : (names : List Text) → slashed names ++ codes "/" ≡ b'/' ∷ behind names
unfolding slashed behind
slashed_end [] = refl
slashed_end (n ∷ names) = ap (◌∷◌ b'/') (append_assoc n (slashed names) (codes "/"))

factor : (b c d : Bool) → ((b && c) || (b && d)) ≡ (b && (c || d))
factor true c d = refl
factor false c d = refl

starts_with-slash : (s t : Text) → starts_with (b'/' ∷ s) (b'/' ∷ t) ≡ starts_with s t
unfolding starts_with
starts_with-slash s t = ground arith

-- On paths without the root the test is the one on names.
within_slashed :
    (names f : List Text)
    → All IsName names
    → All IsName f
    → (text_eq (slashed f) (slashed names) || starts_with (b'/' ∷ behind names) (slashed f))
      ≡ is_prefix names f
unfolding slashed is_prefix text_eq behind starts_with
within_slashed [] [] h k = refl
within_slashed [] (m ∷ f) h k = refl
within_slashed (n ∷ names) [] h k = refl
within_slashed (n ∷ names) (m ∷ f) ((_, hn), h) ((_, hm), k) =
    rw
      (
        slashed_end names,
        text_eq-append m n (slashed f) (slashed names) hm hn (slashed-IsRest f)
            (slashed-IsRest names),
        starts_with-slash,
        starts_with-append_names n m (behind names) (slashed f) hn hm (slashed-IsRest f),
        text_eq_comm m n,
      )
      (factor (text_eq n m) (text_eq (slashed f) (slashed names))
          (starts_with (b'/' ∷ behind names) (slashed f))
        ∙ ap (λ b. text_eq n m && b) (within_slashed names f h k))

trim_end_keep :
    (n r : Text)
    → HasNone b'/' n
    → trim_end_by (λ c. c == b'/') r ≡ r
    → trim_end_by (λ c. c == b'/') (n ++ r) ≡ n ++ r
unfolding trim_end_by
trim_end_keep [] r hn h = h
trim_end_keep (c ∷ n) r (hc, hn) h = ground (arith, trim_end_keep n r hn h)

-- The path of a folder has no slash at its end.
trim_end_by-slashed :
    (names : List Text)
    → All IsName names
    → trim_end_by (λ c. c == b'/') (slashed names) ≡ slashed names
unfolding slashed trim_end_by
trim_end_by-slashed [] h = refl
trim_end_by-slashed ([] ∷ names) ((some_char, _), _) = absurd (omega (arith, some_char))
trim_end_by-slashed ((c ∷ n) ∷ names) ((_, hn), h) =
    rw (trim_end_keep (c ∷ n) (slashed names) hn (trim_end_by-slashed names h))

-- The root holds every folder, and lies in no other.
within_root : (f : List Text) → is_within (folder_of []) (folder_of f) ≡ true
unfolding is_within folder_of
within_root [] = refl
within_root (m ∷ f) = ground arith

root_within :
    (n : Text) (names : List Text)
    → All IsName (n ∷ names)
    → is_within (folder_of (n ∷ names)) (folder_of []) ≡ false
unfolding is_within slashed
root_within [] names ((some_char, _), _) = absurd (omega (arith, some_char))
root_within (c ∷ n) names h =
    rw (folder_of-slashed (c ∷ n) names, trim_end_by-slashed ((c ∷ n) ∷ names) h)
      (unfold folder_of in refl)

is_within-is_prefix :
    (names f : List Text)
    → All IsName names
    → All IsName f
    → is_within (folder_of names) (folder_of f) ≡ is_prefix names f
unfolding is_prefix
is_within-is_prefix [] f h k = within_root f
is_within-is_prefix (n ∷ names) [] h k = root_within n names h
is_within-is_prefix (n ∷ names) (m ∷ f) h k =
    unfold is_within in
    rw
      (
        folder_of-slashed n names,
        folder_of-slashed m f,
        trim_end_by-slashed (n ∷ names) h,
        slashed_end (n ∷ names),
      )
      (within_slashed (n ∷ names) (m ∷ f) h k)

-- Of the folders in a list, those within a folder.
unfoldable pub count_prefix : List Text → List (List Text) → ℕ
unfolding is_prefix
count_prefix names [] = 0
count_prefix names (f ∷ folders) = (if is_prefix names f then 1 else 0) + count_prefix names folders

-- The rows of sources lie in these folders, given by the names in their paths.
unfoldable pub LieIn : List Source → List (List Text) → Type 0
LieIn [] [] = Unit {0}
LieIn [] (f ∷ folders) = ⊥
LieIn (r ∷ rows) [] = ⊥
LieIn (r ∷ rows) (f ∷ folders) = (r.folder_path ≡ folder_of f) × All IsSlug f × LieIn rows folders

pub count_within-count_prefix :
    (names : List Text) (rows : List Source) (folders : List (List Text))
    → All IsName names
    → LieIn rows folders
    → count_within (folder_of names) rows ≡ count_prefix names folders
unfolding count_within count_prefix LieIn
count_within-count_prefix names [] [] h k = refl
count_within-count_prefix names [] (f ∷ folders) h k = absurd k
count_within-count_prefix names (r ∷ rows) [] h k = absurd k
count_within-count_prefix names (r ∷ rows) (f ∷ folders) h (same, slugs, k) = rw (
  same,
  is_within-is_prefix names f h (All-map (λ s w. IsSlug-IsName s w) f slugs),
  count_within-count_prefix names rows folders h k,
)
