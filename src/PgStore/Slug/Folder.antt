-- ===== src/PgStore/Slug/Folder.antt =====
-- What `slugify_folder` returns.
use qpedia.Prelude.{
  ℕ, Bool-cases, ◌||◌, ◌∙◌, ◌≡◌, refl, inl, inr, Bool, true, false, List, [], ◌∷◌, ◌++◌, arith,
  ◌==◌, is_empty, All, ap, ap₂,
}
use qpedia.Text.{Text, is_digit, is_lower, codes, split, join, trim}
use qpedia.Text.Split.{add_head}
use qpedia.PgStore.Slug.{slugify_folder, slug_parts, folder_of}
use qpedia.PgStore.Slug.Shape.{IsSlug, IsSlugAfter, slugify-IsSlug, slugify_of_slug}

-- The root, or the names of a path, each a slug, behind slashes.
abbrev pub IsFolder : Text → Type 0
IsFolder path = (parts : List Text) × All IsSlug parts × (path ≡ folder_of parts)

slug_parts-IsSlug : (parts : List Text) → All IsSlug (slug_parts parts)
unfolding slug_parts
slug_parts-IsSlug [] = tt
slug_parts-IsSlug ([] ∷ parts) = slug_parts-IsSlug parts
slug_parts-IsSlug ((c ∷ s) ∷ parts) = (slugify-IsSlug (c ∷ s), slug_parts-IsSlug parts)

slug_parts_of_slugs : (parts : List Text) → All IsSlug parts → slug_parts parts ≡ parts
unfolding slug_parts
slug_parts_of_slugs [] h = refl
slug_parts_of_slugs ([] ∷ parts) ((h, _), hs) = cc
slug_parts_of_slugs ((c ∷ s) ∷ parts) (h, hs) =
    ap₂ ◌∷◌ (slugify_of_slug (c ∷ s) h) (slug_parts_of_slugs parts hs)

not_slash : (c : ℕ) → (is_digit c || is_lower c) ≡ true → (c == b'/') ≡ false
not_slash c h = ground arith

-- A slug holds no slash, so that a split finds the end of the first part only behind it.
split-append :
    (dash : Bool) (s rest : Text)
    → IsSlugAfter dash s
    → split b'/' (s ++ (b'/' ∷ rest)) ≡ s ∷ split b'/' rest
unfolding split
split-append dash [] rest h = refl
split-append dash (c ∷ s) rest (inl (h, e, w)) =
    rw h (ap (add_head b'-') (split-append true s rest w))
split-append dash (c ∷ s) rest (inr (h, w)) =
    rw (not_slash c h) (ap (add_head c) (split-append false s rest w))

split_slug : (dash : Bool) (s : Text) → IsSlugAfter dash s → split b'/' s ≡ s ∷ []
unfolding split
split_slug dash [] h = refl
split_slug dash (c ∷ s) (inl (h, e, w)) = rw h (ap (add_head b'-') (split_slug true s w))
split_slug dash (c ∷ s) (inr (h, w)) = rw (not_slash c h) (ap (add_head c) (split_slug false s w))

-- Splitting what was joined gives back the parts.
split-join :
    (s : Text) (parts : List Text)
    → All IsSlug (s ∷ parts)
    → split b'/' (join (codes "/") (s ∷ parts)) ≡ s ∷ parts
unfolding join
split-join s [] ((h, _), _) = split_slug true s h
split-join s (t ∷ parts) ((h, _), hs) =
    split-append true s (join (codes "/") (t ∷ parts)) h ∙ ap (λ r. s ∷ r) (split-join t parts hs)

trim-slash : (s : Text) → is_empty (trim (b'/' ∷ s)) ≡ false
unfolding trim
trim-slash s = ground arith

slug_parts-split :
    (parts : List Text) → All IsSlug parts → slug_parts (split b'/' (folder_of parts)) ≡ parts
unfolding slug_parts folder_of split
slug_parts-split [] h = refl
slug_parts-split (s ∷ parts) h =
    ap slug_parts (split-join s parts h) ∙ slug_parts_of_slugs (s ∷ parts) h

slash_first : (parts : List Text) → is_empty (trim (folder_of parts)) ≡ false
unfolding folder_of
slash_first [] = trim-slash []
slash_first (s ∷ parts) = trim-slash (join (codes "/") (s ∷ parts))

slugify_folder-folder_of :
    (parts : List Text) → All IsSlug parts → slugify_folder (folder_of parts) ≡ folder_of parts
unfolding slugify_folder
slugify_folder-folder_of parts h = rw (slash_first parts, slug_parts-split parts h)

-- The normal form of a folder path is the root, or slugs behind slashes.
pub slugify_folder-IsFolder : (path : Text) → IsFolder (slugify_folder path)
unfolding slugify_folder
slugify_folder-IsFolder path = elim (Bool-cases (is_empty (trim path))) [
  | inl e ↦ ([], tt, rw e (unfold folder_of in refl))
  | inr e ↦ (slug_parts (split b'/' path), slug_parts-IsSlug (split b'/' path), rw e)
]

-- Normalising a folder path twice changes nothing more, so that each query of a folder finds the row
-- that an earlier one wrote.
pub slugify_folder_idempotent :
    (path : Text) → slugify_folder (slugify_folder path) ≡ slugify_folder path
slugify_folder_idempotent path =
    let (parts, slugs, same) = slugify_folder-IsFolder path in
    rw same (slugify_folder-folder_of parts slugs)
