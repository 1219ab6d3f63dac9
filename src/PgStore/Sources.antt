-- ===== src/PgStore/Sources.antt =====
-- crates/qpedia-pg-store/src/sources.rs: the rows of one tenant, which row-level security selects. The key
-- of a row is its slug.
pub mod Rows
use qpedia.Prelude.{
  ℕ, zero, suc, Bool, true, false, ◌&&◌, ◌||◌, Option, none, some, List, [], ◌∷◌, ◌++◌, ◌==◌, ltb,
  leb, if◌then◌else◌, take, filter, is_empty,
}
use qpedia.Text.{Text, codes, text_eq}
use qpedia.Core.Source.{Source, SourceStatus, pending}

-- The constraint on the key lets no second row in.
unfoldable pub has_slug : Text → List Source → Bool
unfolding text_eq
has_slug slug [] = false
has_slug slug (r ∷ rows) = text_eq r.id slug || has_slug slug rows

-- `none` is the error of a key that is taken.
unfoldable pub insert_source : Source → List Source → Option (List Source)
unfolding has_slug
insert_source src rows = if has_slug src.id rows then none else some (rows ++ src ∷ [])

unfoldable pub get_source_in : Text → List Source → Option Source
unfolding text_eq
get_source_in slug [] = none
get_source_in slug (r ∷ rows) =
    let rest = get_source_in slug rows in if text_eq r.id slug then some r else rest

-- `UPDATE sources SET … WHERE slug = …`
unfoldable pub update_source : Text → (Source → Source) → List Source → List Source
unfolding text_eq
update_source slug f [] = []
update_source slug f (r ∷ rows) = (if text_eq r.id slug then f r else r) ∷ update_source slug f rows

unfoldable pub update_folder_path : Text → Text → List Source → List Source
unfolding update_source
update_folder_path slug folder_path =
    update_source slug (λ r. record r { folder_path = folder_path })

unfoldable pub replaced : Text → Text → Text → ℕ → Source → Source
replaced filename mime sha256 size_bytes r = record r {
  filename = filename;
  mime = mime;
  sha256 = sha256;
  size_bytes = size_bytes;
  status = pending;
  classification = none;
  language = none;
  ingested_at = none;
}

unfoldable pub replace_source_blob : Text → Text → Text → Text → ℕ → List Source → List Source
unfolding update_source replaced
replace_source_blob slug filename mime sha256 size_bytes =
    update_source slug (replaced filename mime sha256 size_bytes)

unfoldable pub delete_source : Text → List Source → List Source
unfolding text_eq
delete_source slug [] = []
delete_source slug (r ∷ rows) =
    let rest = delete_source slug rows in if text_eq r.id slug then rest else r ∷ rest

any_rest : (Text → Bool) → Text → Bool
any_rest f [] = f []
any_rest f (c ∷ s) = f (c ∷ s) || any_rest f s

any_char : (Text → Bool) → Text → Bool
any_char f [] = false
any_char f (c ∷ s) = f s

this_char : ℕ → (Text → Bool) → Text → Bool
this_char c f [] = false
this_char c f (d ∷ s) = c == d && f s

-- SQL's `LIKE`: `%` stands for any text and `_` for any character, unless a backslash stands before it.
unfoldable pub like : Text → Text → Bool
unfolding any_rest any_char this_char
like [] = is_empty
like (c ∷ []) =
    if c == b'%'
    then any_rest is_empty
    else if c == b'_'
    then any_char is_empty
    else this_char c is_empty
like (c ∷ d ∷ p) =
    let next = like (d ∷ p) in
    let escaped = this_char d (like p) in
    if c == b'%'
    then any_rest next
    else if c == b'_'
    then any_char next
    else if c == 92
    then escaped
    else this_char c next

newest_first : Source → List Source → List Source
newest_first r [] = r ∷ []
newest_first r (s ∷ rows) =
    let rest = newest_first r rows in
    if leb s.created_at r.created_at then r ∷ s ∷ rows else s ∷ rest

by_age : List Source → List Source
unfolding newest_first
by_age [] = []
by_age (r ∷ rows) = newest_first r (by_age rows)

unfoldable pub list_sources : Text → ℕ → List Source → List Source
unfolding like by_age
list_sources folder_prefix limit rows =
    take limit (by_age (filter (λ r. like (folder_prefix ++ codes "%") r.folder_path) rows))
