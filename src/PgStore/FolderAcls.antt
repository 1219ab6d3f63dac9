-- ===== src/PgStore/FolderAcls.antt =====
-- crates/qpedia-pg-store/src/folder_acls.rs: the rows of one tenant, which row-level security selects.
-- The key of a row is its path.
pub mod Names
pub mod Chain
pub mod Longest
pub mod Closest
pub mod Tests
use qpedia.Prelude.{
  ℕ, zero, suc, Bool, true, false, Option, none, some, List, [], ◌∷◌, ◌++◌, leb, ◌==◌,
  if◌then◌else◌, is_empty, length,
}
use qpedia.Text.{Text, codes, text_eq, contains_text}
use qpedia.Core.Acl.{Acl}
use qpedia.PgStore.Slug.{slugify_folder}

pub record AclRow : Type 0 where
  pub folder_path : Text
  pub acl : Acl
  pub updated_at : ℕ
  pub updated_by : Text

-- `DELETE … WHERE folder_path = $1`
without_path : Text → List AclRow → List AclRow
unfolding text_eq
without_path path [] = []
without_path path (r ∷ rows) =
    let rest = without_path path rows in if text_eq r.folder_path path then rest else r ∷ rest

-- `INSERT … ON CONFLICT DO UPDATE`: the row of the path is replaced where it stands.
upsert : AclRow → List AclRow → List AclRow
unfolding text_eq
upsert row [] = row ∷ []
upsert row (r ∷ rows) =
    let rest = upsert row rows in
    if text_eq r.folder_path row.folder_path then row ∷ rows else r ∷ rest

unfoldable pub set_folder_acl : Text → Acl → ℕ → Text → List AclRow → List AclRow
unfolding upsert slugify_folder
set_folder_acl folder_path acl now updated_by = upsert (record {
  folder_path = slugify_folder folder_path;
  acl = acl;
  updated_at = now;
  updated_by = updated_by;
})

unfoldable pub delete_folder_acl : Text → List AclRow → List AclRow
unfolding without_path slugify_folder
delete_folder_acl folder_path = without_path (slugify_folder folder_path)

-- `rfind('/')`, with what stands before it.
before_last : ℕ → Text → Option Text
before_last sep [] = none
before_last sep (c ∷ s) =
    let later = before_last sep s in
    elim later [ some before ↦ some (c ∷ before) | none ↦ if c == sep then some [] else none ]

-- `if !candidates.contains(&p) { candidates.push(p) }`
push_new : Text → List Text → List Text
unfolding contains_text
push_new path candidates =
    if contains_text candidates path then candidates else candidates ++ path ∷ []

-- The `while let` loop of `resolve_folder_acl`, on `cur` and `candidates`. Each round shortens `cur`.
parents : ℕ → Text → List Text → List Text
unfolding before_last push_new
parents zero cur candidates = candidates
parents (suc fuel) cur candidates = elim (before_last b'/' cur) [
  | none ↦ candidates
  | some before ↦
      let further = parents fuel before (push_new before candidates) in
      if is_empty before then push_new (codes "/") candidates else further
]

pub chain : Text → List Text
unfolding parents push_new
chain normalized = push_new (codes "/") (parents (length normalized) normalized (normalized ∷ []))

abbrev longer : AclRow → Option AclRow → AclRow
longer r none = r
longer r (some s) = if leb (length s.folder_path) (length r.folder_path) then r else s

-- `SELECT … WHERE folder_path = ANY($1) ORDER BY length(folder_path) DESC LIMIT 1`
pub longest_row : List Text → List AclRow → Option AclRow
unfolding contains_text
longest_row candidates [] = none
longest_row candidates (r ∷ rows) =
    let rest = longest_row candidates rows in
    if contains_text candidates r.folder_path then some (longer r rest) else rest

abbrev acl_of : Option AclRow → Option Acl
acl_of none = none
acl_of (some r) = some r.acl

unfoldable pub resolve_folder_acl : Text → List AclRow → Option Acl
unfolding chain longest_row slugify_folder
resolve_folder_acl folder_path rows = acl_of (longest_row (chain (slugify_folder folder_path)) rows)
