-- ===== src/PgStore/Slug.antt =====
-- crates/qpedia-pg-store/src/slug.rs. A `String` that is built by `push` is kept reversed, its last
-- character first, until it is returned.
pub mod Shape
pub mod Folder
pub mod Probe
pub mod Tests
use qpedia.Prelude.{
  ℕ, zero, suc, ◌+◌, Bool, true, false, not, ◌&&◌, Option, none, some, List, [], ◌∷◌, ◌++◌, map,
  ltb, leb, ◌==◌, if◌then◌else◌, length, is_empty, Result, ok, err, ◌>>=◌,
}
use mathlib.Core.List.{reverse_aux}
use qpedia.Text.{
  Text, codes, is_ascii_alphanumeric, to_ascii_lowercase, trim, trim_start_by, split, join, decimal,
}

abbrev pub max_len : ℕ
max_len = 80

abbrev pub max_attempts : ℕ
max_attempts = 1000

-- The loop of `slugify`, from `out` and `last_dash` on; a full `out` is the `break`.
slug_loop : Text → Bool → Text → Text
slug_loop out last_dash [] = out
slug_loop out last_dash (ch ∷ name) =
    let lower = to_ascii_lowercase ch in
    let pushed = slug_loop (lower ∷ out) false name in
    let dashed = slug_loop (b'-' ∷ out) true name in
    let skipped = slug_loop out last_dash name in
    if leb max_len (length out)
    then out
    else if is_ascii_alphanumeric lower
    then pushed
    else if not last_dash && not (is_empty out)
    then dashed
    else skipped

-- `while out.ends_with('-') { out.pop(); }`
pop_dashes : Text → Text
unfolding trim_start_by
pop_dashes = trim_start_by (λ c. c == b'-')

or_untitled : Text → Text
or_untitled [] = codes "untitled"
or_untitled (c ∷ out) = reverse_aux (c ∷ out) []

unfoldable pub slugify : Text → Text
unfolding slug_loop pop_dashes or_untitled
slugify name = or_untitled (pop_dashes (slug_loop [] true name))

-- The pieces of a path that are not empty, each slugified.
slug_parts : List Text → List Text
unfolding slugify
slug_parts [] = []
slug_parts (s ∷ parts) =
    let rest = slug_parts parts in if is_empty s then rest else slugify s ∷ rest

unfoldable pub folder_of : List Text → Text
folder_of [] = codes "/"
folder_of (s ∷ parts) = b'/' ∷ join (codes "/") (s ∷ parts)

unfoldable pub slugify_folder : Text → Text
unfolding slug_parts folder_of
slugify_folder path =
    if is_empty (trim path) then codes "/" else folder_of (slug_parts (split b'/' path))

pub data ProbeError (E : Type 0) : Type 0 where
  failed : E → ProbeError E
  no_free_slug : ProbeError E

-- `{base}-{n}`
unfoldable pub numbered : Text → ℕ → Text
numbered base n = base ++ (b'-' ∷ decimal n)

-- The rest of a round of the loop, on the answer of its transaction.
round :
    {E : Type 0}
    → ℕ
    → Text
    → Result E Bool
    → Result (ProbeError E) Text
    → Result (ProbeError E) Text
round n candidate (err e) next = err (failed e)
round n candidate (ok true) next = ok candidate
round n candidate (ok false) next = if ltb max_attempts (n + 1) then err no_free_slug else next

module _ {E : Type 0} (is_free : ℕ → Text → Result E Bool) (base : Text) where
  -- The loop of `probe_unique`. `is_free n c` is the answer about the candidate `c` of the transaction
  -- that is made when the counter is `n`, so that other writers may act between two of them. `n` grows
  -- to `max_attempts` at most, so `max_attempts` rounds are enough fuel.
  probe_loop : ℕ → ℕ → Text → Result (ProbeError E) Text
  unfolding round
  probe_loop zero n candidate = err no_free_slug
  probe_loop (suc fuel) n candidate =
      let next = probe_loop fuel (n + 1) (numbered base n) in
      round n candidate (is_free n candidate) next

  unfoldable pub probe_unique : Result (ProbeError E) Text
  unfolding probe_loop round
  probe_unique = probe_loop max_attempts 2 base

-- The three callers differ in the table that the probe reads.
module _ {E : Type 0} (is_free : ℕ → Text → Result E Bool) where
  unfoldable pub unique_source_slug : Text → Result (ProbeError E) Text
  unique_source_slug desired = probe_unique is_free (slugify desired)

  pub unique_wiki_path : Text → Text → Result (ProbeError E) Text
  unique_wiki_path kind name =
      probe_unique is_free (slugify kind ++ (b'/' ∷ (slugify name ++ codes ".md")))

  pub unique_connector_name : Text → Result (ProbeError E) Text
  unique_connector_name desired = probe_unique is_free (slugify desired)
