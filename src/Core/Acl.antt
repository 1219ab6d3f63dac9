-- ===== src/Core/Acl.antt =====
-- crates/qpedia-core/src/acl.rs. A `BTreeSet` is a list of which only the members matter.
use qpedia.Prelude.{Bool, List, ◌++◌, any}
use qpedia.Text.{Text, contains_text}

pub record Acl : Type 0 where
  pub groups : List Text

unfoldable pub union : Acl → Acl → Acl
union a b = record { groups = a.groups ++ b.groups }

unfoldable pub intersects : Acl → List Text → Bool
unfolding contains_text
intersects a user_groups = any (contains_text a.groups) user_groups
