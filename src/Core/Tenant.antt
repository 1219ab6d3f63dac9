-- ===== src/Core/Tenant.antt =====
-- crates/qpedia-core/src/tenant.rs
pub mod Laws
pub mod Tests
use qpedia.Prelude.{ℕ, ◌||◌, map, ◌==◌, if◌then◌else◌, is_empty}
use qpedia.Text.{Text, codes, is_ascii_alphanumeric, to_ascii_lowercase, trim}

pub record Tenant : Type 0 where
  pub id : Text

abbrev pub default_tenant : Text
default_tenant = codes "default"

sanitize : ℕ → ℕ
sanitize c = if is_ascii_alphanumeric c || c == b'-' || c == b'_' then c else b'-'

-- What is left after `sanitize` is ASCII, on which `to_lowercase` is `to_ascii_lowercase`.
unfoldable pub new : Text → Tenant
unfolding sanitize trim
new raw =
    let trimmed = trim raw in
    record {
      id =
          if is_empty trimmed
          then default_tenant
          else map (λ c. to_ascii_lowercase (sanitize c)) trimmed;
    }
