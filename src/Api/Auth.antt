-- ===== src/Api/Auth.antt =====
-- crates/qpedia-api/src/auth.rs: what a user may read, and how a request finds its user.
pub mod SignedIn
pub mod Tests
use qpedia.Prelude.{
  ℕ, ◌+◌, Bool, true, false, not, ◌&&◌, ◌||◌, Option, none, some, List, [], ◌∷◌, ◌++◌, ◌==◌,
  if◌then◌else◌, is_empty, any, map, filter,
}
use qpedia.Text.{
  Text, codes, text_eq, contains_text, is_whitespace, to_ascii_lowercase, trim, strip_prefix, split,
  decimal,
}
use qpedia.Core.Acl.{Acl}
use qpedia.Core.Source.{Source}
use qpedia.PgStore.Sessions.{SessionRow, lookup_session, create_session, delete_session}

pub record User : Type 0 where
  pub id : Text
  pub email : Option Text
  pub name : Option Text
  pub groups : List Text
  pub tenant : Text

unfoldable pub is_admin : User → Bool
unfolding text_eq
is_admin user = any (λ g. text_eq g (codes "admin")) user.groups

unfoldable pub can_read : User → Acl → Bool
unfolding is_admin contains_text
can_read user acl =
    if is_admin user
    then true
    else if is_empty acl.groups
    then false
    else any (contains_text acl.groups) user.groups

unfoldable pub filter_sources : User → List Source → List Source
unfolding can_read
filter_sources user = filter (λ s. can_read user s.acl)

-- `SESSION_COOKIE` and `SESSION_TTL_SECS`
abbrev pub session_cookie : Text
session_cookie = codes "qpedia_session"

abbrev pub session_ttl_secs : ℕ
session_ttl_secs = 86400

token_in : List Text → Option Text
unfolding strip_prefix trim
token_in [] = none
token_in (piece ∷ pieces) =
    let later = token_in pieces in
    elim (strip_prefix (session_cookie ++ codes "=") (trim piece)) [
      | some v ↦ some v
      | none ↦ later
    ]

-- From the header `Cookie`, if there is one.
unfoldable pub read_session_token : Option Text → Option Text
unfolding token_in split
read_session_token none = none
read_session_token (some raw) = token_in (split b';' raw)

unfoldable pub set_session_cookie : Text → ℕ → Text
unfolding decimal
set_session_cookie token max_age =
    session_cookie
    ++ (codes "="
        ++ (token ++ (codes "; Path=/; HttpOnly; SameSite=Lax; Max-Age=" ++ decimal max_age)))

unfoldable pub clear_session_cookie : Text
clear_session_cookie = session_cookie ++ codes "=; Path=/; HttpOnly; SameSite=Lax; Max-Age=0"

bearer : Text → Option Text
unfolding strip_prefix
bearer raw = elim (strip_prefix (codes "Bearer ") raw) [
  | some rest ↦ some rest
  | none ↦ strip_prefix (codes "bearer ") raw
]

some_text : Text → Option Text
some_text s = if is_empty s then none else some s

-- From the header `Authorization`, if there is one.
unfoldable pub read_bearer : Option Text → Option Text
unfolding bearer some_text trim
read_bearer none = none
read_bearer (some raw) = elim (bearer raw) [ none ↦ none | some rest ↦ some_text (trim rest) ]

-- `split(|c| c == ',' || c.is_whitespace())`, in lower case.
words : Text → Text × List Text
words [] = ([], [])
words (c ∷ s) =
    let (word, more) = words s in
    if c == b',' || is_whitespace c then ([], word ∷ more) else (to_ascii_lowercase c ∷ word, more)

is_allowed : Text → Text → Bool
unfolding words text_eq
is_allowed email allow =
    let (word, more) = words allow in any (λ w. not (is_empty w) && text_eq w email) (word ∷ more)

unfoldable pub augment_admin_with_allow : Option Text → List Text → Text → List Text
unfolding is_allowed text_eq trim
augment_admin_with_allow none groups allow = groups
augment_admin_with_allow (some email) groups allow =
    if is_allowed (map (λ c. to_ascii_lowercase c) (trim email)) allow
      && not (any (λ g. text_eq g (codes "admin")) groups)
    then groups ++ codes "admin" ∷ []
    else groups

unfoldable pub is_superadmin_user : User → Text → Bool
unfolding augment_admin_with_allow text_eq
is_superadmin_user user allow =
    any (λ g. text_eq g (codes "admin")) (augment_admin_with_allow user.email [] allow)

-- The mode of the server: `dev` stands for every request, the other two need a session.
pub data AuthMode : Type 0 where
  dev oidc session : AuthMode

-- The hash of tokens, the user of `dev`, and the answer of a provider that the deployment registered.
pub record AuthState : Type 0 where
  pub mode : AuthMode
  pub hash_token : Text → Text
  pub dev_admin : User
  pub external : Option User

abbrev pub user_of : Option SessionRow → Option User
user_of none = none
user_of (some s) = some (record {
  id = s.user_id;
  email = s.email;
  name = s.name;
  groups = s.groups;
  tenant = s.tenant.id;
})

pub session_user : AuthState → ℕ → Option Text → List SessionRow → Option User
unfolding lookup_session
session_user auth now none rows = none
session_user auth now (some token) rows = user_of (lookup_session now (auth.hash_token token) rows)

pub by_mode : AuthState → AuthMode → ℕ → Option Text → List SessionRow → Option User
unfolding session_user read_session_token
by_mode auth dev now cookie rows = some auth.dev_admin
by_mode auth oidc now cookie rows = session_user auth now (read_session_token cookie) rows
by_mode auth session now cookie rows = session_user auth now (read_session_token cookie) rows

-- `none` is the answer 401.
unfoldable pub from_request_parts : AuthState → ℕ → Option Text → List SessionRow → Option User
unfolding by_mode
from_request_parts auth now cookie rows = elim auth.external [
  | some user ↦ some user
  | none ↦ by_mode auth auth.mode now cookie rows
]

unfoldable pub mint_session : ℕ → SessionRow → List SessionRow → List SessionRow
unfolding create_session
mint_session now row = create_session (record row { expires_at = now + session_ttl_secs })

unfoldable pub oidc_logout : AuthState → Option Text → List SessionRow → List SessionRow
unfolding read_session_token delete_session
oidc_logout auth cookie rows = elim (read_session_token cookie) [
  | none ↦ rows
  | some token ↦ delete_session (auth.hash_token token) rows
]
