-- ===== src/Api/Auth/SignedIn.antt =====
-- The user of a request that carries the cookie of a session.
use qpedia.Prelude.{
  ℕ, ◌≡◌, refl, sym, ap, ◌∙◌, ◌⊎◌, inl, inr, Bool, true, false, ◌||◌, Option, none, some, List, [],
  ltb, if◌then◌else◌, ◌∷◌, ◌++◌, ◌==◌, arith, is_empty, All, All-map, Bool-cases,
}
use qpedia.Text.{
  Text, codes, is_whitespace, is_ascii_alphanumeric, trim, trim_start, trim_end, trim_end_by,
  strip_prefix, split, split_head, decimal,
}
use qpedia.Text.Split.{HasNone, strip_prefix-append}
use qpedia.Text.Joined.{split-append, split_of_HasNone}
use qpedia.PgStore.Sessions.{SessionRow, live, find_session, lookup_session}
use qpedia.PgStore.Sessions.History.{Change, apply_all, meanings, find-apply_all}
use qpedia.Api.Auth.{
  session_cookie, token_in, read_session_token, set_session_cookie, oidc, session, AuthState, User,
  user_of, session_user, by_mode, from_request_parts,
}

-- The characters of a token: those of URL-safe base64 without padding.
abbrev pub is_token_char : ℕ → Bool
is_token_char c = is_ascii_alphanumeric c || c == b'-' || c == b'_'

abbrev pub IsToken : Text → Type 0
IsToken token = All (λ c. is_token_char c ≡ true) token

-- Neither white space nor a semicolon.
abbrev is_inner : ℕ → Bool
is_inner c = is_token_char c || c == b'='

HasNone-of_inner : (s : Text) → All (λ c. is_inner c ≡ true) s → HasNone b';' s
HasNone-of_inner [] h = tt
HasNone-of_inner (c ∷ s) (h, hs) = ((λ e. cc (sym h ∙ ap is_inner e)), HasNone-of_inner s hs)

inner_is_no_space : (c : ℕ) → is_inner c ≡ true → is_whitespace c ≡ false
inner_is_no_space c h = ground arith

trim_end_of_inner : (s : Text) → All (λ c. is_inner c ≡ true) s → trim_end s ≡ s
unfolding trim_end trim_end_by
trim_end_of_inner [] h = refl
trim_end_of_inner (c ∷ s) (h, hs) =
    rw (inner_is_no_space c h, trim_end_of_inner s hs)
      (elim (Bool-cases (is_empty s)) [ inl e ↦ rw e refl | inr e ↦ rw e refl ])

header : Text → Text
header token = session_cookie ++ (codes "=" ++ token)

head_of : List Text → Text
head_of [] = []
head_of (s ∷ more) = s

split_lem : (sep : ℕ) (s : Text) → head_of (split sep s) ≡ split_head sep s
unfolding split head_of
split_lem sep s = refl

token_char_is_inner : (c : ℕ) → is_token_char c ≡ true → is_inner c ≡ true
token_char_is_inner c h = ground arith

header_inner : (token : Text) → IsToken token → All (λ c. is_inner c ≡ true) (header token)
unfolding header
header_inner token h = (
  refl,
  (
    refl,
    (
      refl,
      (
        refl,
        (
          refl,
          (
            refl,
            (
              refl,
              (
                refl,
                (
                  refl,
                  (
                    refl,
                    (
                      refl,
                      (
                        refl,
                        (refl, (refl, (refl, (All-map (λ c k. token_char_is_inner c k) token h)))),
                      ),
                    ),
                  ),
                ),
              ),
            ),
          ),
        ),
      ),
    ),
  ),
)

-- What the browser keeps of the header and sends back.
cookie-header :
    (token : Text) (age : ℕ)
    → IsToken token
    → split_head b';' (set_session_cookie token age) ≡ header token
unfolding set_session_cookie header head_of
cookie-header token age h =
    sym (split_lem b';' (set_session_cookie token age))
    ∙ ap head_of (
        split-append b';' (header token)
          (codes " Path=/; HttpOnly; SameSite=Lax; Max-Age=" ++ decimal age)
          (HasNone-of_inner (header token) (header_inner token h)))

trim-header : (token : Text) → IsToken token → trim (header token) ≡ header token
unfolding trim trim_start header
trim-header token h = trim_end_of_inner (header token) (header_inner token h)

token_in_one :
    (piece v : Text)
    → strip_prefix (session_cookie ++ codes "=") (trim piece) ≡ some v
    → token_in (piece ∷ []) ≡ some v
unfolding token_in
token_in_one piece v h = rw (token_in, h)

header_lem : (token : Text) → header token ≡ (session_cookie ++ codes "=") ++ token
unfolding header
header_lem token = refl

read-header : (token : Text) → IsToken token → read_session_token (some (header token)) ≡ some token
unfolding read_session_token
read-header token h =
    ap token_in (
      split_of_HasNone b';' (header token) (HasNone-of_inner (header token) (header_inner token h)))
    ∙ token_in_one (header token) token (
        ap (strip_prefix (session_cookie ++ codes "=")) (trim-header token h ∙ header_lem token)
        ∙ strip_prefix-append (session_cookie ++ codes "=") token)

-- The server looks for sessions, and no other provider is asked.
abbrev pub IsGated : AuthState → Type 0
IsGated auth = (auth.external ≡ none) × ((auth.mode ≡ oidc) ⊎ (auth.mode ≡ session))

-- The user of a session, as long as the end of the session is still to come.
abbrev pub user_until_end : ℕ → Option SessionRow → Option User
user_until_end now none = none
user_until_end now (some s) =
    if ltb now s.expires_at
    then some (record {
      id = s.user_id;
      email = s.email;
      name = s.name;
      groups = s.groups;
      tenant = s.tenant.id;
    })
    else none

user_of-live : (now : ℕ) (o : Option SessionRow) → user_of (live now o) ≡ user_until_end now o
user_of-live now none = refl
user_of-live now (some s) = elim (Bool-cases (ltb now s.expires_at)) [
  | inl e ↦ rw e refl
  | inr e ↦ rw e refl
]

module _ (auth : AuthState) (now : ℕ) (token : Text) (rows : List SessionRow) where
  gated :
      (cookie : Option Text)
      → IsGated auth
      → from_request_parts auth now cookie rows
        ≡ session_user auth now (read_session_token cookie) rows
  unfolding from_request_parts by_mode
  gated cookie (none_else, inl m) = rw (from_request_parts, none_else, m) refl
  gated cookie (none_else, inr m) = rw (from_request_parts, none_else, m) refl

  session_user-lookup :
      session_user auth now (some token) rows
      ≡ user_of (live now (find_session (auth.hash_token token) rows))
  unfolding session_user lookup_session
  session_user-lookup = refl

-- In a mode with sessions, and if no provider outside answers, a request with the cookie that a sign-in
-- set is that of the user of the session, as the sign-ins, changes of workspace and sign-outs up to now
-- have left the token's session, whatever happened to other tokens in between; it has no user from the
-- second on in which the session ends, and none if there is no session. The token is of the characters
-- that tokens are made of, and the browser sends the first part of the cookie.
pub from_request_parts-set_session_cookie :
    (auth : AuthState) (now age : ℕ) (token : Text) (changes : List Change) (rows : List SessionRow)
    → IsGated auth
    → IsToken token
    → from_request_parts auth now
        (some (split_head b';' (set_session_cookie token age)))
        (apply_all changes rows)
      ≡ user_until_end now
          (meanings (auth.hash_token token) changes (find_session (auth.hash_token token) rows))
from_request_parts-set_session_cookie auth now age token changes rows g h =
    gated auth now token (apply_all changes rows)
      (some (split_head b';' (set_session_cookie token age))) g
    ∙ ap (λ c. session_user auth now (read_session_token (some c)) (apply_all changes rows))
        (cookie-header token age h)
    ∙ ap (λ t. session_user auth now t (apply_all changes rows)) (read-header token h)
    ∙ session_user-lookup auth now token (apply_all changes rows)
    ∙ ap (λ s. user_of (live now s)) (find-apply_all (auth.hash_token token) changes rows)
    ∙ user_of-live now
        (meanings (auth.hash_token token) changes (find_session (auth.hash_token token) rows))
