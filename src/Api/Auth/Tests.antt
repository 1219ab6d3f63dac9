-- ===== src/Api/Auth/Tests.antt =====
-- A sign-in, a change of workspace and a sign-out, and the users that requests have then.
use qpedia.Prelude.{◌≡◌, refl, inr, true, none, some, List, [], ◌∷◌}
use qpedia.Text.{Text, codes, split_head}
use qpedia.PgStore.Sessions.{SessionRow, find_session}
use qpedia.PgStore.Sessions.History.{Change, signed_in, switched, signed_out, apply_all, meanings}
use qpedia.Api.Auth.{
  User, AuthState, session, set_session_cookie, clear_session_cookie, read_bearer,
  augment_admin_with_allow, is_superadmin_user, from_request_parts, mint_session, oidc_logout,
}
use qpedia.Api.Auth.SignedIn.{
  user_until_end, IsGated, IsToken, from_request_parts-set_session_cookie,
}

abbrev row_of : Text → Text → SessionRow
row_of hash user = record {
  token_hash = hash;
  tenant = record { id = codes "acme" };
  user_id = user;
  email = none;
  name = none;
  provider = some (codes "oidc");
  groups = codes "staff" ∷ [];
  expires_at = 100;
}

abbrev ann : User
ann = record {
  id = codes "ann";
  email = some (codes "Ann@acme.com");
  name = none;
  groups = [];
  tenant = codes "acme";
}

abbrev auth : AuthState
auth = record { mode = session; hash_token = λ t. t; dev_admin = ann; external = none }

abbrev changes : List Change
changes =
    signed_in (row_of (codes "t-1") (codes "ann"))
    ∷ signed_in (row_of (codes "t_2") (codes "bob"))
    ∷ switched (codes "t-1") (record { id = codes "lab" }) (codes "admin" ∷ [])
    ∷ signed_out (codes "t_2")
    ∷ []

gated : IsGated auth
gated = (refl, inr refl)

token : IsToken (codes "t-1")
token = (refl, (refl, (refl, tt)))

from_request_parts-set_session_cookie_example :
    from_request_parts auth 7
      (some (split_head b';' (set_session_cookie (codes "t-1") 86400)))
      (apply_all changes [])
    ≡ user_until_end 7 (meanings (codes "t-1") changes (find_session (codes "t-1") []))
from_request_parts-set_session_cookie_example =
    from_request_parts-set_session_cookie auth 7 86400 (codes "t-1") changes [] gated token

requests :
    (from_request_parts auth 7 (some (codes "a=b; qpedia_session=t-1")) (apply_all changes [])
      ≡ some (record {
        id = codes "ann";
        email = none;
        name = none;
        groups = codes "admin" ∷ [];
        tenant = codes "lab";
      }))
    × (from_request_parts auth 100 (some (codes "qpedia_session=t-1")) (apply_all changes [])
        ≡ none)
    × (from_request_parts auth 7 (some (codes "qpedia_session=t_2")) (apply_all changes []) ≡ none)
    × (from_request_parts auth 7 (some clear_session_cookie) (apply_all changes []) ≡ none)
    × (from_request_parts auth 7
          (some (codes "qpedia_session=t-1"))
          (oidc_logout auth (some (codes "qpedia_session=t-1")) (apply_all changes []))
        ≡ none)
unfolding from_request_parts apply_all clear_session_cookie oidc_logout
requests = (refl, refl, refl, refl, refl)

admins :
    (augment_admin_with_allow (some (codes "B@Y.com")) [] (codes "a@x.com, b@y.com")
      ≡ codes "admin" ∷ [])
    × (augment_admin_with_allow (some (codes "c@z.com")) (codes "staff" ∷ []) (codes "a@x.com")
        ≡ codes "staff" ∷ [])
    × (augment_admin_with_allow (some (codes "a@x.com")) [] [] ≡ [])
    × (augment_admin_with_allow (some (codes "a@x.com")) (codes "admin" ∷ []) (codes "a@x.com")
        ≡ codes "admin" ∷ [])
    × (augment_admin_with_allow none [] (codes "a@x.com") ≡ [])
    × (is_superadmin_user ann (codes "ann@acme.com") ≡ true)
unfolding augment_admin_with_allow is_superadmin_user
admins = (refl, refl, refl, refl, refl, refl)

headers :
    (read_bearer (some (codes "bearer  abc ")) ≡ some (codes "abc"))
    × (read_bearer (some (codes "Basic abc")) ≡ none)
unfolding read_bearer
headers = (refl, refl)

mints :
    mint_session 5 (row_of (codes "x") (codes "ann")) []
    ≡ record (row_of (codes "x") (codes "ann")) { expires_at = 86405 } ∷ []
unfolding mint_session
mints = refl
