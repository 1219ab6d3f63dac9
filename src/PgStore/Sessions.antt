-- ===== src/PgStore/Sessions.antt =====
-- crates/qpedia-pg-store/src/sessions.rs: the sessions by the hash of their token. Times are seconds.
pub mod History
use qpedia.Prelude.{ℕ, Bool, true, false, Option, none, some, List, [], ◌∷◌, ltb, if◌then◌else◌}
use qpedia.Text.{Text, text_eq}
use qpedia.Core.Tenant.{Tenant}

-- A row, whose key is the hash.
pub record SessionRow : Type 0 where
  pub token_hash : Text
  pub tenant : Tenant
  pub user_id : Text
  pub email : Option Text
  pub name : Option Text
  pub provider : Option Text
  pub groups : List Text
  pub expires_at : ℕ

-- `INSERT … ON CONFLICT (token_hash) DO UPDATE SET …` of all other columns
unfoldable pub create_session : SessionRow → List SessionRow → List SessionRow
unfolding text_eq
create_session row [] = row ∷ []
create_session row (r ∷ rows) =
    let rest = create_session row rows in
    if text_eq r.token_hash row.token_hash then row ∷ rows else r ∷ rest

pub find_session : Text → List SessionRow → Option SessionRow
unfolding text_eq
find_session token_hash [] = none
find_session token_hash (r ∷ rows) =
    let rest = find_session token_hash rows in
    if text_eq r.token_hash token_hash then some r else rest

-- `… AND expires_at > now()`
abbrev pub live : ℕ → Option SessionRow → Option SessionRow
live now none = none
live now (some r) = if ltb now r.expires_at then some r else none

unfoldable pub lookup_session : ℕ → Text → List SessionRow → Option SessionRow
unfolding find_session
lookup_session now token_hash rows = live now (find_session token_hash rows)

unfoldable pub update_session_workspace :
    Text → Tenant → List Text → List SessionRow → List SessionRow
unfolding text_eq
update_session_workspace token_hash tenant groups [] = []
update_session_workspace token_hash tenant groups (r ∷ rows) =
    (if text_eq r.token_hash token_hash then record r { tenant = tenant; groups = groups } else r)
    ∷ update_session_workspace token_hash tenant groups rows

unfoldable pub delete_session : Text → List SessionRow → List SessionRow
unfolding text_eq
delete_session token_hash [] = []
delete_session token_hash (r ∷ rows) =
    let rest = delete_session token_hash rows in
    if text_eq r.token_hash token_hash then rest else r ∷ rest
