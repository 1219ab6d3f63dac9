-- ===== src/PgStore/OidcPending.antt =====
-- crates/qpedia-pg-store/src/oidc_pending.rs: sign-ins that wait for the provider. Times are seconds.
pub mod Once
pub mod Tests
use qpedia.Prelude.{
  ℕ, ◌+◌, Bool, true, false, not, ◌&&◌, Option, none, some, List, [], ◌∷◌, ◌++◌, ltb, filter,
  if◌then◌else◌, any,
}
use qpedia.Text.{Text, text_eq}

abbrev pub ttl_secs : ℕ
ttl_secs = 600

pub record PendingLogin : Type 0 where
  pub pkce_verifier : Text
  pub nonce : Text
  pub redirect_after : Option Text

pub record PendingRow : Type 0 where
  pub state : Text
  pub login : PendingLogin
  pub created_at : ℕ

-- `created_at < now() - 600 s`
is_stale : ℕ → PendingRow → Bool
is_stale now r = ltb (r.created_at + ttl_secs) now

-- `state = $1 AND created_at > now() - 600 s`
is_takeable : ℕ → Text → PendingRow → Bool
unfolding text_eq
is_takeable now state r = text_eq r.state state && ltb now (r.created_at + ttl_secs)

-- The key is the state, so that a second row with it is an error; stale rows are swept after the insert.
unfoldable pub save_pending : ℕ → Text → PendingLogin → List PendingRow → Option (List PendingRow)
unfolding is_stale text_eq
save_pending now state login rows =
    if any (λ r. text_eq r.state state) rows
    then none
    else some (
        filter (λ r. not (is_stale now r))
          (rows ++ record { state = state; login = login; created_at = now } ∷ []))

first_taken : ℕ → Text → List PendingRow → Option PendingLogin
unfolding is_takeable
first_taken now state [] = none
first_taken now state (r ∷ rows) =
    let rest = first_taken now state rows in if is_takeable now state r then some r.login else rest

-- `DELETE … RETURNING`
unfoldable pub take_pending : ℕ → Text → List PendingRow → List PendingRow × Option PendingLogin
unfolding is_takeable first_taken
take_pending now state rows =
    (filter (λ r. not (is_takeable now state r)) rows, first_taken now state rows)
