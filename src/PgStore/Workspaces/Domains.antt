-- ===== src/PgStore/Workspaces/Domains.antt =====
-- crates/qpedia-pg-store/src/workspaces.rs, `claim_domain` to `delete_domain`: the domains that workspaces
-- claim and verify. The unique index on verified domains (migrations/0007_workspace_domains.sql) is part of
-- `verify_domain`; it reaches over all workspaces, while the queries see the rows of one.
use qpedia.Prelude.{
  ℕ, suc, Bool, true, false, not, ◌&&◌, Option, none, some, List, [], ◌∷◌, ◌++◌, map, any, filter,
  if◌then◌else◌, Result, ok, err,
}
use qpedia.Text.{Text, text_eq, trim, to_ascii_lowercase}
use qpedia.Core.Tenant.{Tenant, new}

pub record WorkspaceDomain : Type 0 where
  pub id : ℕ
  pub tenant_id : Text
  pub domain : Text
  pub verified : Bool
  pub verified_via : Option Text
  pub verified_at : Option ℕ
  pub verification_token : Text
  pub created_by : Text

pub record Domains : Type 0 where
  pub rows : List WorkspaceDomain
  pub next_id : ℕ

pub data DomainError : Type 0 where
  no_claim verified_elsewhere : DomainError

-- `domain.trim().to_ascii_lowercase()`
unfoldable pub normal : Text → Text
unfolding trim
normal domain = map to_ascii_lowercase (trim domain)

-- The row of a workspace's claim on a domain.
unfoldable pub is_claim : Text → Text → WorkspaceDomain → Bool
unfolding text_eq
is_claim tenant domain r = text_eq r.tenant_id tenant && text_eq r.domain domain

unfoldable pub find_claim : Text → Text → List WorkspaceDomain → Option WorkspaceDomain
unfolding is_claim
find_claim tenant domain [] = none
find_claim tenant domain (r ∷ rows) =
    let rest = find_claim tenant domain rows in if is_claim tenant domain r then some r else rest

-- `DO UPDATE SET verification_token = EXCLUDED.verification_token`
unfoldable pub with_token : Text → Text → Text → WorkspaceDomain → WorkspaceDomain
unfolding is_claim
with_token tenant domain token r =
    if is_claim tenant domain r then record r { verification_token = token } else r

unfoldable pub put_claim :
    WorkspaceDomain → Option WorkspaceDomain → List WorkspaceDomain → List WorkspaceDomain × ℕ
unfolding with_token
put_claim r none rows = (rows ++ r ∷ [], r.id)
put_claim r (some found) rows =
    (map (with_token r.tenant_id r.domain r.verification_token) rows, found.id)

-- The sequence of keys moves on for an update too.
unfoldable pub claim_domain : Text → Text → Text → Text → Domains → Domains × ℕ
unfolding normal find_claim put_claim
claim_domain tenant domain created_by token s =
    let row : WorkspaceDomain = record {
      id = s.next_id;
      tenant_id = tenant;
      domain = normal domain;
      verified = false;
      verified_via = none;
      verified_at = none;
      verification_token = token;
      created_by = created_by;
    } in
    let (rows, id) = put_claim row (find_claim tenant (normal domain) s.rows) s.rows in
    (record { rows = rows; next_id = suc s.next_id }, id)

-- A row that the unique index on verified domains does not let stand beside the workspace's own.
unfoldable pub is_elsewhere : Text → Text → WorkspaceDomain → Bool
unfolding text_eq
is_elsewhere tenant domain r =
    r.verified && text_eq r.domain domain && not (text_eq r.tenant_id tenant)

unfoldable pub set_verified : Text → Text → Text → ℕ → WorkspaceDomain → WorkspaceDomain
unfolding is_claim
set_verified tenant domain via now r =
    if is_claim tenant domain r
    then record r { verified = true; verified_via = some via; verified_at = some now }
    else r

unfoldable pub verify_domain :
    Text → Text → Text → ℕ → Domains → Domains × Result DomainError (Unit {0})
unfolding normal is_claim is_elsewhere set_verified
verify_domain tenant domain via now s =
    if any (is_claim tenant (normal domain)) s.rows
    then if any (is_elsewhere tenant (normal domain)) s.rows
      then (s, err verified_elsewhere)
      else (record s { rows = map (set_verified tenant (normal domain) via now) s.rows }, ok tt)
    else (s, err no_claim)

token_of : Option WorkspaceDomain → Option Text
token_of none = none
token_of (some r) = some r.verification_token

unfoldable pub domain_verification_token : Text → Text → Domains → Option Text
unfolding normal find_claim token_of
domain_verification_token tenant domain s = token_of (find_claim tenant (normal domain) s.rows)

unfoldable pub owner_in : Text → List WorkspaceDomain → Option Text
unfolding text_eq
owner_in domain [] = none
owner_in domain (r ∷ rows) =
    let rest = owner_in domain rows in
    if text_eq r.domain domain && r.verified then some r.tenant_id else rest

abbrev pub as_tenant : Option Text → Option Tenant
as_tenant none = none
as_tenant (some id) = some (new id)

unfoldable pub domain_owner : Text → Domains → Option Tenant
unfolding normal owner_in
domain_owner domain s = as_tenant (owner_in (normal domain) s.rows)

unfoldable pub delete_domain : Text → Text → Domains → Domains
unfolding normal is_claim
delete_domain tenant domain s = record s {
  rows = filter (λ r. not (is_claim tenant (normal domain) r)) s.rows;
}

-- What the server asks of the table.
pub data DomainEvent : Type 0 where
  claims : (tenant domain created_by token : Text) → DomainEvent
  verifies : (tenant domain via : Text) (now : ℕ) → DomainEvent
  drops : (tenant domain : Text) → DomainEvent

unfoldable pub step : DomainEvent → Domains → Domains
unfolding claim_domain verify_domain delete_domain
step (claims tenant domain created_by token) s = (claim_domain tenant domain created_by token s).0
step (verifies tenant domain via now) s = (verify_domain tenant domain via now s).0
step (drops tenant domain) s = delete_domain tenant domain s

unfoldable pub run : List DomainEvent → Domains → Domains
unfolding step
run [] s = s
run (e ∷ events) s = run events (step e s)
