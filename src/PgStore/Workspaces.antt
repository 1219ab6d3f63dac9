-- ===== src/PgStore/Workspaces.antt =====
-- crates/qpedia-pg-store/src/workspaces.rs: who belongs to a workspace, and the invites to one. A query
-- in a tenant's transaction sees that tenant's rows alone; the time is an argument. A call with several
-- statements, such as `remove_member` or `accept_invite`, is one step, as it is when no other call overlaps
-- it; the source locks nothing. `remove_seen` is the part of `remove_member` that may come later.
pub mod Owners
pub mod Invites
pub mod Domains
pub mod Held
pub mod Verified
pub mod DomainTests
pub mod Tests
use qpedia.Prelude.{
  ℕ, suc, ◌+◌, Bool, true, false, not, ◌&&◌, ◌||◌, Option, none, some, List, [], ◌∷◌, ◌++◌, ltb,
  leb, ◌==◌, if◌then◌else◌, Result, ok, err, map,
}
use qpedia.Text.{Text, codes, text_eq, trim, to_ascii_lowercase}

pub record Member : Type 0 where
  pub tenant : Text
  pub user_id : Text
  pub email : Option Text
  pub role : Text

pub record Invite : Type 0 where
  pub id : ℕ
  pub tenant : Text
  pub email : Text
  pub role : Text
  pub token : Text
  pub invited_by : Text
  pub expires_at : ℕ
  pub accepted_at : Option ℕ

pub record Store : Type 0 where
  pub members : List Member
  pub invites : List Invite
  pub next_id : ℕ

pub data WorkspaceError : Type 0 where
  last_owner invite_not_found invite_already_accepted invite_expired : WorkspaceError

-- The row of a user in a workspace.
unfoldable pub is_member : Text → Text → Member → Bool
unfolding text_eq
is_member tenant user_id m = text_eq m.tenant tenant && text_eq m.user_id user_id

unfoldable pub find_member : Text → Text → List Member → Option Member
unfolding is_member
find_member tenant user_id [] = none
find_member tenant user_id (m ∷ members) =
    if is_member tenant user_id m then some m else find_member tenant user_id members

abbrev role_of : Option Member → Option Text
role_of none = none
role_of (some m) = some m.role

unfoldable pub membership_role : Text → Text → Store → Option Text
unfolding find_member
membership_role tenant user_id s = role_of (find_member tenant user_id s.members)

-- `INSERT … ON CONFLICT (tenant_id, user_id) DO NOTHING`
insert_member : Member → Option Member → List Member → List Member
insert_member m none members = members ++ m ∷ []
insert_member m (some found) members = members

unfoldable pub ensure_membership : Text → Text → Option Text → Text → Store → Store
unfolding insert_member find_member
ensure_membership tenant user_id email role s = record s {
  members =
      insert_member (record { tenant = tenant; user_id = user_id; email = email; role = role })
        (find_member tenant user_id s.members) s.members;
}

unfoldable pub is_owner : Text → Member → Bool
unfolding text_eq
is_owner tenant m = text_eq m.tenant tenant && text_eq m.role (codes "owner")

-- `SELECT count(*) … WHERE role = 'owner'`
unfoldable pub owners : Text → List Member → ℕ
unfolding is_owner
owners tenant [] = 0
owners tenant (m ∷ members) = (if is_owner tenant m then 1 else 0) + owners tenant members

unfoldable pub delete_member : Text → Text → List Member → List Member
unfolding is_member
delete_member tenant user_id [] = []
delete_member tenant user_id (m ∷ members) =
    let rest = delete_member tenant user_id members in
    if is_member tenant user_id m then rest else m ∷ rest

abbrev is_owner_role : Option Member → Bool
is_owner_role none = false
is_owner_role (some m) = text_eq m.role (codes "owner")

-- `remove_member` after its two queries, which saw the members `seen`: nothing is locked, so that other
-- transactions may have changed the table before the row is deleted.
unfoldable pub remove_seen :
    List Member → Text → Text → Store → Store × Result WorkspaceError (Unit {0})
unfolding owners find_member delete_member text_eq
remove_seen seen tenant user_id s =
    if is_owner_role (find_member tenant user_id seen) && leb (owners tenant seen) 1
    then (s, err last_owner)
    else (record s { members = delete_member tenant user_id s.members }, ok tt)

-- A call that no other overlaps.
unfoldable pub remove_member : Text → Text → Store → Store × Result WorkspaceError (Unit {0})
unfolding remove_seen
remove_member tenant user_id s = remove_seen s.members tenant user_id s

unfoldable pub create_org_workspace : Text → Text → Option Text → Store → Store
unfolding ensure_membership
create_org_workspace slug owner_user_id owner_email =
    ensure_membership slug owner_user_id owner_email (codes "owner")

unfoldable pub create_invite : Text → Text → Text → Text → Text → ℕ → ℕ → Store → Store × ℕ
unfolding trim
create_invite tenant email role token invited_by ttl_secs now s = (
  record s {
    invites =
        s.invites
        ++ record {
          id = s.next_id;
          tenant = tenant;
          email = map to_ascii_lowercase (trim email);
          role = role;
          token = token;
          invited_by = invited_by;
          expires_at = now + ttl_secs;
          accepted_at = none;
        }
          ∷ [];
    next_id = suc s.next_id;
  },
  s.next_id,
)

-- Not accepted, and not expired.
unfoldable pub is_pending : ℕ → Invite → Bool
is_pending now i = elim i.accepted_at [ none ↦ ltb now i.expires_at | some at ↦ false ]

-- In the order of the table, where the source has the latest first.
unfoldable pub list_invites : Text → ℕ → List Invite → List Invite
unfolding is_pending text_eq
list_invites tenant now [] = []
list_invites tenant now (i ∷ invites) =
    let rest = list_invites tenant now invites in
    if text_eq i.tenant tenant && is_pending now i then i ∷ rest else rest

unfoldable pub delete_row : Text → ℕ → List Invite → List Invite
unfolding text_eq
delete_row tenant id [] = []
delete_row tenant id (i ∷ invites) =
    let rest = delete_row tenant id invites in
    if text_eq i.tenant tenant && i.id == id then rest else i ∷ rest

unfoldable pub delete_invite : Text → ℕ → Store → Store
unfolding delete_row
delete_invite tenant id s = record s { invites = delete_row tenant id s.invites }

unfoldable pub get_invite_by_token : Text → List Invite → Option Invite
unfolding text_eq
get_invite_by_token token [] = none
get_invite_by_token token (i ∷ invites) =
    if text_eq i.token token then some i else get_invite_by_token token invites

-- `UPDATE workspace_invites SET accepted_at = now() WHERE id = …`, in the invite's tenant.
unfoldable pub mark_accepted : Text → ℕ → ℕ → List Invite → List Invite
unfolding text_eq
mark_accepted tenant id now [] = []
mark_accepted tenant id now (i ∷ invites) =
    (if text_eq i.tenant tenant && i.id == id then record i { accepted_at = some now } else i)
    ∷ mark_accepted tenant id now invites

accept : ℕ → Text → Option Text → Store → Option Invite → Store × Result WorkspaceError Text
unfolding ensure_membership mark_accepted
accept now user_id email s none = (s, err invite_not_found)
accept now user_id email s (some i) = elim i.accepted_at [
  | some at ↦ (s, err invite_already_accepted)
  | none ↦ if leb i.expires_at now then (s, err invite_expired) else (
    record (ensure_membership i.tenant user_id email i.role s) {
      invites = mark_accepted i.tenant i.id now s.invites;
    },
    ok i.tenant,
  )
]

unfoldable pub accept_invite :
    Text → Text → Option Text → ℕ → Store → Store × Result WorkspaceError Text
unfolding accept get_invite_by_token
accept_invite token user_id email now s =
    accept now user_id email s (get_invite_by_token token s.invites)

-- What the server asks of the store, one call after the other.
pub data Event : Type 0 where
  ensures : (tenant user_id : Text) (email : Option Text) (role : Text) → Event
  removes : (tenant user_id : Text) → Event
  creates_org : (slug owner_user_id : Text) (owner_email : Option Text) → Event
  invites_to : (tenant email role token invited_by : Text) (ttl_secs now : ℕ) → Event
  withdraws : (tenant : Text) (id : ℕ) → Event
  accepts : (token user_id : Text) (email : Option Text) (now : ℕ) → Event

unfoldable pub step : Event → Store → Store
unfolding ensure_membership remove_member create_org_workspace create_invite delete_invite
    accept_invite
step (ensures tenant user_id email role) s = ensure_membership tenant user_id email role s
step (removes tenant user_id) s = (remove_member tenant user_id s).0
step (creates_org slug owner_user_id owner_email) s =
    create_org_workspace slug owner_user_id owner_email s
step (invites_to tenant email role token invited_by ttl_secs now) s =
    (create_invite tenant email role token invited_by ttl_secs now s).0
step (withdraws tenant id) s = delete_invite tenant id s
step (accepts token user_id email now) s = (accept_invite token user_id email now s).0

unfoldable pub run : List Event → Store → Store
unfolding step
run [] s = s
run (e ∷ es) s = run es (step e s)
