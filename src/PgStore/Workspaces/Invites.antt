-- ===== src/PgStore/Workspaces/Invites.antt =====
-- An invite lets one user in, once.
use qpedia.Prelude.{
  ℕ, ◌<◌, ◌==◌, ◌≡◌, refl, ap, subst, true, false, ◌&&◌, Bool-cases, inl, inr, Option, none, some,
  Option-cases, List, [], ◌∷◌, ◌++◌, arith, leb, not_leb→lt, Result, ok, err, ok-injective,
}
use qpedia.Text.{Text, text_eq}
use qpedia.Text.Laws.{text_eq_refl}
use qpedia.PgStore.Workspaces.{
  Member, Invite, Store, WorkspaceError, invite_already_accepted, is_member, find_member,
  insert_member, ensure_membership, get_invite_by_token, mark_accepted, accept, accept_invite,
}
use mathlib.Core.Option.{some-injective}

mark_of : ℕ → Invite → Invite
mark_of now i = record i { accepted_at = some now }

eq_self : (k : ℕ) → (k == k) ≡ true
eq_self k = ground arith

get-mark_accepted :
    (token : Text) (now : ℕ) (invites : List Invite) (i : Invite)
    → get_invite_by_token token invites ≡ some i
    → get_invite_by_token token (mark_accepted i.tenant i.id now invites) ≡ some (mark_of now i)
unfolding get_invite_by_token mark_accepted mark_of
get-mark_accepted token now [] i h = cc
get-mark_accepted token now (j ∷ invites) i h = elim (Bool-cases (text_eq j.token token)) [
  | inl e ↦
      subst
        (λ (k : Invite).
          get_invite_by_token token (mark_accepted k.tenant k.id now (j ∷ invites))
          ≡ some (mark_of now k))
        (some-injective _ _ (rw (get_invite_by_token, e) at h))
        (rw (mark_accepted, text_eq_refl j.tenant, eq_self j.id, get_invite_by_token, e) refl)
  | inr e ↦ elim (Bool-cases (text_eq j.tenant i.tenant && j.id == i.id)) [
    | inl f ↦
        rw (mark_accepted, f, get_invite_by_token, e)
          (get-mark_accepted token now invites i (rw (get_invite_by_token, e) at h))
    | inr f ↦
        rw (mark_accepted, f, get_invite_by_token, e)
          (get-mark_accepted token now invites i (rw (get_invite_by_token, e) at h))
  ]
]

find_inserted :
    (x : Member) (o : Option Member) (members : List Member)
    → find_member x.tenant x.user_id members ≡ o
    → (m : Member) × (find_member x.tenant x.user_id (insert_member x o members) ≡ some m)
unfolding insert_member is_member find_member
find_inserted x (some m) members h = (m, h)
find_inserted x none members h = (x, appended members h)
  where
    own : is_member x.tenant x.user_id x ≡ true
    own = rw (is_member, text_eq_refl x.tenant, text_eq_refl x.user_id) refl

    appended :
        (rows : List Member)
        → find_member x.tenant x.user_id rows ≡ none
        → find_member x.tenant x.user_id (rows ++ x ∷ []) ≡ some x
    appended [] k = rw (find_member, own) refl
    appended (m ∷ rows) k = elim (Bool-cases (is_member x.tenant x.user_id m)) [
      | inl e ↦ cc (rw (find_member, e) at k)
      | inr e ↦ rw (find_member, e) (appended rows (rw (find_member, e) at k))
    ]

-- What accepting an invite took and gave.
pub record IsJoined (token user_id : Text) (now : ℕ) (s s' : Store) (tenant : Text) : Type 0 where
  pub invite : Invite
  pub found : get_invite_by_token token s.invites ≡ some invite
  pub workspace : tenant ≡ invite.tenant
  pub pending : invite.accepted_at ≡ none
  pub live : now < invite.expires_at
  pub joined : (m : Member) × (find_member tenant user_id s'.members ≡ some m)
  pub spent :
      (other : Text) (email : Option Text) (later : ℕ)
      → accept_invite token other email later s' ≡ (s', err invite_already_accepted)

granted :
    (token user_id : Text) (email : Option Text) (now : ℕ) (s : Store) (i : Invite)
    → get_invite_by_token token s.invites ≡ some i
    → i.accepted_at ≡ none
    → leb i.expires_at now ≡ false
    → IsJoined token user_id now s
        (record (ensure_membership i.tenant user_id email i.role s) {
          invites = mark_accepted i.tenant i.id now s.invites;
        })
        i.tenant
unfolding ensure_membership accept_invite mark_of
granted token user_id email now s i found pending f = record {
  invite = i;
  found = found;
  workspace = refl;
  pending = pending;
  live = not_leb→lt i.expires_at now f;
  joined =
      find_inserted (record { tenant = i.tenant; user_id = user_id; email = email; role = i.role })
        (find_member i.tenant user_id s.members) s.members refl;
  spent = λ other email' later.
      rw (accept_invite, get-mark_accepted token now s.invites i found, accept, mark_of) refl;
}

accept-IsJoined :
    (token user_id : Text) (email : Option Text) (now : ℕ) (s s' : Store) (tenant : Text)
    (o : Option Invite)
    → get_invite_by_token token s.invites ≡ o
    → accept now user_id email s o ≡ (s', ok tenant)
    → IsJoined token user_id now s s' tenant
unfolding accept
accept-IsJoined token user_id email now s s' tenant none found h = cc
accept-IsJoined token user_id email now s s' tenant (some i) found h =
    elim (Option-cases i.accepted_at) [
      | inr (at, e) ↦ cc (rw (accept, e) at h)
      | inl e ↦ elim (Bool-cases (leb i.expires_at now)) [
        | inl f ↦ cc (rw (accept, e, f) at h)
        | inr f ↦
            let whole = rw (accept, e, f) at h in
            subst (λ (w : Store). IsJoined token user_id now s w tenant)
              (ap (λ (x : Store × Result WorkspaceError Text). x.0) whole)
              (subst (IsJoined token user_id now s _)
                (ok-injective (ap (λ (x : Store × Result WorkspaceError Text). x.1) whole))
                (granted token user_id email now s i found e f))
      ]
    ]

-- Accepting an invite succeeds only for a token that an invite has, which nobody accepted before and which
-- has not expired. The user is then a member of the invite's workspace, and nobody can accept the
-- invite again.
pub accept_invite-IsJoined :
    (token user_id : Text) (email : Option Text) (now : ℕ) (s s' : Store) (tenant : Text)
    → accept_invite token user_id email now s ≡ (s', ok tenant)
    → IsJoined token user_id now s s' tenant
unfolding accept_invite
accept_invite-IsJoined token user_id email now s s' tenant =
    accept-IsJoined token user_id email now s s' tenant (get_invite_by_token token s.invites) refl
