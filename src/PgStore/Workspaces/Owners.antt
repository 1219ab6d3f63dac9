-- ===== src/PgStore/Workspaces/Owners.antt =====
-- A workspace that has an owner keeps one.
use qpedia.Prelude.{
  ℕ, ◌+◌, ◌≤◌, ◌<◌, ◌≡◌, refl, ap, subst, true, false, ◌&&◌, Bool-cases, inl, inr, Option, none,
  some, Option-cases, List, [], ◌∷◌, ◌++◌, arith, leb, not_leb→lt, if◌then◌else◌,
}
use qpedia.Text.{Text, codes, text_eq}
use qpedia.Text.Laws.{text_eq_iff, text_eq→eq}
use qpedia.PgStore.Workspaces.{
  Member, Invite, Store, Event, ensures, removes, creates_org, invites_to, withdraws, accepts,
  is_member, find_member, insert_member, ensure_membership, is_owner, is_owner_role, owners,
  delete_member, remove_seen, remove_member, create_org_workspace, create_invite, delete_invite,
  get_invite_by_token, accept, accept_invite, step, run,
}

-- The primary key of `workspace_members`.
abbrev pub IsUnique : List Member → Type 0
IsUnique [] = Unit
IsUnique (m ∷ members) = (find_member m.tenant m.user_id members ≡ none) × IsUnique members

delete_absent :
    (t u : Text) (members : List Member)
    → find_member t u members ≡ none
    → delete_member t u members ≡ members
unfolding find_member delete_member
delete_absent t u [] h = refl
delete_absent t u (m ∷ members) h = elim (Bool-cases (is_member t u m)) [
  | inl e ↦ cc (rw (find_member, e) at h)
  | inr e ↦
      rw (delete_member, e)
        (ap (λ rest. m ∷ rest) (delete_absent t u members (rw (find_member, e) at h)))
]

find_deleted :
    (t u v w : Text) (members : List Member)
    → find_member t u members ≡ none
    → find_member t u (delete_member v w members) ≡ none
unfolding find_member delete_member
find_deleted t u v w [] h = refl
find_deleted t u v w (m ∷ members) h = elim (Bool-cases (is_member t u m)) [
  | inl e ↦ cc (rw (find_member, e) at h)
  | inr e ↦ elim (Bool-cases (is_member v w m)) [
    | inl f ↦ rw (delete_member, f) (find_deleted t u v w members (rw (find_member, e) at h))
    | inr f ↦
        rw (delete_member, f, find_member, e)
          (find_deleted t u v w members (rw (find_member, e) at h))
  ]
]

delete-IsUnique :
    (t u : Text) (members : List Member) → IsUnique members → IsUnique (delete_member t u members)
unfolding delete_member
delete-IsUnique t u [] h = tt
delete-IsUnique t u (m ∷ members) (h, hs) = elim (Bool-cases (is_member t u m)) [
  | inl e ↦ rw (delete_member, e) (delete-IsUnique t u members hs)
  | inr e ↦
      rw (delete_member, e)
        (find_deleted m.tenant m.user_id t u members h, delete-IsUnique t u members hs)
]

is_member_swap :
    (x m : Member) → is_member x.tenant x.user_id m ≡ false → is_member m.tenant m.user_id x ≡ false
unfolding is_member
is_member_swap x m h = ground (
  arith,
  text_eq_iff x.tenant m.tenant,
  text_eq_iff m.tenant x.tenant,
  text_eq_iff x.user_id m.user_id,
  text_eq_iff m.user_id x.user_id,
)

find_appended :
    (t u : Text) (members : List Member) (x : Member)
    → find_member t u members ≡ none
    → is_member t u x ≡ false
    → find_member t u (members ++ x ∷ []) ≡ none
unfolding find_member
find_appended t u [] x h k = rw (find_member, k) refl
find_appended t u (m ∷ members) x h k = elim (Bool-cases (is_member t u m)) [
  | inl e ↦ cc (rw (find_member, e) at h)
  | inr e ↦ rw (find_member, e) (find_appended t u members x (rw (find_member, e) at h) k)
]

append-IsUnique :
    (members : List Member) (x : Member)
    → IsUnique members
    → find_member x.tenant x.user_id members ≡ none
    → IsUnique (members ++ x ∷ [])
unfolding find_member
append-IsUnique [] x h k = (refl, tt)
append-IsUnique (m ∷ members) x (h, hs) k = elim (Bool-cases (is_member x.tenant x.user_id m)) [
  | inl e ↦ cc (rw (find_member, e) at k)
  | inr e ↦ (
    find_appended m.tenant m.user_id members x h (is_member_swap x m e),
    append-IsUnique members x hs (rw (find_member, e) at k),
  )
]

owners-append :
    (t : Text) (members : List Member) (x : Member)
    → owners t members ≤ owners t (members ++ x ∷ [])
unfolding owners
owners-append t [] x = omega arith
owners-append t (m ∷ members) x = omega (arith, owners-append t members x)

-- The owner that a workspace loses with a row.
abbrev lost : Text → Text → Option Member → ℕ
lost t v o = if text_eq v t && is_owner_role o then 1 else 0

lost_own :
    (t v u : Text) (m : Member)
    → is_member v u m ≡ true
    → (if is_owner t m then 1 else 0) ≤ lost t v (some m)
unfolding is_member is_owner
lost_own t v u m h = elim (Bool-cases (text_eq m.tenant v)) [
  | inl e ↦ rw (← text_eq→eq m.tenant v e) (omega arith)
  | inr e ↦ cc (rw (is_member, e) at h)
]

own_row : (v u : Text) (m : Member) → is_member v u m ≡ true → (m.tenant ≡ v) × (m.user_id ≡ u)
unfolding is_member
own_row v u m h = ground (arith, text_eq_iff m.tenant v, text_eq_iff m.user_id u)

own_absent :
    (v u : Text) (m : Member) (members : List Member)
    → is_member v u m ≡ true
    → find_member m.tenant m.user_id members ≡ none
    → find_member v u members ≡ none
own_absent v u m members h k =
    let (e, f) = own_row v u m h in
    subst (λ w. find_member v w members ≡ none) f
      (subst (λ w. find_member w m.user_id members ≡ none) e k)

owners-delete :
    (t v u : Text) (members : List Member)
    → IsUnique members
    → owners t members ≤ owners t (delete_member v u members) + lost t v (find_member v u members)
unfolding owners delete_member find_member
owners-delete t v u [] h = omega arith
owners-delete t v u (m ∷ members) (h, hs) = elim (Bool-cases (is_member v u m)) [
  | inl e ↦
      rw (delete_member, find_member, e)
        (omega (
          arith,
          lost_own t v u m e,
          ap (λ rest. owners t rest) (delete_absent v u members (own_absent v u m members e h)),
        ))
  | inr e ↦ rw (delete_member, find_member, e) (omega (arith, owners-delete t v u members hs))
]

abbrev pub HasOwner : Text → List Member → Type 0
HasOwner t members = 0 < owners t members

-- Distinct keys, and an owner of the workspace.
abbrev pub IsOwned : Text → Store → Type 0
IsOwned t s = IsUnique s.members × HasOwner t s.members

insert_member-IsUnique :
    (x : Member) (o : Option Member) (members : List Member)
    → find_member x.tenant x.user_id members ≡ o
    → IsUnique members
    → IsUnique (insert_member x o members)
unfolding insert_member
insert_member-IsUnique x none members e h = append-IsUnique members x h e
insert_member-IsUnique x (some m) members e h = h

insert_member-HasOwner :
    (t : Text) (x : Member) (o : Option Member) (members : List Member)
    → HasOwner t members
    → HasOwner t (insert_member x o members)
unfolding insert_member
insert_member-HasOwner t x none members h = omega (arith, owners-append t members x)
insert_member-HasOwner t x (some m) members h = h

ensure_membership-IsOwned :
    (t tenant user_id : Text) (email : Option Text) (role : Text) (s : Store)
    → IsOwned t s
    → IsOwned t (ensure_membership tenant user_id email role s)
unfolding ensure_membership
ensure_membership-IsOwned t tenant user_id email role s (unique, owned) =
    let x : Member = record { tenant = tenant; user_id = user_id; email = email; role = role } in
    (
      insert_member-IsUnique x (find_member tenant user_id s.members) s.members refl unique,
      insert_member-HasOwner t x (find_member tenant user_id s.members) s.members owned,
    )

-- Removing a member that is not the last owner.
owned_after :
    (t tenant : Text) (o : Option Member) (before after : ℕ)
    → before ≤ after + lost t tenant o
    → (is_owner_role o && leb before 1) ≡ false
    → text_eq tenant t ≡ true
    → 0 < before
    → 0 < after
owned_after t tenant o before after h k e p = elim (Bool-cases (is_owner_role o)) [
  | inl f ↦ omega (arith, rw (e, f) at h, not_leb→lt before 1 (rw f at k))
  | inr f ↦ omega (arith, rw (e, f) at h)
]

remove_member-IsOwned :
    (t tenant user_id : Text) (s : Store)
    → IsOwned t s
    → IsOwned t (remove_member tenant user_id s).0
unfolding remove_member remove_seen
remove_member-IsOwned t tenant user_id s (unique, owned) =
    elim (Bool-cases
      (is_owner_role (find_member tenant user_id s.members) && leb (owners tenant s.members) 1)) [
        | inl e ↦ rw (remove_seen, e) (unique, owned)
        | inr e ↦ rw (remove_seen, e) (delete-IsUnique tenant user_id s.members unique, kept e)
      ]
  where
    kept :
        (is_owner_role (find_member tenant user_id s.members) && leb (owners tenant s.members) 1)
          ≡ false
        → HasOwner t (delete_member tenant user_id s.members)
    kept e = elim (Bool-cases (text_eq tenant t)) [
      | inl f ↦
          owned_after t tenant (find_member tenant user_id s.members) (owners t s.members)
            (owners t (delete_member tenant user_id s.members))
            (owners-delete t tenant user_id s.members unique)
            (subst
              (λ w.
                (is_owner_role (find_member tenant user_id s.members) && leb (owners w s.members) 1)
                ≡ false)
              (text_eq→eq tenant t f) e)
            f owned
      | inr f ↦ omega (arith, rw f at (owners-delete t tenant user_id s.members unique))
    ]

accept-IsOwned :
    (t : Text) (now : ℕ) (user_id : Text) (email : Option Text) (s : Store) (o : Option Invite)
    → IsOwned t s
    → IsOwned t (accept now user_id email s o).0
unfolding accept
accept-IsOwned t now user_id email s none h = h
accept-IsOwned t now user_id email s (some i) h = elim (Option-cases i.accepted_at) [
  | inr (at, e) ↦ rw (accept, e) h
  | inl e ↦ elim (Bool-cases (leb i.expires_at now)) [
    | inl f ↦ rw (accept, e, f) h
    | inr f ↦ rw (accept, e, f) (ensure_membership-IsOwned t i.tenant user_id email i.role s h)
  ]
]

step-IsOwned : (t : Text) (e : Event) (s : Store) → IsOwned t s → IsOwned t (step e s)
unfolding step create_org_workspace create_invite delete_invite accept_invite
step-IsOwned t (ensures tenant user_id email role) s h =
    ensure_membership-IsOwned t tenant user_id email role s h
step-IsOwned t (removes tenant user_id) s h = remove_member-IsOwned t tenant user_id s h
step-IsOwned t (creates_org slug owner_user_id owner_email) s h =
    ensure_membership-IsOwned t slug owner_user_id owner_email (codes "owner") s h
step-IsOwned t (invites_to tenant email role token invited_by ttl_secs now) s h = h
step-IsOwned t (withdraws tenant id) s h = h
step-IsOwned t (accepts token user_id email now) s h =
    accept-IsOwned t now user_id email s (get_invite_by_token token s.invites) h

-- Whatever the server asks of the store, in any order but with no two calls overlapping, a workspace that
-- has an owner still has one afterwards, and no user has two rows in one workspace.
pub run-IsOwned : (t : Text) (es : List Event) (s : Store) → IsOwned t s → IsOwned t (run es s)
unfolding run
run-IsOwned t [] s h = h
run-IsOwned t (e ∷ es) s h = run-IsOwned t es (step e s) (step-IsOwned t e s h)
