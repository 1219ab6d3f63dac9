-- ===== src/PgStore/Workspaces/Tests.antt =====
-- Workspaces at concrete inputs.
use qpedia.Prelude.{◌≡◌, refl, none, some, [], ◌∷◌, ok, err, arith}
use qpedia.Text.{codes}
use qpedia.PgStore.Workspaces.{
  Store, removes, accepts, last_owner, invite_expired, remove_member, remove_seen, accept_invite,
  find_member, owners, run,
}
use qpedia.PgStore.Workspaces.Owners.{IsOwned, run-IsOwned}
use qpedia.PgStore.Workspaces.Invites.{IsJoined, accept_invite-IsJoined}

abbrev store : Store
store = record {
  members =
      record { tenant = codes "acme"; user_id = codes "ann"; email = none; role = codes "owner" }
      ∷ [];
  invites =
      record {
        id = 1;
        tenant = codes "acme";
        email = codes "bob@x.org";
        role = codes "member";
        token = codes "t0k";
        invited_by = codes "ann";
        expires_at = 500;
        accepted_at = none;
      }
      ∷ [];
  next_id = 2;
}

abbrev joined : Store
joined = record {
  members =
      record { tenant = codes "acme"; user_id = codes "ann"; email = none; role = codes "owner" }
      ∷ record { tenant = codes "acme"; user_id = codes "bob"; email = none; role = codes "member" }
      ∷ [];
  invites =
      record {
        id = 1;
        tenant = codes "acme";
        email = codes "bob@x.org";
        role = codes "member";
        token = codes "t0k";
        invited_by = codes "ann";
        expires_at = 500;
        accepted_at = some 100;
      }
      ∷ [];
  next_id = 2;
}

last_owner_test : remove_member (codes "acme") (codes "ann") store ≡ (store, err last_owner)
unfolding remove_member
last_owner_test = refl

-- Two owners that leave at once: the second query of each has run before the row of either is deleted.
abbrev two_owners : Store
two_owners = record store {
  members =
      record { tenant = codes "acme"; user_id = codes "ann"; email = none; role = codes "owner" }
      ∷ record { tenant = codes "acme"; user_id = codes "bob"; email = none; role = codes "owner" }
      ∷ [];
}

both_owners_leave :
    owners
      (codes "acme")
      (remove_seen two_owners.members
        (codes "acme")
        (codes "bob")
        (remove_seen two_owners.members (codes "acme") (codes "ann") two_owners).0).0.members
    ≡ 0
unfolding remove_seen owners
both_owners_leave = refl

accept_test : accept_invite (codes "t0k") (codes "bob") none 100 store ≡ (joined, ok (codes "acme"))
unfolding accept_invite
accept_test = refl

expired_test :
    accept_invite (codes "t0k") (codes "bob") none 500 store ≡ (store, err invite_expired)
unfolding accept_invite
expired_test = refl

store-IsOwned : IsOwned (codes "acme") store
unfolding owners find_member
store-IsOwned = ((refl, tt), omega arith)

run-IsOwned_example : IsOwned (codes "acme") (
    run
      (removes (codes "acme") (codes "ann") ∷ accepts (codes "t0k") (codes "bob") none 100 ∷ [])
      store)
run-IsOwned_example =
    run-IsOwned (codes "acme")
      (removes (codes "acme") (codes "ann") ∷ accepts (codes "t0k") (codes "bob") none 100 ∷ [])
      store store-IsOwned

accept_invite-IsJoined_example :
    IsJoined (codes "t0k") (codes "bob") 100 store joined (codes "acme")
accept_invite-IsJoined_example =
    accept_invite-IsJoined (codes "t0k") (codes "bob") none 100 store joined (codes "acme")
      accept_test
