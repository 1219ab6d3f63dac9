-- ===== src/PgStore/Workspaces/Held.antt =====
-- Whether a row on a domain is verified, before and after an update of the row.
use qpedia.Prelude.{
  ℕ, ◌≡◌, sym, ap, subst, ◌⊎◌, inl, inr, Bool, true, false, not, ◌&&◌, some, List, [], ◌∷◌, any,
  Bool-cases, arith,
}
use qpedia.Text.{Text, text_eq}
use qpedia.Text.Laws.{text_eq→eq}
use qpedia.PgStore.Workspaces.Domains.{
  WorkspaceDomain, is_claim, with_token, is_elsewhere, set_verified, owner_in,
}

unfoldable pub owns : Text → Text → WorkspaceDomain → Bool
owns a d r = r.verified && text_eq r.domain d && text_eq r.tenant_id a

-- The workspace has verified the domain, and no other has.
unfoldable pub IsHeld : Text → Text → List WorkspaceDomain → Type 0
IsHeld a d rows = (any (owns a d) rows ≡ true) × (any (is_elsewhere a d) rows ≡ false)

pub owner_in-IsHeld :
    (a d : Text) (rows : List WorkspaceDomain) → IsHeld a d rows → owner_in d rows ≡ some a
unfolding IsHeld owner_in owns is_elsewhere
owner_in-IsHeld a d [] (h, k) = ground (arith, h)
owner_in-IsHeld a d (r ∷ rows) (h, k) = elim (Bool-cases (text_eq r.domain d && r.verified)) [
  | inl e ↦ rw e (ap some (text_eq→eq r.tenant_id a (ground (arith, e, k))))
  | inr n ↦ rw n (owner_in-IsHeld a d rows (ground (arith, n, h), ground (arith, k)))
]

pub token_owns :
    (a d t e token : Text) (r : WorkspaceDomain)
    → owns a d r ≡ true
    → owns a d (with_token t e token r) ≡ true
unfolding owns with_token
token_owns a d t e token r h = elim (Bool-cases (is_claim t e r)) [
  | inl c ↦ rw c h
  | inr c ↦ rw c h
]

pub token_elsewhere :
    (a d t e token : Text) (r : WorkspaceDomain)
    → is_elsewhere a d (with_token t e token r) ≡ true
    → is_elsewhere a d r ≡ true
unfolding is_elsewhere with_token
token_elsewhere a d t e token r = elim (Bool-cases (is_claim t e r)) [
  | inl c ↦ rw c (λ h. h)
  | inr c ↦ rw c (λ h. h)
]

pub verified_owns :
    (a d t e via : Text) (now : ℕ) (r : WorkspaceDomain)
    → owns a d r ≡ true
    → owns a d (set_verified t e via now r) ≡ true
unfolding owns set_verified
verified_owns a d t e via now r h = elim (Bool-cases (is_claim t e r)) [
  | inl c ↦ rw c (ground (arith, h))
  | inr c ↦ rw c h
]

pub claim_eq :
    (t e : Text) (r : WorkspaceDomain) → is_claim t e r ≡ true → (r.tenant_id ≡ t) × (r.domain ≡ e)
unfolding is_claim
claim_eq t e r c =
    (text_eq→eq r.tenant_id t (ground (arith, c)), text_eq→eq r.domain e (ground (arith, c)))

-- No row on the domain but the workspace's own is verified anew.
pub apart_row :
    (a d t e : Text) (r : WorkspaceDomain)
    → is_claim t e r ≡ true
    → (text_eq t a ≡ true) ⊎ (text_eq e d ≡ false)
    → (text_eq r.domain d && not (text_eq r.tenant_id a)) ≡ false
apart_row a d t e r c apart =
    let (p, q) = claim_eq t e r c in
    elim apart [
      | inl h ↦ let own = subst (λ u. text_eq u a ≡ true) (sym p) h in ground (arith, own)
      | inr h ↦ let other = subst (λ u. text_eq u d ≡ false) (sym q) h in ground (arith, other)
    ]

pub verified_elsewhere_lem :
    (a d t e via : Text) (now : ℕ) (r : WorkspaceDomain)
    → (text_eq t a ≡ true) ⊎ (text_eq e d ≡ false)
    → is_elsewhere a d (set_verified t e via now r) ≡ true
    → is_elsewhere a d r ≡ true
unfolding is_elsewhere set_verified is_claim
verified_elsewhere_lem a d t e via now r apart = elim (Bool-cases (is_claim t e r)) [
  | inl c ↦ rw c (λ h. let none_else = apart_row a d t e r c apart in ground (arith, h, none_else))
  | inr c ↦ rw c (λ h. h)
]
