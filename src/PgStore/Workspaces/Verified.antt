-- ===== src/PgStore/Workspaces/Verified.antt =====
-- A verified domain stays with its workspace.
use qpedia.Prelude.{
  ℕ, ◌≡◌, refl, sym, ap, subst, ◌∙◌, ◌⊎◌, inl, inr, true, false, not, ◌&&◌, some, List, [], ◌∷◌,
  map, any, ok, any-map, any-append-last, any-filter, any-weaken, none-weaken, err, Bool-cases,
  Option-cases, arith, All,
}
use qpedia.Text.{Text, text_eq}
use qpedia.Text.Laws.{text_eq→eq, text_eq_refl}
use qpedia.Core.Tenant.{new}
use qpedia.PgStore.Workspaces.Domains.{
  WorkspaceDomain, Domains, no_claim, verified_elsewhere, normal, is_claim, find_claim, with_token,
  put_claim, claim_domain, is_elsewhere, set_verified, verify_domain, domain_owner, as_tenant,
  delete_domain, DomainEvent, claims, verifies, drops, step, run,
}
use qpedia.PgStore.Workspaces.Held.{
  owns, IsHeld, owner_in-IsHeld, token_owns, token_elsewhere, verified_owns, claim_eq,
  verified_elsewhere_lem,
}

claims-IsHeld :
    (a d t domain by token : Text) (s : Domains)
    → IsHeld a d s.rows
    → IsHeld a d (claim_domain t domain by token s).0.rows
unfolding claim_domain put_claim IsHeld owns is_elsewhere
claims-IsHeld a d t domain by token s (h, k) =
    elim (Option-cases (find_claim t (normal domain) s.rows)) [
      | inl e ↦ rw e (
        any-append-last (owns a d) s.rows _ refl ∙ h,
        any-append-last (is_elsewhere a d) s.rows _ refl ∙ k,
      )
      | inr (found, e) ↦ rw e (
        any-map (owns a d) (with_token t (normal domain) token) s.rows
            ∙ any-weaken (owns a d) _ s.rows (token_owns a d t (normal domain) token) h,
        any-map (is_elsewhere a d) (with_token t (normal domain) token) s.rows
            ∙ none-weaken (is_elsewhere a d) _ s.rows (token_elsewhere a d t (normal domain) token)
                k,
      )
    ]

other_owns :
    (a d t e : Text) (r : WorkspaceDomain)
    → text_eq t a ≡ false
    → text_eq e d ≡ true
    → owns a d r ≡ true
    → is_elsewhere t e r ≡ true
unfolding owns is_elsewhere
other_owns a d t e r n m h =
    let of_a = text_eq→eq r.tenant_id a (ground (arith, h)) in
    let of_d = text_eq→eq r.domain d (ground (arith, h)) in
    let same =
      subst (λ u. text_eq r.domain u ≡ true) (of_d ∙ sym (text_eq→eq e d m))
        (text_eq_refl r.domain) in
    elim (Bool-cases (text_eq r.tenant_id t)) [
      | inl q ↦
          let clash =
            subst (λ u. text_eq u a ≡ true) (sym of_a ∙ text_eq→eq r.tenant_id t q)
              (text_eq_refl a) in
          ground (arith, clash, n)
      | inr q ↦ ground (arith, h, q, same)
    ]

apart_of :
    (a d t e : Text) (rows : List WorkspaceDomain)
    → any (owns a d) rows ≡ true
    → any (is_elsewhere t e) rows ≡ false
    → (text_eq t a ≡ true) ⊎ (text_eq e d ≡ false)
apart_of a d t e rows h k = elim (Bool-cases (text_eq t a)) [
  | inl p ↦ inl p
  | inr n ↦ elim (Bool-cases (text_eq e d)) [
    | inl m ↦
        let found =
          any-weaken (owns a d) (is_elsewhere t e) rows (λ r. other_owns a d t e r n m) h in
        ground (arith, found, k)
    | inr m ↦ inr m
  ]
]

map_verified-IsHeld :
    (a d t e via : Text) (now : ℕ) (rows : List WorkspaceDomain)
    → (text_eq t a ≡ true) ⊎ (text_eq e d ≡ false)
    → IsHeld a d rows
    → IsHeld a d (map (set_verified t e via now) rows)
unfolding IsHeld
map_verified-IsHeld a d t e via now rows apart (h, k) = (
  any-map (owns a d) (set_verified t e via now) rows
      ∙ any-weaken (owns a d) _ rows (verified_owns a d t e via now) h,
  any-map (is_elsewhere a d) (set_verified t e via now) rows
      ∙ none-weaken (is_elsewhere a d) _ rows (λ r. verified_elsewhere_lem a d t e via now r apart)
          k,
)

verifies-IsHeld :
    (a d t domain via : Text) (now : ℕ) (s : Domains)
    → IsHeld a d s.rows
    → IsHeld a d (verify_domain t domain via now s).0.rows
unfolding verify_domain IsHeld
verifies-IsHeld a d t domain via now s (h, k) =
    elim (Bool-cases (any (is_claim t (normal domain)) s.rows)) [
      | inr n ↦ rw n (h, k)
      | inl c ↦ rw c (elim (Bool-cases (any (is_elsewhere t (normal domain)) s.rows)) [
        | inl e ↦ rw e (h, k)
        | inr n ↦ rw n (
            map_verified-IsHeld a d t (normal domain) via now s.rows
              (apart_of a d t (normal domain) s.rows h n) (h, k))
      ])
    ]

owns_kept :
    (a d t e : Text) (r : WorkspaceDomain)
    → (text_eq t a && text_eq e d) ≡ false
    → owns a d r ≡ true
    → (not (is_claim t e r) && owns a d r) ≡ true
unfolding owns
owns_kept a d t e r n h = elim (Bool-cases (is_claim t e r)) [
  | inl c ↦
      let (p, q) = claim_eq t e r c in
      let of_t : text_eq t a ≡ true = subst (λ u. text_eq u a ≡ true) p (ground (arith, h)) in
      let of_e : text_eq e d ≡ true = subst (λ u. text_eq u d ≡ true) q (ground (arith, h)) in
      ground (arith, n, of_t, of_e)
  | inr c ↦ rw c h
]

drops-IsHeld :
    (a d t domain : Text) (s : Domains)
    → (text_eq t a && text_eq (normal domain) d) ≡ false
    → IsHeld a d s.rows
    → IsHeld a d (delete_domain t domain s).rows
unfolding delete_domain IsHeld
drops-IsHeld a d t domain s n (h, k) = (
  any-filter (owns a d) (λ r. not (is_claim t (normal domain) r)) s.rows
      ∙ any-weaken (owns a d) _ s.rows (λ r. owns_kept a d t (normal domain) r n) h,
  any-filter (is_elsewhere a d) (λ r. not (is_claim t (normal domain) r)) s.rows
      ∙ none-weaken (is_elsewhere a d) _ s.rows (λ r c. ground (arith, c)) k,
)

-- The event is not the workspace's own giving up of the domain.
unfoldable pub Keeps : Text → Text → DomainEvent → Type 0
Keeps a d (claims tenant domain by token) = Unit
Keeps a d (verifies tenant domain via now) = Unit
Keeps a d (drops tenant domain) = (text_eq tenant a && text_eq (normal domain) d) ≡ false

step-IsHeld :
    (a d : Text) (e : DomainEvent) (s : Domains)
    → Keeps a d e
    → IsHeld a d s.rows
    → IsHeld a d (step e s).rows
unfolding step Keeps
step-IsHeld a d (claims tenant domain by token) s k held =
    claims-IsHeld a d tenant domain by token s held
step-IsHeld a d (verifies tenant domain via now) s k held =
    verifies-IsHeld a d tenant domain via now s held
step-IsHeld a d (drops tenant domain) s k held = drops-IsHeld a d tenant domain s k held

run-IsHeld :
    (a d : Text) (events : List DomainEvent) (s : Domains)
    → All (Keeps a d) events
    → IsHeld a d s.rows
    → IsHeld a d (run events s).rows
unfolding run
run-IsHeld a d [] s ks held = held
run-IsHeld a d (e ∷ events) s (k, ks) held =
    run-IsHeld a d events (step e s) ks (step-IsHeld a d e s k held)

claimed_owns :
    (a d via : Text) (now : ℕ) (r : WorkspaceDomain)
    → is_claim a d r ≡ true
    → owns a d (set_verified a d via now r) ≡ true
unfolding owns set_verified is_claim
claimed_owns a d via now r c = rw c (ground (arith, c))

verify_domain-IsHeld :
    (a domain via : Text) (now : ℕ) (s : Domains)
    → (verify_domain a domain via now s).1 ≡ ok tt
    → IsHeld a (normal domain) (verify_domain a domain via now s).0.rows
unfolding verify_domain IsHeld
verify_domain-IsHeld a domain via now s h =
    let d = normal domain in
    elim (Bool-cases (any (is_claim a d) s.rows)) [
      | inr n ↦ let fails : (verify_domain a domain via now s).1 ≡ err no_claim = rw n refl in cc
      | inl c ↦ elim (Bool-cases (any (is_elsewhere a d) s.rows)) [
        | inl e ↦
            let fails : (verify_domain a domain via now s).1 ≡ err verified_elsewhere =
              rw c (rw e refl) in
            cc
        | inr n ↦ rw c (
            rw n (
              any-map (owns a d) (set_verified a d via now) s.rows
                  ∙ any-weaken (is_claim a d) _ s.rows (claimed_owns a d via now) c,
              any-map (is_elsewhere a d) (set_verified a d via now) s.rows
                  ∙ none-weaken (is_elsewhere a d) _ s.rows
                      (λ r. verified_elsewhere_lem a d a d via now r (inl (text_eq_refl a))) n,
            ))
      ]
    ]

-- A domain that a workspace has verified is that workspace's, through any further claims, verifications
-- and deletions, of any workspaces, that are not the workspace's own deletion of the domain.
pub verify_domain-domain_owner :
    (a domain via : Text) (now : ℕ) (s : Domains) (events : List DomainEvent)
    → (verify_domain a domain via now s).1 ≡ ok tt
    → All (Keeps a (normal domain)) events
    → domain_owner domain (run events (verify_domain a domain via now s).0) ≡ some (new a)
unfolding domain_owner
verify_domain-domain_owner a domain via now s events h ks =
    let start = verify_domain-IsHeld a domain via now s h in
    let held = run-IsHeld a (normal domain) events (verify_domain a domain via now s).0 ks start in
    ap as_tenant (
      owner_in-IsHeld a (normal domain) (run events (verify_domain a domain via now s).0).rows held)
