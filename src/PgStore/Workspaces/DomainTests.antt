-- ===== src/PgStore/Workspaces/DomainTests.antt =====
-- Two workspaces that claim one domain.
use qpedia.Prelude.{◌≡◌, refl, false, none, some, [], ◌∷◌, ok, err, All, List}
use qpedia.Text.{codes, text_eq, trim}
use qpedia.Core.Tenant.{new}
use qpedia.PgStore.Workspaces.Domains.{
  Domains, verified_elsewhere, DomainEvent, claims, verifies, drops, normal, verify_domain,
  claim_domain, domain_owner, domain_verification_token, run,
}
use qpedia.PgStore.Workspaces.Verified.{Keeps, verify_domain-domain_owner}

abbrev claimed : Domains
claimed = record {
  rows =
      record {
        id = 1;
        tenant_id = codes "acme";
        domain = codes "x.org";
        verified = false;
        verified_via = none;
        verified_at = none;
        verification_token = codes "n1";
        created_by = codes "ann";
      }
      ∷ [];
  next_id = 2;
}

abbrev others : List DomainEvent
others =
    claims (codes "evil") (codes "x.org") (codes "eve") (codes "n2")
    ∷ verifies (codes "evil") (codes "X.org") (codes "dns") 20
    ∷ drops (codes "evil") (codes "x.org")
    ∷ claims (codes "acme") (codes "x.org") (codes "bob") (codes "n3")
    ∷ []

verified : (verify_domain (codes "acme") (codes " X.org") (codes "dns") 10 claimed).1 ≡ ok tt
unfolding verify_domain
verified = refl

others_keep : All (Keeps (codes "acme") (normal (codes " X.org"))) others
unfolding Keeps normal text_eq trim
others_keep = (tt, (tt, (refl, (tt, tt))))

verify_domain-domain_owner_example :
    domain_owner
      (codes " X.org")
      (run others (verify_domain (codes "acme") (codes " X.org") (codes "dns") 10 claimed).0)
    ≡ some (new (codes "acme"))
verify_domain-domain_owner_example =
    verify_domain-domain_owner (codes "acme") (codes " X.org") (codes "dns") 10 claimed others
      verified others_keep

second_verify :
    (verify_domain
      (codes "evil")
      (codes "x.org")
      (codes "dns")
      20
      (claim_domain
        (codes "evil")
        (codes "x.org")
        (codes "eve")
        (codes "n2")
        (verify_domain (codes "acme") (codes "x.org") (codes "dns") 10 claimed).0).0).1
    ≡ err verified_elsewhere
unfolding verify_domain claim_domain
second_verify = refl

token_replaced :
    domain_verification_token
      (codes "acme")
      (codes "X.ORG")
      (claim_domain (codes "acme") (codes "x.org") (codes "bob") (codes "n3") claimed).0
    ≡ some (codes "n3")
unfolding domain_verification_token claim_domain
token_replaced = refl
