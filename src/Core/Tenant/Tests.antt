-- ===== src/Core/Tenant/Tests.antt =====
-- Tenants at concrete inputs.
use qpedia.Prelude.{◌≡◌, refl}
use qpedia.Text.{codes}
use qpedia.Core.Tenant.{new}

new_tests :
    ((new (codes "  Acme Corp.")).id ≡ codes "acme-corp-")
    × ((new (codes " ")).id ≡ codes "default")
unfolding new
new_tests = (refl, refl)
