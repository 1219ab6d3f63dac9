-- ===== src/PgStore/OidcPending/Tests.antt =====
-- A sign-in that is saved and taken.
use qpedia.Prelude.{◌+◌, ◌≡◌, refl, none, some, List, [], ◌∷◌, ltb, if◌then◌else◌, arith}
use qpedia.Text.{codes, text_eq}
use qpedia.PgStore.OidcPending.{ttl_secs, PendingLogin, PendingRow, save_pending, take_pending}
use qpedia.PgStore.OidcPending.Once.{take_pending-once}

abbrev login : PendingLogin
login = record {
  pkce_verifier = codes "v";
  nonce = codes "n";
  redirect_after = some (codes "/wiki");
}

abbrev rows : List PendingRow
rows = record { state = codes "s"; login = login; created_at = 1000 } ∷ []

saved : save_pending 1000 (codes "s") login [] ≡ some rows
unfolding save_pending
saved = refl

take_pending-once_example :
    ((take_pending 1300 (codes "s") rows).1
      ≡ (if ltb 1300 (1000 + ttl_secs) then some login else none))
    × ((take_pending 1301 (codes "s") (take_pending 1300 (codes "s") rows).0).1 ≡ none)
take_pending-once_example =
    take_pending-once 1000 1300 (codes "s") login 1301 [] rows saved (omega arith)

expires : (take_pending 1600 (codes "s") rows).1 ≡ none
unfolding take_pending text_eq
expires = refl
