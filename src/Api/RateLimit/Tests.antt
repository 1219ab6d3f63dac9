-- ===== src/Api/RateLimit/Tests.antt =====
-- Two tenants with a bucket of two messages and one message a second.
use qpedia.Prelude.{ℕ, ◌+◌, ◌-◌, ◌*◌, ◌≤◌, ◌≡◌, refl, List, [], ◌∷◌, arith}
use qpedia.Text.{Text, codes, text_eq}
use qpedia.Api.RateLimit.{token, ChatRateLimiter, bucket_of, check}
use qpedia.Api.RateLimit.Window.{allowed, IsBefore, IsOrdered, check-within_limit}

abbrev fresh : ChatRateLimiter
fresh = record { rpm = 60; burst = 2; buckets = [] }

abbrev requests : List (Text × ℕ)
requests =
    (codes "a", 0) ∷ (codes "b", 10) ∷ (codes "a", 20) ∷ (codes "a", 30) ∷ (codes "a", 1500) ∷ []

lets_three_through : allowed (codes "a") fresh requests ≡ 3
unfolding allowed check text_eq
lets_three_through = refl

in_order : IsOrdered 0 requests 2000
unfolding IsOrdered
in_order = (omega arith, (omega arith, (omega arith, (omega arith, (omega arith, omega arith)))))

not_called_yet : IsBefore (bucket_of (codes "a") fresh.buckets) 0
unfolding IsBefore bucket_of
not_called_yet = tt

check-within_limit_example :
    allowed (codes "a") fresh requests * token ≤ fresh.burst * token + (2000 - 0) * fresh.rpm
check-within_limit_example =
    check-within_limit (codes "a") fresh requests 0 2000 in_order not_called_yet
