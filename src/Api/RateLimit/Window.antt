-- ===== src/Api/RateLimit/Window.antt =====
-- How many messages a tenant may send within a stretch of time.
use native.Mathlib.Nat.{add-mul, zero-mul}
use qpedia.Prelude.{
  ℕ, ◌+◌, ◌-◌, ◌*◌, ◌≤◌, min, ◌≡◌, sym, ap, subst, ◌∙◌, inl, inr, true, false, Option, none, some,
  List, [], ◌∷◌, arith, leb, leb→le, if◌then◌else◌, Result, ok, err, Bool-cases,
}
use qpedia.Text.{Text, text_eq}
use qpedia.Text.Laws.{text_eq→eq}
use qpedia.Api.RateLimit.{token, Bucket, ChatRateLimiter, bucket_of, refilled, take_token, check}
use qpedia.Api.RateLimit.Buckets.{bucket_of-put_bucket_same, bucket_of-put_bucket_other}

pub count : Result ℕ (Unit {0}) → ℕ
count (ok u) = 1
count (err secs) = 0

-- The messages of a tenant that are let through, of some requests with their times.
unfoldable pub allowed : Text → ChatRateLimiter → List (Text × ℕ) → ℕ
unfolding text_eq check count
allowed a lim [] = 0
allowed a lim ((t, now) ∷ requests) =
    let rest = allowed a (check t now lim).0 requests in
    if text_eq t a then count (check t now lim).1 + rest else rest

unfoldable pub IsOrdered : ℕ → List (Text × ℕ) → ℕ → Type 0
IsOrdered start [] end = start ≤ end
IsOrdered start ((t, now) ∷ requests) end = (start ≤ now) × IsOrdered now requests end

unfoldable pub IsBefore : Option Bucket → ℕ → Type 0
IsBefore none start = Unit
IsBefore (some b) start = b.last_refill ≤ start

later :
    (x rpm last now next B : ℕ)
    → last ≤ now
    → now ≤ next
    → min (x + (next - last) * rpm) B ≤ min (x + (now - last) * rpm) B + (next - now) * rpm
later x rpm last now next B p q =
    let split : next - last ≡ (now - last) + (next - now) = omega arith in
    let product = ap (λ d. d * rpm) split ∙ add-mul (now - last) (next - now) rpm in omega arith

refilled_later :
    (rpm burst now next : ℕ) (b : Option Bucket)
    → IsBefore b now
    → now ≤ next
    → refilled rpm burst next b ≤ refilled rpm burst now b + (next - now) * rpm
unfolding refilled IsBefore
refilled_later rpm burst now next none h q = omega arith
refilled_later rpm burst now next (some b) h q =
    later b.tokens rpm b.last_refill now next (burst * token) h q

spent :
    (rpm tokens : ℕ) → (take_token rpm tokens).0 + count (take_token rpm tokens).1 * token ≡ tokens
unfolding take_token count
spent rpm tokens = elim (Bool-cases (leb token tokens)) [
  | inl e ↦ let enough = leb→le token tokens e in rw e (omega arith)
  | inr e ↦ rw e (omega arith)
]

refilled_now :
    (rpm burst left now : ℕ)
    → refilled rpm burst now (some (record { tokens = left; last_refill = now })) ≤ left
unfolding refilled
refilled_now rpm burst left now =
    let none_passed : now - now ≡ 0 = omega arith in
    let nothing = ap (λ d. d * rpm) none_passed ∙ zero-mul rpm in omega arith

IsOrdered→le :
    (start end : ℕ) (requests : List (Text × ℕ)) → IsOrdered start requests end → start ≤ end
unfolding IsOrdered
IsOrdered→le start end [] h = h
IsOrdered→le start end ((t, now) ∷ requests) (p, h) =
    let q = IsOrdered→le now end requests h in omega arith

through_now :
    (rpm start now end level next rest : ℕ)
    → start ≤ now
    → now ≤ end
    → next ≤ level + (now - start) * rpm
    → rest ≤ next + (end - now) * rpm
    → rest ≤ level + (end - start) * rpm
through_now rpm start now end level next rest p q h k =
    let split : end - start ≡ (now - start) + (end - now) = omega arith in
    let product = ap (λ d. d * rpm) split ∙ add-mul (now - start) (end - now) rpm in omega arith

IsBefore-later :
    (b : Option Bucket) (start now : ℕ) → start ≤ now → IsBefore b start → IsBefore b now
unfolding IsBefore
IsBefore-later none start now p h = tt
IsBefore-later (some b) start now p h = omega arith

-- What `check` leaves of another tenant's bucket, and of the tenant's own.
check-other :
    (a t : Text) (now : ℕ) (lim : ChatRateLimiter)
    → text_eq t a ≡ false
    → bucket_of a (check t now lim).0.buckets ≡ bucket_of a lim.buckets
unfolding check
check-other a t now lim n = bucket_of-put_bucket_other a t _ lim.buckets n

check-own :
    (a t : Text) (now : ℕ) (lim : ChatRateLimiter)
    → text_eq t a ≡ true
    → refilled lim.rpm lim.burst now (bucket_of a (check t now lim).0.buckets)
        + count (check t now lim).1 * token
      ≤ refilled lim.rpm lim.burst now (bucket_of a lim.buckets)
unfolding check
check-own a t now lim e =
    let level = refilled lim.rpm lim.burst now (bucket_of t lim.buckets) in
    let left = (take_token lim.rpm level).0 in
    let own =
      bucket_of-put_bucket_same t (record { tokens = left; last_refill = now }) lim.buckets in
    let bound =
      subst (λ b. refilled lim.rpm lim.burst now b ≤ left) (sym own)
        (refilled_now lim.rpm lim.burst left now) in
    let spend = spent lim.rpm level in
    subst
      (λ s.
        refilled lim.rpm lim.burst now (bucket_of s (check t now lim).0.buckets)
          + count (check t now lim).1 * token
        ≤ refilled lim.rpm lim.burst now (bucket_of s lim.buckets))
      (text_eq→eq t a e) (omega arith)

check-IsBefore :
    (a t : Text) (start now : ℕ) (lim : ChatRateLimiter)
    → start ≤ now
    → IsBefore (bucket_of a lim.buckets) start
    → IsBefore (bucket_of a (check t now lim).0.buckets) now
unfolding check IsBefore
check-IsBefore a t start now lim p h = elim (Bool-cases (text_eq t a)) [
  | inl e ↦
      subst (λ s. IsBefore (bucket_of s (check t now lim).0.buckets) now) (text_eq→eq t a e)
        (subst (λ b. IsBefore b now) (sym (bucket_of-put_bucket_same t _ lim.buckets))
          (omega arith))
  | inr n ↦
      subst (λ b. IsBefore b now) (sym (check-other a t now lim n))
        (IsBefore-later (bucket_of a lim.buckets) start now p h)
]

allowed-le :
    (a : Text) (lim : ChatRateLimiter) (requests : List (Text × ℕ)) (start end : ℕ)
    → IsOrdered start requests end
    → IsBefore (bucket_of a lim.buckets) start
    → allowed a lim requests * token
      ≤ refilled lim.rpm lim.burst start (bucket_of a lim.buckets) + (end - start) * lim.rpm
unfolding allowed IsOrdered check
allowed-le a lim [] start end h before = omega arith
allowed-le a lim ((t, now) ∷ requests) start end (p, h) before =
    let rest =
      allowed-le a (check t now lim).0 requests now end h
        (check-IsBefore a t start now lim p before) in
    let q = IsOrdered→le now end requests h in
    let refill = refilled_later lim.rpm lim.burst start now (bucket_of a lim.buckets) before p in
    let level : ℕ → ℕ = λ time. refilled lim.rpm lim.burst time (bucket_of a lim.buckets) in
    elim (Bool-cases (text_eq t a)) [
      | inl e ↦
          let own = check-own a t now lim e in
          let each =
            add-mul (count (check t now lim).1) (allowed a (check t now lim).0 requests) token in
          rw e
            (through_now lim.rpm start now end (level start) (level now) _ p q refill (omega arith))
      | inr n ↦ rw n (
          through_now lim.rpm start now end (level start) (level now) _ p q refill (
            subst
              (λ b.
                allowed a (check t now lim).0 requests * token
                ≤ refilled lim.rpm lim.burst now b + (end - now) * lim.rpm)
              (check-other a t now lim n) rest))
    ]

refilled-le : (rpm burst now : ℕ) (b : Option Bucket) → refilled rpm burst now b ≤ burst * token
unfolding refilled
refilled-le rpm burst now none = omega arith
refilled-le rpm burst now (some b) = omega arith

-- Of any requests whose times do not decrease, from a start that no earlier call of the tenant follows, a
-- tenant has no more let through than a full bucket and the refill of the time make up, counted in the
-- parts of which a message takes 60000, whatever the other tenants send.
pub check-within_limit :
    (a : Text) (lim : ChatRateLimiter) (requests : List (Text × ℕ)) (start end : ℕ)
    → IsOrdered start requests end
    → IsBefore (bucket_of a lim.buckets) start
    → allowed a lim requests * token ≤ lim.burst * token + (end - start) * lim.rpm
check-within_limit a lim requests start end h before =
    let some_left = allowed-le a lim requests start end h before in
    let full = refilled-le lim.rpm lim.burst start (bucket_of a lim.buckets) in omega arith
