-- ===== src/Api/RateLimit.antt =====
-- crates/qpedia-api/src/rate_limit.rs. Times are milliseconds, and tokens are counted in parts of which a
-- whole token has 60000, so that a millisecond refills `rpm` of them exactly; the rounding of `f64` is
-- left out, and the two settings are whole numbers, 1 at least.
pub mod Buckets
pub mod Window
pub mod Tests
use Prim.Native.Nat.{◌/◌}
use qpedia.Prelude.{
  ℕ, suc, ◌+◌, ◌-◌, ◌*◌, min, max, Bool, true, false, Option, none, some, List, [], ◌∷◌, leb,
  if◌then◌else◌, Result, ok, err,
}
use qpedia.Text.{Text, text_eq}

abbrev pub token : ℕ
token = 60000

pub record Bucket : Type 0 where
  pub tokens : ℕ
  pub last_refill : ℕ

pub record ChatRateLimiter : Type 0 where
  pub rpm : ℕ
  pub burst : ℕ
  pub buckets : List (Text × Bucket)

-- `buckets.get(tenant)`
unfoldable pub bucket_of : Text → List (Text × Bucket) → Option Bucket
unfolding text_eq
bucket_of tenant [] = none
bucket_of tenant ((t, b) ∷ buckets) =
    let rest = bucket_of tenant buckets in if text_eq t tenant then some b else rest

pub put_bucket : Text → Bucket → List (Text × Bucket) → List (Text × Bucket)
unfolding text_eq
put_bucket tenant b [] = (tenant, b) ∷ []
put_bucket tenant b ((t, c) ∷ buckets) =
    let rest = put_bucket tenant b buckets in
    if text_eq t tenant then (t, b) ∷ buckets else (t, c) ∷ rest

-- The tokens at `now`; a bucket that is not there is made full.
pub refilled : ℕ → ℕ → ℕ → Option Bucket → ℕ
refilled rpm burst now none = burst * token
refilled rpm burst now (some b) = min (b.tokens + (now - b.last_refill) * rpm) (burst * token)

-- `(need * 60.0 / rpm).ceil().max(1)`
pub retry_after : ℕ → ℕ → ℕ
retry_after rpm tokens = max 1 ((token - tokens + (1000 * rpm - 1)) / (1000 * rpm))

pub take_token : ℕ → ℕ → ℕ × Result ℕ (Unit {0})
unfolding retry_after
take_token rpm tokens =
    if leb token tokens then (tokens - token, ok tt) else (tokens, err (retry_after rpm tokens))

unfoldable pub check : Text → ℕ → ChatRateLimiter → ChatRateLimiter × Result ℕ (Unit {0})
unfolding bucket_of put_bucket refilled take_token
check tenant now lim =
    let (left, answer) =
      take_token lim.rpm (refilled lim.rpm lim.burst now (bucket_of tenant lim.buckets)) in
    (
      record lim {
        buckets = put_bucket tenant (record { tokens = left; last_refill = now }) lim.buckets;
      },
      answer,
    )
