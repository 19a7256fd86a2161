-- ===== src/Api/RateLimit/Tests.antt =====
-- The guard on a few requests, and the theorems about it at concrete inputs.
use carbon_veritas.Base.{
  ℕ, ◌+◌, ◌-◌, ◌/◌, ◌≤◌, ◌≡◌, refl, true, false, none, some, List, [], ◌∷◌, arith,
}
use carbon_veritas.Api.RateLimit.{
  Request, Buckets, TokenBucket, put, can_activate, admitted, is_allowed, capacity, bucket_key,
}
use carbon_veritas.Api.RateLimit.Quota.{admitted-le-quota, can_activate-after_interval}

abbrev visitor : Request
visitor = record { is_public = true; has_user = false; wallet = none; ip = some "10.0.0.1" }

abbrev no_buckets : Buckets
no_buckets key = none

abbrev visits : List (Request × ℕ)
visits = (visitor, 5) ∷ (visitor, 1500) ∷ []

visits-admitted : admitted "10.0.0.1" visits no_buckets ≡ 2
unfolding admitted can_activate
visits-admitted = refl

admitted-le-quota_example : admitted "10.0.0.1" visits no_buckets ≤ 100 + (3000 - 0) / 1000
unfolding capacity
admitted-le-quota_example = admitted-le-quota "10.0.0.1" 100 0 3000 visits no_buckets refl (
  (omega arith, omega arith, λ e. omega arith),
  ((omega arith, omega arith, λ e. omega arith), tt),
)

abbrev empty_bucket : TokenBucket
empty_bucket = record { tokens = 0; last_refill = 500 }

can_activate-after_interval_example :
    is_allowed (can_activate false visitor 1700 (put "10.0.0.1" empty_bucket no_buckets)).0 ≡ true
unfolding bucket_key
can_activate-after_interval_example =
    can_activate-after_interval visitor 1700 empty_bucket (put "10.0.0.1" empty_bucket no_buckets)
      refl (omega arith)
