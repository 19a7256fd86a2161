-- ===== src/Api/RateLimit.antt =====
-- The token-bucket guard, api/src/common/guards/rate-limit.guard.ts. The clock, the request and the
-- result of the `IS_PUBLIC_KEY` look-up are arguments; the map of buckets is a function.
pub mod Quota
mod Tests
use carbon_veritas.Base.{
  ℕ, ◌+◌, ◌-◌, ◌*◌, ◌/◌, min, String, Bool, true, false, ◌||◌, not, Option, none, some, List, [],
  ◌∷◌, ltb, leb, str_eq, or_else, if◌then◌else◌,
}

pub record TokenBucket : Type 0 where
  pub tokens : ℕ
  pub last_refill : ℕ

abbrev pub unauthenticated_capacity : ℕ
unauthenticated_capacity = 100

abbrev pub authenticated_capacity : ℕ
authenticated_capacity = 1000

abbrev pub refill_rate : ℕ
refill_rate = 1

abbrev pub refill_interval : ℕ
refill_interval = 1000

-- What the guard reads of a request: `wallet` is `none` in a user without one.
pub record Request : Type 0 where
  pub is_public : Bool
  pub has_user : Bool
  pub wallet : Option String
  pub ip : Option String

abbrev pub Buckets : Type 0
Buckets = String → Option TokenBucket

abbrev pub put : String → TokenBucket → Buckets → Buckets
put key b buckets k = if str_eq k key then some b else buckets k

unfoldable pub capacity : Request → ℕ
capacity r =
    if r.is_public || not r.has_user then unauthenticated_capacity else authenticated_capacity

-- `request.user?.wallet ?? request.ip ?? 'unknown'`
unfoldable pub bucket_key : Request → String
bucket_key r =
    if r.has_user then or_else r.wallet (or_else r.ip "unknown") else or_else r.ip "unknown"

-- A clock that runs backwards gives no tokens: in the source `Math.floor` of a negative number is
-- negative, here the subtraction stops at 0.
unfoldable pub refill : ℕ → ℕ → TokenBucket → TokenBucket
refill cap now b =
    let refill_tokens = (now - b.last_refill) / refill_interval * refill_rate in
    if ltb 0 refill_tokens
    then record { tokens = min cap (b.tokens + refill_tokens); last_refill = now }
    else b

pub data Verdict : Type 0 where
  -- `NODE_ENV === 'test'`
  bypassed : Verdict
  -- `request.rateLimit`
  allowed : (remaining limit : ℕ) → Verdict
  too_many_requests : Verdict

-- The bucket that a request finds: the stored one, or a full one.
unfoldable pub open_bucket : ℕ → ℕ → Option TokenBucket → TokenBucket
open_bucket cap now found = or_else found (record { tokens = cap; last_refill = now })

unfoldable pub take_token : ℕ → TokenBucket → Verdict × TokenBucket
take_token cap b =
    if leb b.tokens 0
    then (too_many_requests, b)
    else (allowed (b.tokens - 1) cap, record b { tokens = b.tokens - 1 })

unfoldable pub can_activate : Bool → Request → ℕ → Buckets → Verdict × Buckets
unfolding capacity bucket_key refill open_bucket take_token
can_activate test_env r now buckets =
    if test_env
    then (bypassed, buckets)
    else (let cap = capacity r in
        let key = bucket_key r in
        let (v, b) = take_token cap (refill cap now (open_bucket cap now (buckets key))) in
        (v, put key b buckets))

abbrev pub is_allowed : Verdict → Bool
is_allowed (allowed _ _) = true
is_allowed _ = false

-- How many requests of one key a sequence of calls lets through, in the running service.
unfoldable pub admitted : String → List (Request × ℕ) → Buckets → ℕ
admitted key [] buckets = 0
admitted key ((r, now) ∷ rest) buckets =
    let (v, buckets') = can_activate false r now buckets in
    let here : ℕ = (if str_eq (bucket_key r) key then (if is_allowed v then 1 else 0) else 0) in
    here + admitted key rest buckets'
