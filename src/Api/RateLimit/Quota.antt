-- ===== src/Api/RateLimit/Quota.antt =====
-- How many requests the guard lets through.
use carbon_veritas.Base.{
  ℕ, ◌+◌, ◌-◌, ◌*◌, ◌/◌, ◌≤◌, ◌≡◌, String, true, false, Option, none, some, inl, inr, List, [], ◌∷◌,
  arith, str_eq, eq_iff, eq_refl, All, Bool-cases, if◌then◌else◌,
}
use carbon_veritas.Api.RateLimit.{
  TokenBucket, Request, Buckets, capacity, bucket_key, refill, open_bucket, take_token,
  can_activate, admitted, Verdict, is_allowed,
}

-- Credit of a key up to time `t1`: its tokens, and what the time since the last refill may add.
abbrev pub credit_until : ℕ → ℕ → ℕ → Option TokenBucket → ℕ
credit_until c t0 t1 none = 1000 * c + (t1 - t0)
credit_until c t0 t1 (some b) = 1000 * b.tokens + (t1 - b.last_refill)

-- A request in the window whose capacity is at most `c`.
abbrev pub InWindow : String → ℕ → ℕ → ℕ → Request × ℕ → Type 0
InWindow key c t0 t1 (r, now) = (t0 ≤ now) × (now ≤ t1) × (bucket_key r ≡ key → capacity r ≤ c)

-- A refill at `now` gains at most what the time up to `now` was worth.
refill-credit_until :
    (c cap t0 now t1 : ℕ) (b : TokenBucket)
    → now ≤ t1
    → credit_until c t0 t1 (some (refill cap now b)) ≤ credit_until c t0 t1 (some b)
unfolding refill
refill-credit_until c cap t0 now t1 b h = ground arith

open_bucket-credit_until :
    (c cap t0 now t1 : ℕ) (found : Option TokenBucket)
    → t0 ≤ now
    → cap ≤ c
    → credit_until c t0 t1 (some (open_bucket cap now found)) ≤ credit_until c t0 t1 found
unfolding open_bucket
open_bucket-credit_until c cap t0 now t1 none h le = omega arith
open_bucket-credit_until c cap t0 now t1 (some b) h le = omega arith

abbrev cost : Verdict → ℕ
cost v = if is_allowed v then 1 else 0

take_token-credit_until :
    (c cap t0 t1 : ℕ) (b : TokenBucket)
    → 1000 * cost (take_token cap b).0 + credit_until c t0 t1 (some (take_token cap b).1)
      ≤ credit_until c t0 t1 (some b)
unfolding take_token
take_token-credit_until c cap t0 t1 b = ground arith

-- A request of another key leaves the bucket of this key alone.
can_activate-other_key :
    (key : String) (r : Request) (now : ℕ) (buckets : Buckets)
    → str_eq (bucket_key r) key ≡ false
    → (can_activate false r now buckets).1 key ≡ buckets key
unfolding can_activate
can_activate-other_key key r now buckets h =
    ground (arith, eq_iff (bucket_key r) key, eq_iff key (bucket_key r))

-- One call, from the point of view of one key.
can_activate-credit_until :
    (key : String) (c t0 t1 : ℕ) (r : Request) (now : ℕ) (buckets : Buckets)
    → InWindow key c t0 t1 (r, now)
    → str_eq (bucket_key r) key ≡ true
    → 1000 * cost (can_activate false r now buckets).0
        + credit_until c t0 t1 ((can_activate false r now buckets).1 key)
      ≤ credit_until c t0 t1 (buckets key)
unfolding can_activate
can_activate-credit_until key c t0 t1 r now buckets (after, before, cap) same =
    let e : bucket_key r ≡ key = (eq_iff _ _).0 same in
    let opened = open_bucket (capacity r) now (buckets key) in
    let refilled = refill (capacity r) now opened in
    rw e (
      rw (eq_refl key) (
        omega (
          arith,
          open_bucket-credit_until c (capacity r) t0 now t1 (buckets key) after (cap e),
          refill-credit_until c (capacity r) t0 now t1 opened before,
          take_token-credit_until c (capacity r) t0 t1 refilled,
        )))

admitted-credit :
    (key : String) (c t0 t1 : ℕ) (trace : List (Request × ℕ)) (buckets : Buckets)
    → All (InWindow key c t0 t1) trace
    → 1000 * admitted key trace buckets ≤ credit_until c t0 t1 (buckets key)
unfolding admitted
admitted-credit key c t0 t1 [] buckets h = omega arith
admitted-credit key c t0 t1 ((r, now) ∷ rest) buckets (here, later) =
    let ih = admitted-credit key c t0 t1 rest (can_activate false r now buckets).1 later in
    elim (Bool-cases (str_eq (bucket_key r) key)) [
      | inl same ↦ ground (arith, can_activate-credit_until key c t0 t1 r now buckets here same)
      | inr other ↦ ground (arith, can_activate-other_key key r now buckets other)
    ]

-- Over a window of time from `t0` to `t1`, a key whose requests have capacity at most `c` and
-- that had no bucket before gets at most `c` requests through, and one more for each whole second
-- of the window, however the requests are spread and whatever other keys do.
pub admitted-le-quota :
    (key : String) (c t0 t1 : ℕ) (trace : List (Request × ℕ)) (buckets : Buckets)
    → buckets key ≡ none
    → All (InWindow key c t0 t1) trace
    → admitted key trace buckets ≤ c + (t1 - t0) / 1000
admitted-le-quota key c t0 t1 trace buckets fresh window =
    let bound : 1000 * admitted key trace buckets ≤ 1000 * c + (t1 - t0) =
      rw fresh at (admitted-credit key c t0 t1 trace buckets window) in
    omega arith

-- A request whose bucket was last refilled at least a second ago is let through.
pub can_activate-after_interval :
    (r : Request) (now : ℕ) (b : TokenBucket) (buckets : Buckets)
    → buckets (bucket_key r) ≡ some b
    → b.last_refill + 1000 ≤ now
    → is_allowed (can_activate false r now buckets).0 ≡ true
unfolding can_activate
can_activate-after_interval r now b buckets e h = rw e (ground arith)
