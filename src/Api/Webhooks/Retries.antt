-- ===== src/Api/Webhooks/Retries.antt =====
-- The retries of a delivery.
use carbon_veritas.Base.{
  ℕ, zero, suc, ◌+◌, ◌≤◌, ◌<◌, ◌≡◌, ◌⊎◌, inl, inr, refl, String, true, false, Option, List, [], ◌∷◌,
  arith, length, Bool-cases, Option-cases, ◌==◌,
}
use carbon_veritas.Api.Webhooks.{
  Dispatched, Delivery, is_success, is_retryable, failed_delivery, succeeded_delivery,
  deliver_attempts, deliver_with_retry, max_attempts, backoff_delay_ms,
}

-- The attempts before the attempt `k`, from `first` on, fail in a way that is worth a retry.
abbrev pub AllRetried : (ℕ → Dispatched) → ℕ → ℕ → Type 0
AllRetried dispatch first k =
    (i : ℕ)
    → first ≤ i
    → i < k
    → (is_success (dispatch i) ≡ false) × (is_retryable (dispatch i) ≡ true)

-- The record says how the attempt that it counts ended: a failure is final only if it is not worth
-- a retry or is the last one.
abbrev pub Reports : (ℕ → String) → (ℕ → Dispatched) → ℕ → Delivery → Type 0
Reports http dispatch last d =
    ((is_success (dispatch d.attempts) ≡ true)
      × (d ≡ succeeded_delivery d.attempts (dispatch d.attempts)))
    ⊎ ((is_success (dispatch d.attempts) ≡ false)
        × (d ≡ failed_delivery http d.attempts (dispatch d.attempts))
        × ((is_retryable (dispatch d.attempts) ≡ false) ⊎ (d.attempts ≡ last)))

-- What the attempts from `first` to `last` leave.
abbrev pub Delivered : (ℕ → String) → (ℕ → Dispatched) → ℕ → ℕ → List Delivery × List ℕ → Type 0
Delivered http dispatch first last (records, sleeps) =
    (d : Delivery) × (records ≡ d ∷ [])
    × (first ≤ d.attempts)
    × (d.attempts ≤ last)
    × (d.attempts ≡ first + length sleeps)
    × AllRetried dispatch first d.attempts
    × Reports http dispatch last d

module _ (http : ℕ → String) (base : Option ℕ) (last : ℕ) (dispatch : ℕ → Dispatched) where
  retry-Delivered :
      (first delay : ℕ) (x : List Delivery × List ℕ)
      → is_success (dispatch first) ≡ false
      → is_retryable (dispatch first) ≡ true
      → Delivered http dispatch (first + 1) last x
      → Delivered http dispatch first last (x.0, delay ∷ x.1)
  retry-Delivered first delay (records, sleeps) failed again (d, one, low, high, count, before, r) =
      (
        d,
        one,
        omega arith,
        high,
        omega arith,
        (λ i from to. elim (Bool-cases (i == first)) [
          | inl same ↦ ground arith
          | inr later ↦ before i (ground arith) to
        ]),
        r,
      )

  success-Delivered :
      (first : ℕ)
      → first ≤ last
      → is_success (dispatch first) ≡ true
      → Delivered http dispatch first last (succeeded_delivery first (dispatch first) ∷ [], [])
  success-Delivered first le won = (
    succeeded_delivery first (dispatch first),
    refl,
    omega arith,
    le,
    omega arith,
    (λ i from to. (let no : ⊥ = omega arith in elim no [ ])),
    inl (won, refl),
  )

  failure-Delivered :
      (first : ℕ)
      → first ≤ last
      → is_success (dispatch first) ≡ false
      → (is_retryable (dispatch first) ≡ false) ⊎ (first ≡ last)
      → Delivered http dispatch first last (failed_delivery http first (dispatch first) ∷ [], [])
  failure-Delivered first le failed final = (
    failed_delivery http first (dispatch first),
    refl,
    omega arith,
    le,
    omega arith,
    (λ i from to. (let no : ⊥ = omega arith in elim no [ ])),
    inr (failed, refl, final),
  )

  deliver_attempts-Delivered :
      (left first : ℕ)
      → first + left ≡ last + 1
      → 1 ≤ left
      → Delivered http dispatch first last (deliver_attempts http base last left first dispatch)
  unfolding deliver_attempts
  deliver_attempts-Delivered zero first sum some' = let no : ⊥ = omega arith in elim no [ ]
  deliver_attempts-Delivered (suc left) first sum some' =
      elim (Bool-cases (is_success (dispatch first))) [
        | inl won ↦ rw (Delivered, won) (success-Delivered first (omega arith) won)
        | inr failed ↦ elim (Bool-cases (is_retryable (dispatch first))) [
          | inr never ↦
              rw (Delivered, failed, never)
                (failure-Delivered first (omega arith) failed (inl never))
          | inl again ↦ elim (Bool-cases (first == last)) [
            | inl at_last ↦
                rw (Delivered, failed, again, at_last)
                  (failure-Delivered first (omega arith) failed (inr (ground arith)))
            | inr before ↦
                let ih = deliver_attempts-Delivered left (first + 1) (omega arith) (ground arith) in
                rw (Delivered, failed, again, before)
                  (retry-Delivered first (backoff_delay_ms base first)
                    (deliver_attempts http base last left (first + 1) dispatch) failed again ih)
          ]
        ]
      ]

module _ (http : ℕ → String) (attempts base : Option ℕ) (dispatch : ℕ → Dispatched) where
  max_attempts_bounds : (1 ≤ max_attempts attempts) × (max_attempts attempts ≤ 5)
  unfolding max_attempts
  max_attempts_bounds = elim (Option-cases attempts) [
    | inl missing ↦ rw missing (omega arith, omega arith)
    | inr (n, given) ↦ rw given (ground arith, ground arith)
  ]

  -- A delivery makes at most five attempts and hands exactly one record to `recordDelivery`,
  -- which counts the attempts made, one more than the pauses it made. The attempts before the
  -- last one it made failed in a way that is worth a retry; the record says success exactly if
  -- that last one succeeded, and a failure is final only if it is not worth a retry or the
  -- attempts are used up.
  pub deliver_with_retry-Delivered :
      (max_attempts attempts ≤ 5)
      × Delivered http dispatch 1
          (max_attempts attempts)
          (deliver_with_retry http attempts base dispatch)
  unfolding deliver_with_retry
  deliver_with_retry-Delivered =
      let b = max_attempts_bounds in
      (
        b.1,
        deliver_attempts-Delivered http base (max_attempts attempts) dispatch
            (max_attempts attempts) 1 (omega arith) b.0,
      )
