-- ===== src/Api/Soroban/Settles.antt =====
-- Waiting for a receipt ends, and with the first answer that decides.
use carbon_veritas.Base.{
  ℕ, zero, suc, ◌+◌, ◌-◌, ◌*◌, ◌/◌, ◌%◌, ◌≤◌, ◌<◌, ◌≡◌, ◌⊎◌, refl, String, Option, some, arith, ltb,
  lt→ltb, ltb→lt, Bool-cases, inl, inr,
}
use native.Mathlib.Nat.{div-add-mod, mod-lt, mul_comm}
use carbon_veritas.Api.Soroban.{
  TransactionAnswer, success, failed, not_found, thrown, Settlement, settled, failed_on_chain,
  timed_out, unreachable, wait_rounds, wait_for_receipt,
}

module _ {V : Type 0} (answer : ℕ → TransactionAnswer V) (clock : ℕ → ℕ) (started timeout : ℕ) where
  abbrev Until : ℕ → Type 0
  Until n = (m : ℕ) → m < n → answer m ≡ not_found

  -- The round in which the loop ends, and why.
  abbrev pub Explains : Settlement V → Type 0
  Explains (settled v) = (n : ℕ) × Until n × (answer n ≡ success v)
  Explains (failed_on_chain r) = (n : ℕ) × Until n × (answer n ≡ failed r)
  Explains unreachable = (n : ℕ) × Until n × (answer n ≡ thrown)
  Explains timed_out = (n : ℕ) × Until (n + 1) × (timeout < clock n - started)

  answer-cases :
      (n : ℕ)
      → ((v : Option V) × (answer n ≡ success v))
        ⊎ (((r : Option String) × (answer n ≡ failed r))
            ⊎ ((answer n ≡ thrown) ⊎ (answer n ≡ not_found)))
  answer-cases n = go (answer n) refl
    where
      go :
          (a : TransactionAnswer V)
          → answer n ≡ a
          → ((v : Option V) × (answer n ≡ success v))
            ⊎ (((r : Option String) × (answer n ≡ failed r))
                ⊎ ((answer n ≡ thrown) ⊎ (answer n ≡ not_found)))
      go (success v) e = inl (v, e)
      go (failed r) e = inr (inl (r, e))
      go thrown e = inr (inr (inl e))
      go not_found e = inr (inr (inr e))

  Until-step : (n : ℕ) → Until n → answer n ≡ not_found → Until (n + 1)
  Until-step n before here m h = ground (arith, before m)

  module _ (poll : ℕ) (positive : 0 < poll) (begins : started ≤ clock 0)
      (ticks : (n : ℕ) → clock n + poll ≤ clock (n + 1)) where
    elapsed : (n : ℕ) → started + n * poll ≤ clock n
    elapsed zero = omega arith
    elapsed (suc n) = ground (arith, elapsed n, ticks n)

    add_zero : (n : ℕ) → n + 0 ≡ n
    add_zero n = omega arith

    late : (n : ℕ) → timeout < n * poll → timeout < clock n - started
    late n h = omega (arith, elapsed n)

    abbrev Ended : ℕ → ℕ → Type 0
    Ended fuel n =
        (s : Settlement V) × (wait_rounds answer clock started timeout fuel n ≡ some s) × Explains s

    -- A round ends the loop, unless its answer leaves the transaction open.
    one_round : (k n : ℕ) → Until n → (answer n ≡ not_found → Ended (suc k) n) → Ended (suc k) n
    unfolding wait_rounds
    one_round k n before open' = elim (answer-cases n) [
      | inl (v, e) ↦ (settled v, rw (wait_rounds, e) refl, (n, before, e))
      | inr (inl (r, e)) ↦ (failed_on_chain r, rw (wait_rounds, e) refl, (n, before, e))
      | inr (inr (inl e)) ↦ (unreachable, rw (wait_rounds, e) refl, (n, before, e))
      | inr (inr (inr e)) ↦ open' e
    ]

    expired :
        (k n : ℕ) → Until n → answer n ≡ not_found → timeout < clock n - started → Ended (suc k) n
    unfolding wait_rounds
    expired k n before e over = (
      timed_out,
      rw (wait_rounds, e, lt→ltb timeout (clock n - started) over) refl,
      (n, Until-step n before e, over),
    )

    rounds_end : (k n : ℕ) → Until n → timeout < (n + k) * poll → Ended (suc k) n
    unfolding wait_rounds
    rounds_end zero n before enough =
        one_round zero n before (λ e. expired zero n before e (late n (rw (add_zero n) at enough)))
    rounds_end (suc k) n before enough = one_round (suc k) n before (λ e.
        elim (Bool-cases (ltb timeout (clock n - started))) [
          | inl over ↦ expired (suc k) n before e (ltb→lt timeout (clock n - started) over)
          | inr open' ↦
              let shifted : n + suc k ≡ n + 1 + k = omega arith in
              let (s, run, why) =
                rounds_end k (n + 1) (Until-step n before e) (rw shifted at enough) in
              (s, rw (wait_rounds, e, open') run, why)
        ])

    not_below : (m : ℕ) → m < 0 → ⊥
    not_below m h = omega arith

    -- If each round of waiting takes at least the pause between two requests, which is positive,
    -- and the clock does not start before the wait, then waiting for a receipt ends within as
    -- many rounds as the timeout has pauses, and two more. It ends with the first answer that
    -- decides (a success, a failure on the chain, or an exception), all answers before it being
    -- not found; or it times out, with all answers not found and more time gone than the timeout.
    pub wait_for_receipt-Explains :
        (s : Settlement V) × (wait_for_receipt answer clock started timeout poll ≡ some s)
        × Explains s
    unfolding wait_for_receipt
    wait_for_receipt-Explains =
        let whole : poll * (timeout / poll) + timeout % poll ≡ timeout = div-add-mod timeout poll in
        let part : timeout % poll < poll = mod-lt timeout positive in
        let turn : poll * (timeout / poll) ≡ timeout / poll * poll =
          mul_comm poll (timeout / poll) in
        let enough : timeout < (0 + (timeout / poll + 1)) * poll = omega arith in
        let rounds : timeout / poll + 2 ≡ suc (timeout / poll + 1) = omega arith in
        rw rounds (rounds_end (timeout / poll + 1) 0 (λ m h. elim (not_below m h) [ ]) enough)
