-- ===== src/Api/Soroban/Tests.antt =====
-- A transaction that is found at the second request.
use carbon_veritas.Base.{◌≡◌, refl, ℕ, ◌+◌, ◌*◌, zero, suc, some, arith}
use carbon_veritas.Api.Soroban.{
  TransactionAnswer, success, not_found, Settlement, settled, wait_rounds, wait_for_receipt,
  default_timeout_ms, default_poll_ms,
}
use carbon_veritas.Api.Soroban.Settles.{Explains, wait_for_receipt-Explains}

abbrev second : ℕ → TransactionAnswer ℕ
second zero = not_found
second (suc n) = success (some 7)

abbrev steady : ℕ → ℕ
steady n = 100 + n * 1500

wait_for_receipt-Explains_example :
    (s : Settlement ℕ) × (wait_for_receipt second steady 100 default_timeout_ms default_poll_ms
      ≡ some s)
    × Explains second steady 100 default_timeout_ms s
wait_for_receipt-Explains_example =
    wait_for_receipt-Explains second steady 100 default_timeout_ms default_poll_ms (omega arith)
      (omega arith) λ n. omega arith

second_settles :
    wait_for_receipt second steady 100 default_timeout_ms default_poll_ms ≡ some (settled (some 7))
unfolding wait_for_receipt wait_rounds
second_settles = refl
