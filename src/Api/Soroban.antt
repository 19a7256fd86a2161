-- ===== src/Api/Soroban.antt =====
-- `SorobanClient`, api/src/stellar/soroban-client.ts. The RPC server of the Stellar SDK is an
-- argument: its answers to the calls of `getTransaction`, numbered from 0, and the clock after each
-- of them. `V` is the type of the values that a contract returns.
pub mod Settles
mod Tests
use carbon_veritas.Base.{
  ℕ, zero, suc, ◌+◌, ◌-◌, ◌/◌, String, Bool, Option, none, some, ltb, str_eq, if◌then◌else◌,
}

-- The status of a transaction; `thrown` is an exception of the request.
pub data TransactionAnswer (V : Type 0) : Type 0 where
  success : Option V → TransactionAnswer V
  failed : Option String → TransactionAnswer V
  not_found : TransactionAnswer V
  thrown : TransactionAnswer V

-- How `waitForReceipt` ends: with the return value, or with an error.
pub data Settlement (V : Type 0) : Type 0 where
  settled : Option V → Settlement V
  failed_on_chain : Option String → Settlement V
  timed_out : Settlement V
  unreachable : Settlement V

abbrev pub default_timeout_ms : ℕ
default_timeout_ms = 30000

abbrev pub default_poll_ms : ℕ
default_poll_ms = 1500

-- `parseInt` of the configured text, a text that is missing or empty counting as 100000; `parse_int`
-- gives none for a result that is not a number or is negative. The fee is kept as a number.
unfoldable pub default_fee : (String → Option ℕ) → Option String → ℕ
default_fee parse_int none = 100000
default_fee parse_int (some raw) =
    if str_eq raw ""
    then 100000
    else elim (parse_int raw) [ none ↦ 100000 | some n ↦ if ltb 0 n then n else 100000 ]

module _ {V : Type 0} (answer : ℕ → TransactionAnswer V) (clock : ℕ → ℕ) (started timeout : ℕ) where
  -- The rounds of the loop from round `n` on; `none` says that the fuel ran out.
  unfoldable pub wait_rounds : ℕ → ℕ → Option (Settlement V)
  wait_rounds zero n = none
  wait_rounds (suc fuel) n =
      let later = wait_rounds fuel (n + 1) in
      elim (answer n) [
        | success v ↦ some (settled v)
        | failed result ↦ some (failed_on_chain result)
        | thrown ↦ some unreachable
        | not_found ↦ if ltb timeout (clock n - started) then some timed_out else later
      ]

  -- The loop, with fuel for every round that fits into the timeout.
  unfoldable pub wait_for_receipt : ℕ → Option (Settlement V)
  wait_for_receipt poll = wait_rounds (timeout / poll + 2) 0

-- What `sendTransaction` answers.
pub data SendAnswer : Type 0 where
  rejected : Option String → SendAnswer
  sent : (hash : String) → SendAnswer
  send_thrown : SendAnswer

-- How `invoke` ends.
pub data Invoked (V : Type 0) : Type 0 where
  receipt : (hash : String) → Option V → Invoked V
  call_rejected : Option String → Invoked V
  invoke_failed : Settlement V → Invoked V
  no_answer : Invoked V

unfoldable pub finish : {V : Type 0} → String → Settlement V → Invoked V
finish hash (settled v) = receipt hash v
finish hash s = invoke_failed s

-- `getAccount` is answered by `has_account`.
unfoldable pub invoke :
    {V : Type 0} → Bool → SendAnswer → (ℕ → TransactionAnswer V) → (ℕ → ℕ) → ℕ → Option (Invoked V)
invoke has_account send answer clock started =
    if has_account
    then elim send [
      | rejected result ↦ some (call_rejected result)
      | send_thrown ↦ some no_answer
      | sent hash ↦
          elim (wait_for_receipt answer clock started default_timeout_ms default_poll_ms) [
            | none ↦ none
            | some s ↦ some (finish hash s)
          ]
    ]
    else some no_answer
