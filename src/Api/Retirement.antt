-- ===== src/Api/Retirement.antt =====
-- `retireCredit` of `RetirementService`, api/src/retirement/retirement.service.ts. `number` is
-- `parseFloat`, with `none` for NaN. Tonnes are whole and not negative.
pub mod Effects
use carbon_veritas.Base.{
  ℕ, String, Bool, true, false, not, ◌||◌, Option, none, some, List, length, ◌==◌, ltb, leb, str_eq,
  if◌then◌else◌,
}
use carbon_veritas.Store.Schema.{Credit, Retirement, CreditStatus, credit_by_number}
use carbon_veritas.Store.Prisma.{PrismaClient}
use carbon_veritas.Store.Action.{
  Action, pure, throw_if, or_throw, when, emit, ◌>>=◌, ◌>>◌, credits, retirements, find_unique,
  find_many, create, update, not_found, bad_request, upstream,
}
use carbon_veritas.Api.Stellar.{Stellar, RetireReceipt, call}
use carbon_veritas.Api.Marketplace.{is_active_credit}

pub record RetireCreditDto : Type 0 where
  pub beneficiary : String
  pub reason : String
  pub accounting_period : String
  pub tonnes_retired : Option String

-- `dto.tonnesRetired ? parseFloat(dto.tonnesRetired) : credit.tonnes`
abbrev pub retired_tonnes : (String → Option ℕ) → Option String → ℕ → Option ℕ
retired_tonnes number none tonnes = some tonnes
retired_tonnes number (some s) tonnes = if str_eq s "" then some tonnes else number s

-- `tonnesRetired <= 0 || tonnesRetired > credit.tonnes`: NaN is neither.
abbrev pub is_invalid_amount : Option ℕ → ℕ → Bool
is_invalid_amount none tonnes = false
is_invalid_amount (some t) tonnes = leb t 0 || ltb tonnes t

abbrev pub is_retired_status : CreditStatus → Bool
is_retired_status CreditStatus.retired = true
is_retired_status _ = false

abbrev pub retire_all : Credit → Credit
retire_all c = record c { status = CreditStatus.retired }

-- The timestamp is set by the database.
abbrev pub retirement_row :
    RetireCreditDto → Credit → String → ℕ → RetireReceipt → ℕ → String → Retirement
retirement_row dto credit user_id tonnes receipt now id = record {
  id = id;
  credit_id = credit.id;
  retired_by_id = user_id;
  beneficiary = dto.beneficiary;
  reason = dto.reason;
  accounting_period = dto.accounting_period;
  tonnes_retired = tonnes;
  tx_hash = receipt.tx_hash;
  ledger_sequence = receipt.ledger_sequence;
  timestamp = now;
  certificate_hash = none;
}

module _ (client : PrismaClient) {C : Type 0} (stellar : Stellar C) where
  unfoldable pub retire_credit :
      (String → Option ℕ) → ℕ → String → String → ℕ → RetireCreditDto → Action C Retirement
  retire_credit number now user_id wallet credit_id dto = do
    found ← find_unique client credits (credit_by_number credit_id)
    credit ← or_throw found (not_found "Credit not found")
    throw_if (not (str_eq credit.owner_id user_id)) (bad_request "You do not own this credit")
    throw_if (not (is_active_credit credit.status)) (bad_request "Credit is not ACTIVE")
    already_retired ← call (stellar.is_retired credit_id)
    throw_if already_retired (bad_request "Credit is already retired on-chain")
    let tonnes_retired = retired_tonnes number dto.tonnes_retired credit.tonnes
    throw_if (is_invalid_amount tonnes_retired credit.tonnes)
        (bad_request "Invalid retirement amount")
    result ← call (stellar.retire wallet credit_id dto.reason dto.beneficiary dto.accounting_period)
    -- Prisma refuses NaN in a column of numbers.
    stored ← or_throw tonnes_retired (upstream "prisma")
    retirement ← create client retirements (retirement_row dto credit user_id stored result now)
    when (leb credit.tonnes stored)
        (do update client credits (credit_by_number credit_id) retire_all; pure tt)
    emit "credit.retired" credit_id
    pure retirement

  -- The retirements come in an order that the model leaves open; the code asks for the latest first.
  unfoldable pub get_certificate : ℕ → Action C (Credit × List Retirement)
  get_certificate credit_id = do
    found ← find_unique client credits (credit_by_number credit_id)
    credit ← or_throw found (not_found "Credit not found")
    included ← find_many client retirements (λ r. str_eq r.credit_id credit.id)
    throw_if (not (is_retired_status credit.status) || length included == 0)
        (bad_request "Credit has not been retired")
    pure (credit, included)
