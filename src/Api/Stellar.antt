-- ===== src/Api/Stellar.antt =====
-- The methods of `StellarService`, api/src/stellar/stellar.service.ts, that the other services call:
-- each reads and changes the state `C` of the chain, and gives no answer when it throws.
use carbon_veritas.Base.{ℕ, String, Bool, Option, none, some, List}
use carbon_veritas.Store.Action.{Action, err, ok, upstream}

abbrev pub Call : Type 0 → Type 0 → Type 0
Call C A = C → Option A × C

-- The receipt of a retirement.
pub record RetireReceipt : Type 0 where
  pub tx_hash : String
  pub ledger_sequence : ℕ

-- What a bridging transaction returns.
pub record BridgeReceipt : Type 0 where
  pub credit_id : ℕ
  pub tx_hash : String

pub record Stellar (C : Type 0) : Type 0 where
  -- wallet, credit, price per tonne, amount, currency, expiry
  pub create_offer : String → ℕ → ℕ → ℕ → String → Option ℕ → Call C ℕ
  -- wallet, offer, amount
  pub buy_credits : String → ℕ → ℕ → Call C Bool
  -- from, to, credit
  pub transfer_credit : String → String → ℕ → Call C Bool
  -- caller, offer
  pub cancel_offer : String → ℕ → Call C Bool
  -- wallet, project, hash of the pinned documents; the other metadata of the credit is left out
  pub submit_credit : String → String → String → Call C String
  -- wallet, credit, comments
  pub approve_and_mint : String → ℕ → String → Call C (Option String)
  -- wallet, credit, reason
  pub reject_credit : String → ℕ → String → Call C Bool
  pub is_retired : ℕ → Call C Bool
  -- wallet, credit, reason, beneficiary, period
  pub retire : String → ℕ → String → String → String → Call C RetireReceipt
  -- wallet, stake
  pub register_verifier : String → ℕ → Call C Bool
  -- leaf, siblings, root
  pub verify_proof : String → List String → String → Call C Bool
  -- wallet, registry, serial, proof, root; the metadata of the credit is left out
  pub bridge_in : String → String → String → List String → String → Call C BridgeReceipt
  -- wallet, credit
  pub bridge_out : String → ℕ → Call C String
  -- wallet, project, shares
  pub configure_revenue_split : String → String → List (String × ℕ) → Call C String
  -- wallet, project, asset, amount
  pub distribute_revenue_split : String → String → String → ℕ → Call C String

-- `await this.stellar.…`
abbrev pub call : {C A : Type 0} → Call C A → Action C A
call m w =
    let (r, chain) = m w.chain in
    elim r [
      | none ↦ (err (upstream "stellar"), record w { chain = chain })
      | some a ↦ (ok a, record w { chain = chain })
    ]
