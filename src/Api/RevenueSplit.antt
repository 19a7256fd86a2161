-- ===== src/Api/RevenueSplit.antt =====
-- `RevenueSplitService`, api/src/revenue-split/revenue-split.service.ts: the shares of a project's
-- payments, in basis points.
use carbon_veritas.Base.{ℕ, ◌+◌, String, not, List, [], ◌∷◌, ◌==◌}
use carbon_veritas.Store.Action.{Action, bad_request, pure, throw_if, ◌>>=◌, ◌>>◌}
use carbon_veritas.Api.Stellar.{Stellar, call}

-- `beneficiaries.reduce((sum, b) => sum + b.bps, 0)`
abbrev pub total_bps : List (String × ℕ) → ℕ
total_bps [] = 0
total_bps ((_, bps) ∷ rest) = bps + total_bps rest

module _ {C : Type 0} (stellar : Stellar C) where
  unfoldable pub configure : String → String → List (String × ℕ) → Action C String
  configure admin_wallet project_id beneficiaries = do
    throw_if (not (total_bps beneficiaries == 10000))
        (bad_request "Beneficiary bps shares must sum to exactly 10000")
    tx_hash ← call (stellar.configure_revenue_split admin_wallet project_id beneficiaries)
    pure tx_hash

  unfoldable pub distribute : String → String → String → ℕ → Action C String
  distribute caller_wallet project_id asset amount = do
    tx_hash ← call (stellar.distribute_revenue_split caller_wallet project_id asset amount)
    pure tx_hash
