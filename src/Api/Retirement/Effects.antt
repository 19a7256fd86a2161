-- ===== src/Api/Retirement/Effects.antt =====
-- What `retireCredit` does, on every path.
use carbon_veritas.Base.{
  ℕ, ◌≤◌, ◌≡◌, ◌⊎◌, inl, inr, String, true, none, some, [], ◌∷◌, ◌++◌, arith, leb, eq_iff,
  Option-cases, Option, if◌then◌else◌,
}
use carbon_veritas.Store.Rows.{find?, modify, find?-never}
use carbon_veritas.Store.Schema.{Credit, Retirement, CreditStatus, credit_by_number}
use carbon_veritas.Store.Prisma.{PrismaClient}
use carbon_veritas.Store.Action.{World, retirements}
use carbon_veritas.Api.Stellar.{Stellar, RetireReceipt}
use carbon_veritas.Api.Retirement.{
  RetireCreditDto, retired_tonnes, retire_all, retirement_row, retire_credit,
}

module _ (client : PrismaClient) {C : Type 0} (stellar : Stellar C) where
  -- For a credit that exists and a chain that retires it, `retireCredit`, on whole numbers of
  -- tonnes, either leaves the retirements and credits as they are, or: the user owns the credit,
  -- which is active, and the retired tonnes are a number, at least 1 and at most those of the
  -- credit; then one retirement is added with these tonnes, the data of the request and the
  -- receipt of the chain, and the status of the credit becomes retired exactly when they are all
  -- of it.
  pub retire_credit-guarded :
      (number : String → Option ℕ) (now : ℕ) (user_id wallet : String) (credit_id : ℕ)
      (dto : RetireCreditDto) (w : World C) (c : Credit) (receipt : RetireReceipt)
      → find? (credit_by_number credit_id) w.db.credits ≡ some c
      → (stellar.retire wallet credit_id dto.reason dto.beneficiary dto.accounting_period
          (stellar.is_retired credit_id w.chain).1).0
        ≡ some receipt
      → let after = (retire_credit client stellar number now user_id wallet credit_id dto w).1.db in
        ((after.retirements ≡ w.db.retirements) × (after.credits ≡ w.db.credits))
        ⊎ ((t : ℕ) × (retired_tonnes number dto.tonnes_retired c.tonnes ≡ some t)
            × (c.owner_id ≡ user_id)
            × (c.status ≡ CreditStatus.active)
            × (1 ≤ t)
            × (t ≤ c.tonnes)
            × (after.retirements
                ≡ w.db.retirements
                  ++ record {
                    id = client.cuid w.drawn;
                    credit_id = c.id;
                    retired_by_id = user_id;
                    beneficiary = dto.beneficiary;
                    reason = dto.reason;
                    accounting_period = dto.accounting_period;
                    tonnes_retired = t;
                    tx_hash = receipt.tx_hash;
                    ledger_sequence = receipt.ledger_sequence;
                    timestamp = now;
                    certificate_hash = none;
                  }
                    ∷ [])
            × (after.credits ≡ (
                if leb c.tonnes t
                then modify
                    (credit_by_number credit_id)
                    (λ c'. record c' { status = CreditStatus.retired })
                    w.db.credits
                else w.db.credits)))
  unfolding retire_credit
  retire_credit-guarded number now user_id wallet credit_id dto w c receipt found retired' =
      let p = credit_by_number credit_id in
      elim (Option-cases (retired_tonnes number dto.tonnes_retired c.tonnes)) [
        | inl nan ↦ inl (ground (arith, client.find_unique_lem Credit p w.db.credits))
        | inr (t, parsed) ↦
            let row = retirement_row dto c user_id t receipt now (client.cuid w.drawn) in
            ground (
              arith,
              eq_iff c.owner_id user_id,
              client.find_unique_lem Credit p w.db.credits,
              client.create_new Retirement retirements.clash row w.db.retirements
                  (find?-never w.db.retirements),
              client.update_found Credit p retire_all w.db.credits c found,
            )
      ]

  -- refused by the chain
  pub retire_credit-refused :
      (number : String → Option ℕ) (now : ℕ) (user_id wallet : String) (credit_id : ℕ)
      (dto : RetireCreditDto) (w : World C) (c : Credit)
      → find? (credit_by_number credit_id) w.db.credits ≡ some c
      → ((stellar.is_retired credit_id w.chain).0 ≡ some true)
        ⊎ ((stellar.retire wallet credit_id dto.reason dto.beneficiary dto.accounting_period
              (stellar.is_retired credit_id w.chain).1).0
            ≡ none)
      → (retire_credit client stellar number now user_id wallet credit_id dto w).1.db ≡ w.db
  unfolding retire_credit
  retire_credit-refused number now user_id wallet credit_id dto w c found (inl already) =
      ground (arith, client.find_unique_lem Credit (credit_by_number credit_id) w.db.credits)
  retire_credit-refused number now user_id wallet credit_id dto w c found (inr failed) =
      ground (arith, client.find_unique_lem Credit (credit_by_number credit_id) w.db.credits)
