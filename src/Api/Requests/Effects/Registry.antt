-- ===== src/Api/Requests/Effects/Registry.antt =====
-- The requests about credits, verifiers and the bridge.
use carbon_veritas.Base.{
  ℕ, ◌≡◌, ◌⊎◌, inl, inr, String, true, false, Option, none, some, List, [], ◌∷◌, ◌++◌, arith,
  or_else, Option-cases,
}
use carbon_veritas.Store.Rows.{find?, modify, find?-never}
use carbon_veritas.Store.Schema.{
  Credit, Approval, Verifier, User, Retirement, CreditStatus, credit_by_number, user_by_id,
}
use carbon_veritas.Store.Prisma.{PrismaClient}
use carbon_veritas.Store.Action.{World, approvals, credits, verifiers, retirements}
use carbon_veritas.Api.Stellar.{Stellar, Call, RetireReceipt}
use carbon_veritas.Api.Credits.{
  CreateCreditDto, is_pending, issued, next_credit_id, decision, activate, refuse, issue_credit,
  approve_credit, reject_credit,
}
use carbon_veritas.Api.Retirement.{
  RetireCreditDto, retired_tonnes, retirement_row, retire_all, retire_credit,
}
use carbon_veritas.Api.Verifiers.{new_verifier, register, heartbeat}
use carbon_veritas.Api.Bridge.{BridgeInDto, bridge_in, bridge_out}

module _ (client : PrismaClient) {C : Type 0} (stellar : Stellar C) where
  abbrev pub next_credit_number : List Credit → ℕ
  next_credit_number rows = next_credit_id (client.find_last Credit (λ c. c.credit_id) rows)

  pub issue_credit-db :
      (upper : String → String) (date : String → ℕ) (pin_json : CreateCreditDto → Call C String)
      (user_id wallet : String) (dto : CreateCreditDto) (w : World C) (ipfs_hash : String)
      → (pin_json dto w.chain).0 ≡ some ipfs_hash
      → let after = (issue_credit client stellar upper date pin_json user_id wallet dto w).1.db in
        (after ≡ w.db)
        ⊎ (after ≡ record w.db {
          credits =
              w.db.credits
              ++ issued upper date dto
                  (next_credit_number w.db.credits)
                  ipfs_hash
                  user_id
                  (client.cuid w.drawn)
                ∷ [];
        })
  unfolding issue_credit
  issue_credit-db upper date pin_json user_id wallet dto w ipfs_hash pinned =
      let row =
        issued upper date dto (next_credit_number w.db.credits) ipfs_hash user_id
          (client.cuid w.drawn) in
      elim (Option-cases (find? (credits.clash row) w.db.credits)) [
        | inl new ↦ ground (
          arith,
          client.find_unique_lem User (user_by_id user_id) w.db.users,
          client.create_new Credit credits.clash row w.db.credits new,
        )
        | inr (old, taken) ↦ ground (
          arith,
          client.find_unique_lem User (user_by_id user_id) w.db.users,
          client.create_clash Credit credits.clash row old w.db.credits taken,
        )
      ]

  pub issue_credit-unpinned :
      (upper : String → String) (date : String → ℕ) (pin_json : CreateCreditDto → Call C String)
      (user_id wallet : String) (dto : CreateCreditDto) (w : World C)
      → (pin_json dto w.chain).0 ≡ none
      → (issue_credit client stellar upper date pin_json user_id wallet dto w).1.db ≡ w.db
  unfolding issue_credit
  issue_credit-unpinned upper date pin_json user_id wallet dto w failed =
      ground (arith, client.find_unique_lem User (user_by_id user_id) w.db.users)

  pub approve_credit-db :
      (threshold : ℕ) (user_id wallet : String) (credit_id : ℕ) (comments : Option String)
      (w : World C) (c : Credit) (tx_hash : Option String)
      → find? (credit_by_number credit_id) w.db.credits ≡ some c
      → (stellar.approve_and_mint wallet credit_id (or_else comments "") w.chain).0 ≡ some tx_hash
      → let after =
          (approve_credit client stellar threshold user_id wallet credit_id comments w).1.db in
        let rows = w.db.approvals ++ decision c user_id true comments (client.cuid w.drawn) ∷ [] in
        (after ≡ w.db)
        ⊎ ((after ≡ record w.db { approvals = rows })
            ⊎ ((is_pending c.status ≡ true)
                × (after ≡ record w.db {
                  approvals = rows;
                  credits = modify (credit_by_number credit_id) (activate tx_hash) w.db.credits;
                })))
  unfolding approve_credit
  approve_credit-db threshold user_id wallet credit_id comments w c tx_hash found minted =
      let p = credit_by_number credit_id in
      let row = decision c user_id true comments (client.cuid w.drawn) in
      ground (
        arith,
        client.find_unique_lem Credit p w.db.credits,
        client.create_new Approval approvals.clash row w.db.approvals (find?-never w.db.approvals),
        client.update_found Credit p (activate tx_hash) w.db.credits c found,
      )

  pub reject_credit-db :
      (quorum : ℕ) (user_id wallet : String) (credit_id : ℕ) (reason : String) (w : World C)
      (c : Credit)
      → find? (credit_by_number credit_id) w.db.credits ≡ some c
      → let after = (reject_credit client stellar quorum user_id wallet credit_id reason w).1.db in
        let rows =
          w.db.approvals ++ decision c user_id false (some reason) (client.cuid w.drawn) ∷ [] in
        (after ≡ w.db)
        ⊎ ((after ≡ record w.db { approvals = rows })
            ⊎ ((is_pending c.status ≡ true)
                × (after ≡ record w.db {
                  approvals = rows;
                  credits = modify (credit_by_number credit_id) refuse w.db.credits;
                })))
  unfolding reject_credit
  reject_credit-db quorum user_id wallet credit_id reason w c found =
      let p = credit_by_number credit_id in
      let row = decision c user_id false (some reason) (client.cuid w.drawn) in
      ground (
        arith,
        client.find_unique_lem Credit p w.db.credits,
        client.create_new Approval approvals.clash row w.db.approvals (find?-never w.db.approvals),
        client.update_found Credit p refuse w.db.credits c found,
      )

  pub retire_credit-db :
      (number : String → Option ℕ) (now : ℕ) (user_id wallet : String) (credit_id : ℕ)
      (dto : RetireCreditDto) (w : World C) (c : Credit) (receipt : RetireReceipt)
      → find? (credit_by_number credit_id) w.db.credits ≡ some c
      → (stellar.retire wallet credit_id dto.reason dto.beneficiary dto.accounting_period
          (stellar.is_retired credit_id w.chain).1).0
        ≡ some receipt
      → let after = (retire_credit client stellar number now user_id wallet credit_id dto w).1.db in
        let t = or_else (retired_tonnes number dto.tonnes_retired c.tonnes) 0 in
        let rows =
          w.db.retirements
          ++ retirement_row dto c user_id t receipt now (client.cuid w.drawn) ∷ [] in
        (after ≡ w.db)
        ⊎ ((after ≡ record w.db { retirements = rows })
            ⊎ ((c.status ≡ CreditStatus.active)
                × (after ≡ record w.db {
                  retirements = rows;
                  credits = modify (credit_by_number credit_id) retire_all w.db.credits;
                })))
  unfolding retire_credit
  retire_credit-db number now user_id wallet credit_id dto w c receipt found retired' =
      let p = credit_by_number credit_id in
      let t = or_else (retired_tonnes number dto.tonnes_retired c.tonnes) 0 in
      let row = retirement_row dto c user_id t receipt now (client.cuid w.drawn) in
      elim (Option-cases (retired_tonnes number dto.tonnes_retired c.tonnes)) [
        | inl nan ↦ inl (ground (arith, client.find_unique_lem Credit p w.db.credits))
        | inr (n, parsed) ↦ ground (
          arith,
          client.find_unique_lem Credit p w.db.credits,
          client.create_new Retirement retirements.clash row w.db.retirements
              (find?-never w.db.retirements),
          client.update_found Credit p retire_all w.db.credits c found,
        )
      ]

  pub missing_credit-db :
      (credit_id : ℕ) (w : World C)
      → find? (credit_by_number credit_id) w.db.credits ≡ none
      → (user_id wallet : String)
      → ((threshold : ℕ) (comments : Option String)
          → (approve_credit client stellar threshold user_id wallet credit_id comments w).1.db
            ≡ w.db)
        × ((quorum : ℕ) (reason : String)
            → (reject_credit client stellar quorum user_id wallet credit_id reason w).1.db ≡ w.db)
        × ((number : String → Option ℕ) (now : ℕ) (dto : RetireCreditDto)
            → (retire_credit client stellar number now user_id wallet credit_id dto w).1.db ≡ w.db)
  unfolding approve_credit reject_credit retire_credit
  missing_credit-db credit_id w missing user_id wallet = (
    (λ threshold comments.
        ground (arith, client.find_unique_lem Credit (credit_by_number credit_id) w.db.credits)),
    (λ quorum reason.
        ground (arith, client.find_unique_lem Credit (credit_by_number credit_id) w.db.credits)),
    (λ number now dto.
        ground (arith, client.find_unique_lem Credit (credit_by_number credit_id) w.db.credits)),
  )

  -- The requests of verifiers write to their table only.
  pub register-db :
      (now : ℕ) (user_id wallet : String) (stake : ℕ) (w : World C)
      → let after = (register client stellar now user_id wallet stake w).1.db in
        after ≡ record w.db { verifiers = after.verifiers }
  unfolding register
  register-db now user_id wallet stake w =
      let row = new_verifier user_id stake now (client.cuid w.drawn) in
      ground (
        arith,
        client.create_new Verifier verifiers.clash row w.db.verifiers (find?-never w.db.verifiers),
      )

  pub heartbeat-db :
      (now : ℕ) (id : String) (w : World C)
      → let after = (heartbeat client stellar now id w).1.db in
        after ≡ record w.db { verifiers = after.verifiers }
  unfolding heartbeat
  heartbeat-db now id w = ground arith

  -- Those of the bridge write to its records only.
  pub bridge_in-db :
      (user_id wallet : String) (dto : BridgeInDto) (w : World C)
      → let after = (bridge_in client stellar user_id wallet dto w).1.db in
        after ≡ record w.db { bridge_records = after.bridge_records }
  unfolding bridge_in
  bridge_in-db user_id wallet dto w = ground arith

  pub bridge_out-db :
      (user_id wallet : String) (credit_id : ℕ) (w : World C)
      → let after = (bridge_out client stellar user_id wallet credit_id w).1.db in
        after ≡ record w.db { bridge_records = after.bridge_records }
  unfolding bridge_out
  bridge_out-db user_id wallet credit_id w = ground arith
