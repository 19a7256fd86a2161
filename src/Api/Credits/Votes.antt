-- ===== src/Api/Credits/Votes.antt =====
-- What a verifier's decision does to the tables, on every path.
use carbon_veritas.Base.{
  ℕ, ◌+◌, ◌≡◌, ◌⊎◌, inl, inr, String, Bool, true, false, not, ◌&&◌, Option, none, some, List, [],
  ◌∷◌, ◌++◌, arith, leb, length, str_eq, eq_refl, or_else, if◌then◌else◌,
}
use carbon_veritas.Store.Rows.{find?, modify, select, exists?, find?-never, length-select-append}
use carbon_veritas.Store.Schema.{Credit, CreditStatus, Approval, Verifier, credit_by_number}
use carbon_veritas.Store.Prisma.{PrismaClient}
use carbon_veritas.Store.Action.{World, approvals}
use carbon_veritas.Api.Stellar.{Stellar}
use carbon_veritas.Api.Credits.{
  is_pending, is_active_verifier, is_text, of_credit, approved_by, rejected_by, decision, activate,
  refuse, approve_credit, reject_credit,
}

-- A vote of a verifier on a credit.
abbrev pub is_approval : String → String → Approval → Bool
is_approval credit_id user_id a = of_credit credit_id a && approved_by user_id a

abbrev pub is_rejection : String → String → Approval → Bool
is_rejection credit_id user_id a = of_credit credit_id a && rejected_by user_id a

-- The votes of either kind that a credit has.
abbrev pub approval_count : String → List Approval → ℕ
approval_count id rows = length (select (λ a. of_credit id a && a.approved) rows)

abbrev pub rejection_count : String → List Approval → ℕ
rejection_count id rows = length (select (λ a. of_credit id a && not a.approved) rows)

approval_count-cast :
    (c : Credit) (u id : String) (comments : Option String) (rows : List Approval)
    → approval_count c.id (rows ++ decision c u true comments id ∷ [])
      ≡ approval_count c.id rows + 1
approval_count-cast c u id comments rows = ground (
  arith,
  eq_refl c.id,
  length-select-append (λ a. of_credit c.id a && a.approved) rows
      (decision c u true comments id ∷ []),
)

rejection_count-cast :
    (c : Credit) (u id : String) (comments : Option String) (rows : List Approval)
    → rejection_count c.id (rows ++ decision c u false comments id ∷ [])
      ≡ rejection_count c.id rows + 1
rejection_count-cast c u id comments rows = ground (
  arith,
  eq_refl c.id,
  length-select-append (λ a. of_credit c.id a && not a.approved) rows
      (decision c u false comments id ∷ []),
)

module _ (client : PrismaClient) {C : Type 0} (stellar : Stellar C) where
  -- For a credit that exists and a chain that accepts the approval, `approveCredit` either leaves
  -- the approvals and credits as they are, or: the user is an active verifier, the credit is
  -- pending and this user had not approved it; then one approval is added, and the credit becomes
  -- active with the token of the transaction exactly when the approvals, this one included, reach
  -- the threshold and the transaction has a text.
  pub approve_credit-votes :
      (threshold : ℕ) (user_id wallet : String) (credit_id : ℕ) (comments : Option String)
      (w : World C) (c : Credit) (tx_hash : Option String)
      → find? (credit_by_number credit_id) w.db.credits ≡ some c
      → (stellar.approve_and_mint wallet credit_id (or_else comments "") w.chain).0 ≡ some tx_hash
      → let after =
          (approve_credit client stellar threshold user_id wallet credit_id comments w).1.db in
        ((after.approvals ≡ w.db.approvals) × (after.credits ≡ w.db.credits))
        ⊎ ((is_active_verifier
                (client.find_first Verifier (λ v. str_eq v.user_id user_id) w.db.verifiers)
              ≡ true)
            × (is_pending c.status ≡ true)
            × (exists? (is_approval c.id user_id) w.db.approvals ≡ false)
            × (after.approvals
                ≡ w.db.approvals
                  ++ record {
                    id = client.cuid w.drawn;
                    credit_id = c.id;
                    verifier_id = user_id;
                    approved = true;
                    comments = comments;
                  }
                    ∷ [])
            × (after.credits ≡ (
                if leb threshold (approval_count c.id w.db.approvals + 1) && is_text tx_hash
                then modify
                    (credit_by_number credit_id)
                    (λ c'. record c' { status = CreditStatus.active; token_id = tx_hash })
                    w.db.credits
                else w.db.credits)))
  unfolding approve_credit
  approve_credit-votes threshold user_id wallet credit_id comments w c tx_hash found minted =
      let p = credit_by_number credit_id in
      let row = decision c user_id true comments (client.cuid w.drawn) in
      ground (
        arith,
        client.find_unique_lem Credit p w.db.credits,
        client.find_many_lem Approval (of_credit c.id) (approved_by user_id) w.db.approvals,
        client.create_new Approval approvals.clash row w.db.approvals (find?-never w.db.approvals),
        client.count_lem Approval (λ a. of_credit c.id a && a.approved)
            (w.db.approvals ++ row ∷ []),
        approval_count-cast c user_id (client.cuid w.drawn) comments w.db.approvals,
        client.update_found Credit p (activate tx_hash) w.db.credits c found,
      )

  -- For a credit that exists and a chain that answers the rejection, `rejectCredit` either leaves
  -- the approvals and credits as they are, or: the user is an active verifier, the credit is
  -- pending and this user had not rejected it; then one rejection is added, and the credit is
  -- rejected exactly when the rejections, this one included, reach the quorum.
  pub reject_credit-votes :
      (quorum : ℕ) (user_id wallet : String) (credit_id : ℕ) (reason : String) (w : World C)
      (c : Credit) (answer : Bool)
      → find? (credit_by_number credit_id) w.db.credits ≡ some c
      → (stellar.reject_credit wallet credit_id reason w.chain).0 ≡ some answer
      → let after = (reject_credit client stellar quorum user_id wallet credit_id reason w).1.db in
        ((after.approvals ≡ w.db.approvals) × (after.credits ≡ w.db.credits))
        ⊎ ((is_active_verifier
                (client.find_first Verifier (λ v. str_eq v.user_id user_id) w.db.verifiers)
              ≡ true)
            × (is_pending c.status ≡ true)
            × (exists? (is_rejection c.id user_id) w.db.approvals ≡ false)
            × (after.approvals
                ≡ w.db.approvals
                  ++ record {
                    id = client.cuid w.drawn;
                    credit_id = c.id;
                    verifier_id = user_id;
                    approved = false;
                    comments = some reason;
                  }
                    ∷ [])
            × (after.credits ≡ (
                if leb quorum (rejection_count c.id w.db.approvals + 1)
                then modify
                    (credit_by_number credit_id)
                    (λ c'. record c' { status = CreditStatus.rejected })
                    w.db.credits
                else w.db.credits)))
  unfolding reject_credit
  reject_credit-votes quorum user_id wallet credit_id reason w c answer found answered =
      let p = credit_by_number credit_id in
      let row = decision c user_id false (some reason) (client.cuid w.drawn) in
      ground (
        arith,
        client.find_unique_lem Credit p w.db.credits,
        client.find_many_lem Approval (of_credit c.id) (rejected_by user_id) w.db.approvals,
        client.create_new Approval approvals.clash row w.db.approvals (find?-never w.db.approvals),
        client.count_lem Approval (λ a. of_credit c.id a && not a.approved)
            (w.db.approvals ++ row ∷ []),
        rejection_count-cast c user_id (client.cuid w.drawn) (some reason) w.db.approvals,
        client.update_found Credit p refuse w.db.credits c found,
      )

  -- A decision on an unknown credit, or one that the chain refuses, leaves the votes alone.
  pub approve_credit-refused :
      (threshold : ℕ) (user_id wallet : String) (credit_id : ℕ) (comments : Option String)
      (w : World C)
      → (find? (credit_by_number credit_id) w.db.credits ≡ none)
        ⊎ ((stellar.approve_and_mint wallet credit_id (or_else comments "") w.chain).0 ≡ none)
      → (approve_credit client stellar threshold user_id wallet credit_id comments w).1.db ≡ w.db
  unfolding approve_credit
  approve_credit-refused threshold user_id wallet credit_id comments w (inl missing) =
      ground (arith, client.find_unique_lem Credit (credit_by_number credit_id) w.db.credits)
  approve_credit-refused threshold user_id wallet credit_id comments w (inr failed) =
      ground (arith, client.find_unique_lem Credit (credit_by_number credit_id) w.db.credits)

  pub reject_credit-refused :
      (quorum : ℕ) (user_id wallet : String) (credit_id : ℕ) (reason : String) (w : World C)
      → (find? (credit_by_number credit_id) w.db.credits ≡ none)
        ⊎ ((stellar.reject_credit wallet credit_id reason w.chain).0 ≡ none)
      → (reject_credit client stellar quorum user_id wallet credit_id reason w).1.db ≡ w.db
  unfolding reject_credit
  reject_credit-refused quorum user_id wallet credit_id reason w (inl missing) =
      ground (arith, client.find_unique_lem Credit (credit_by_number credit_id) w.db.credits)
  reject_credit-refused quorum user_id wallet credit_id reason w (inr failed) =
      ground (arith, client.find_unique_lem Credit (credit_by_number credit_id) w.db.credits)
