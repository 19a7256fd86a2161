-- ===== src/Api/Credits/Once.antt =====
-- Over any sequence of decisions, a verifier approves a credit at most once and rejects it at most
-- once.
use carbon_veritas.Base.{
  ℕ, ◌≤◌, ◌≡◌, inl, inr, refl, String, Bool, true, false, Option, some, List, [], ◌∷◌, ◌++◌, arith,
  length, eq_iff, Bool-cases, Option-cases, or_else,
}
use carbon_veritas.Store.Rows.{find?, select, exists?, length-select-append}
use carbon_veritas.Store.Schema.{Credit, Approval, credit_by_number}
use carbon_veritas.Store.Prisma.{PrismaClient}
use carbon_veritas.Store.Action.{World}
use carbon_veritas.Api.Stellar.{Stellar}
use carbon_veritas.Api.Credits.{decision, approve_credit, reject_credit}
use carbon_veritas.Api.Credits.Votes.{
  is_approval, is_rejection, approve_credit-votes, reject_credit-votes, approve_credit-refused,
  reject_credit-refused,
}

abbrev pub VotesOnce : List Approval → Type 0
VotesOnce rows =
    (credit_id user_id : String)
    → (length (select (is_approval credit_id user_id) rows) ≤ 1)
      × (length (select (is_rejection credit_id user_id) rows) ≤ 1)

exists?-false-select :
    (p : Approval → Bool) (rows : List Approval)
    → exists? p rows ≡ false
    → length (select p rows) ≡ 0
exists?-false-select p [] h = refl
exists?-false-select p (a ∷ rows) h = ground (arith, exists?-false-select p rows)

-- A row that is added under keys that no row has yet.
append-at_most_one :
    (q : String → String → Approval → Bool) (rows : List Approval) (d : Approval) (c u : String)
    → ((k v : String) → q k v d ≡ true → (c ≡ k) × (u ≡ v))
    → exists? (q c u) rows ≡ false
    → ((k v : String) → length (select (q k v) rows) ≤ 1)
    → (k v : String) → length (select (q k v) (rows ++ d ∷ [])) ≤ 1
append-at_most_one q rows d c u keys new h k v =
    let sum = length-select-append (q k v) rows (d ∷ []) in
    elim (Bool-cases (q k v d)) [
      | inr other ↦ rw sum (rw other (omega (arith, h k v)))
      | inl same ↦
          let e = keys k v same in
          let none' = exists?-false-select (q c u) rows new in
          let none'' : length (select (q k v) rows) ≡ 0 = rw (e.0, e.1) at none' in
          rw sum (rw same (omega (arith, none'')))
    ]

append-other :
    (q : Approval → Bool) (rows : List Approval) (d : Approval)
    → q d ≡ false
    → length (select q (rows ++ d ∷ [])) ≡ length (select q rows)
append-other q rows d h = ground (arith, length-select-append q rows (d ∷ []))

approval-VotesOnce :
    (c : Credit) (u id : String) (comments : Option String) (rows : List Approval)
    → exists? (is_approval c.id u) rows ≡ false
    → VotesOnce rows
    → VotesOnce (rows ++ decision c u true comments id ∷ [])
approval-VotesOnce c u id comments rows new h k v =
    let d = decision c u true comments id in
    (
      append-at_most_one is_approval rows d c.id u
          (λ k' v' e. ground (arith, eq_iff c.id k', eq_iff u v')) new (λ k' v'. (h k' v').0) k v,
      rw (append-other (is_rejection k v) rows d (ground arith)) (h k v).1,
    )

rejection-VotesOnce :
    (c : Credit) (u id : String) (comments : Option String) (rows : List Approval)
    → exists? (is_rejection c.id u) rows ≡ false
    → VotesOnce rows
    → VotesOnce (rows ++ decision c u false comments id ∷ [])
rejection-VotesOnce c u id comments rows new h k v =
    let d = decision c u false comments id in
    (
      rw (append-other (is_approval k v) rows d (ground arith)) (h k v).0,
      append-at_most_one is_rejection rows d c.id u
          (λ k' v' e. ground (arith, eq_iff c.id k', eq_iff u v')) new (λ k' v'. (h k' v').1) k v,
    )

module _ (client : PrismaClient) {C : Type 0} (stellar : Stellar C) where
  approve_credit-VotesOnce :
      (threshold : ℕ) (user_id wallet : String) (credit_id : ℕ) (comments : Option String)
      (w : World C)
      → VotesOnce w.db.approvals
      → VotesOnce
          (approve_credit client stellar threshold user_id wallet credit_id comments
            w).1.db.approvals
  approve_credit-VotesOnce threshold user_id wallet credit_id comments w h =
      let refused =
        approve_credit-refused client stellar threshold user_id wallet credit_id comments w in
      elim (Option-cases (find? (credit_by_number credit_id) w.db.credits)) [
        | inl missing ↦ rw (refused (inl missing)) h
        | inr (c, found) ↦
            elim (Option-cases
              (stellar.approve_and_mint wallet credit_id (or_else comments "") w.chain).0) [
                | inl failed ↦ rw (refused (inr failed)) h
                | inr (tx, answered) ↦
                    elim (approve_credit-votes client stellar threshold user_id wallet credit_id
                      comments w c tx found answered) [
                        | inl (same, _) ↦ rw same h
                        | inr (_, _, new, cast, _) ↦
                            rw cast (approval-VotesOnce c user_id _ comments w.db.approvals new h)
                      ]
              ]
      ]

  reject_credit-VotesOnce :
      (quorum : ℕ) (user_id wallet : String) (credit_id : ℕ) (reason : String) (w : World C)
      → VotesOnce w.db.approvals
      → VotesOnce
          (reject_credit client stellar quorum user_id wallet credit_id reason w).1.db.approvals
  reject_credit-VotesOnce quorum user_id wallet credit_id reason w h =
      let refused = reject_credit-refused client stellar quorum user_id wallet credit_id reason w in
      elim (Option-cases (find? (credit_by_number credit_id) w.db.credits)) [
        | inl missing ↦ rw (refused (inl missing)) h
        | inr (c, found) ↦
            elim (Option-cases (stellar.reject_credit wallet credit_id reason w.chain).0) [
              | inl failed ↦ rw (refused (inr failed)) h
              | inr (answer, answered) ↦
                  elim (reject_credit-votes client stellar quorum user_id wallet credit_id reason w
                    c answer found answered) [
                      | inl (same, _) ↦ rw same h
                      | inr (_, _, new, cast, _) ↦
                          rw cast
                            (rejection-VotesOnce c user_id _ (some reason) w.db.approvals new h)
                    ]
            ]
      ]

pub data VoteRequest : Type 0 where
  approve : (user_id wallet : String) (credit_id : ℕ) → Option String → VoteRequest
  reject : (user_id wallet : String) (credit_id : ℕ) → String → VoteRequest

module _ (client : PrismaClient) {C : Type 0} (stellar : Stellar C) (threshold quorum : ℕ) where
  -- Decisions served one after the other.
  unfoldable pub serve_votes : List VoteRequest → World C → World C
  serve_votes [] w = w
  serve_votes (approve user_id wallet credit_id comments ∷ rest) w =
      serve_votes rest
        (approve_credit client stellar threshold user_id wallet credit_id comments w).1
  serve_votes (reject user_id wallet credit_id reason ∷ rest) w =
      serve_votes rest (reject_credit client stellar quorum user_id wallet credit_id reason w).1

  -- Over any sequence of requests to approve and to reject, whatever the chain answers and
  -- whether they succeed or throw: if every verifier has approved each credit at most once and
  -- rejected it at most once before, this holds afterwards.
  pub serve_votes-VotesOnce :
      (requests : List VoteRequest) (w : World C)
      → VotesOnce w.db.approvals
      → VotesOnce (serve_votes requests w).db.approvals
  unfolding serve_votes
  serve_votes-VotesOnce [] w h = h
  serve_votes-VotesOnce (approve user_id wallet credit_id comments ∷ rest) w h =
      serve_votes-VotesOnce rest
        (approve_credit client stellar threshold user_id wallet credit_id comments w).1
        (approve_credit-VotesOnce client stellar threshold user_id wallet credit_id comments w h)
  serve_votes-VotesOnce (reject user_id wallet credit_id reason ∷ rest) w h =
      serve_votes-VotesOnce rest
        (reject_credit client stellar quorum user_id wallet credit_id reason w).1
        (reject_credit-VotesOnce client stellar quorum user_id wallet credit_id reason w h)
