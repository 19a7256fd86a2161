-- ===== src/Api/Requests/Integrity/Registry.antt =====
-- The requests about credits.
use carbon_veritas.Base.{
  ℕ, ◌≡◌, inl, inr, refl, sym, String, Bool, Option, [], ◌∷◌, ◌++◌, or_else, Option-cases,
}
use mathlib.Core.Path.{subst}
use carbon_veritas.Store.Rows.{find?, modify}
use carbon_veritas.Store.Schema.{Db, Credit, Approval, Retirement, credit_by_number}
use carbon_veritas.Store.Action.{World}
use carbon_veritas.Store.References.{
  RefsResolve, CreditRefs, UserKnown, CreditKnown, add_credit-RefsResolve,
  change_credits-RefsResolve, add_approval-RefsResolve, add_retirement-RefsResolve,
}
use carbon_veritas.Api.Credits.{CreateCreditDto, activate, refuse}
use carbon_veritas.Api.Retirement.{RetireCreditDto, retire_all}
use carbon_veritas.Api.Credits.Votes.{approve_credit-refused, reject_credit-refused}
use carbon_veritas.Api.Retirement.Effects.{retire_credit-refused}
use carbon_veritas.Api.Requests.{Service, issue, approve, reject, retire, serve}
use carbon_veritas.Api.Requests.Effects.Registry.{
  issue_credit-db, issue_credit-unpinned, approve_credit-db, reject_credit-db, retire_credit-db,
  missing_credit-db,
}
use carbon_veritas.Api.Requests.Integrity.Common.{After, unchanged, found-CreditKnown}

module _ (d : Db) (h : RefsResolve d) (p : Credit → Bool) (f : Credit → Credit)
    (same : (c : Credit) → (f c).id ≡ c.id)
    (keep : (c : Credit) → CreditRefs d c → CreditRefs d (f c)) where
  -- A new vote, and a change of credits that keeps their people.
  vote-RefsResolve :
      (a : Approval)
      → UserKnown d a.verifier_id
      → CreditKnown d a.credit_id
      → RefsResolve (record d { approvals = d.approvals ++ a ∷ []; credits = modify p f d.credits })
  vote-RefsResolve a user credit =
      change_credits-RefsResolve _ (add_approval-RefsResolve d h a (user, credit)) p f same keep

  -- A new retirement, and such a change.
  retirement-RefsResolve :
      (r : Retirement)
      → CreditKnown d r.credit_id
      → RefsResolve
          (record d { retirements = d.retirements ++ r ∷ []; credits = modify p f d.credits })
  retirement-RefsResolve r credit =
      change_credits-RefsResolve _ (add_retirement-RefsResolve d h r credit) p f same keep

module _ {C : Type 0} (s : Service C) (now : ℕ) (user_id wallet : String) (w : World C)
    (h : RefsResolve w.db) (user : UserKnown w.db user_id) where
  pub issue-After : (dto : CreateCreditDto) → After s now user_id wallet w h user (issue dto)
  unfolding serve
  issue-After dto = elim (Option-cases (s.pin_json dto w.chain).0) [
    | inl failed ↦ unchanged s now user_id wallet w h user _ (
        issue_credit-unpinned s.client s.stellar s.upper s.date s.pin_json user_id wallet dto w
          failed)
    | inr (hash, pinned) ↦
        elim (issue_credit-db s.client s.stellar s.upper s.date s.pin_json user_id wallet dto w hash
          pinned) [
            | inl same ↦ unchanged s now user_id wallet w h user _ same
            | inr new ↦ subst RefsResolve (sym new) (add_credit-RefsResolve w.db h _ (user, user))
          ]
  ]

  pub approve-After :
      (credit_id : ℕ) (comments : Option String)
      → After s now user_id wallet w h user (approve credit_id comments)
  unfolding serve
  approve-After n comments =
      let refused =
        approve_credit-refused s.client s.stellar s.threshold user_id wallet n comments w in
      elim (Option-cases (find? (credit_by_number n) w.db.credits)) [
        | inl missing ↦ unchanged s now user_id wallet w h user _ (refused (inl missing))
        | inr (c, found) ↦
            let known = found-CreditKnown _ w.db c found in
            elim (Option-cases
              (s.stellar.approve_and_mint wallet n (or_else comments "") w.chain).0) [
                | inl failed ↦ unchanged s now user_id wallet w h user _ (refused (inr failed))
                | inr (tx, minted) ↦
                    elim (approve_credit-db s.client s.stellar s.threshold user_id wallet n comments
                      w c tx found minted) [
                        | inl same ↦ unchanged s now user_id wallet w h user _ same
                        | inr (inl voted) ↦
                            subst RefsResolve (sym voted)
                              (add_approval-RefsResolve w.db h _ (user, known))
                        | inr (inr (_, active')) ↦ subst RefsResolve (sym active') (
                            vote-RefsResolve w.db h (credit_by_number n) (activate tx) (λ x. refl)
                              (λ x k. k) _ user known)
                      ]
              ]
      ]

  pub reject-After :
      (credit_id : ℕ) (reason : String)
      → After s now user_id wallet w h user (reject credit_id reason)
  unfolding serve
  reject-After n reason = elim (Option-cases (find? (credit_by_number n) w.db.credits)) [
    | inl missing ↦
        unchanged s now user_id wallet w h user _ (
          reject_credit-refused s.client s.stellar s.quorum user_id wallet n reason w (inl missing))
    | inr (c, found) ↦
        let known = found-CreditKnown _ w.db c found in
        elim (reject_credit-db s.client s.stellar s.quorum user_id wallet n reason w c found) [
          | inl same ↦ unchanged s now user_id wallet w h user _ same
          | inr (inl voted) ↦
              subst RefsResolve (sym voted) (add_approval-RefsResolve w.db h _ (user, known))
          | inr (inr (_, refused)) ↦ subst RefsResolve (sym refused) (
              vote-RefsResolve w.db h (credit_by_number n) refuse (λ x. refl) (λ x k. k) _ user
                known)
        ]
  ]

  pub retire-After :
      (credit_id : ℕ) (dto : RetireCreditDto)
      → After s now user_id wallet w h user (retire credit_id dto)
  unfolding serve
  retire-After n dto =
      let refused = retire_credit-refused s.client s.stellar s.number now user_id wallet n dto w in
      elim (Option-cases (find? (credit_by_number n) w.db.credits)) [
        | inl missing ↦
            unchanged s now user_id wallet w h user _
              ((missing_credit-db s.client s.stellar n w missing user_id wallet).2 s.number now dto)
        | inr (c, found) ↦
            let known = found-CreditKnown _ w.db c found in
            elim (Option-cases
              (s.stellar.retire wallet n dto.reason dto.beneficiary dto.accounting_period
                (s.stellar.is_retired n w.chain).1).0) [
                  | inl failed ↦
                      unchanged s now user_id wallet w h user _ (refused c found (inr failed))
                  | inr (receipt, done) ↦
                      elim (retire_credit-db s.client s.stellar s.number now user_id wallet n dto w
                        c receipt found done) [
                          | inl same ↦ unchanged s now user_id wallet w h user _ same
                          | inr (inl some') ↦
                              subst RefsResolve (sym some')
                                (add_retirement-RefsResolve w.db h _ known)
                          | inr (inr (_, all)) ↦ subst RefsResolve (sym all) (
                              retirement-RefsResolve w.db h (credit_by_number n) retire_all
                                (λ x. refl) (λ x k. k) _ known)
                        ]
                ]
      ]
