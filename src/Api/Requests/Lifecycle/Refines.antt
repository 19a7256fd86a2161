-- ===== src/Api/Requests/Lifecycle/Refines.antt =====
-- The requests make the credits follow the machine.
use carbon_veritas.Base.{
  ℕ, ◌≡◌, inl, inr, refl, sym, String, true, Option, some, List, [], ◌∷◌, arith, eq_iff, or_else,
  Option-cases, ap,
}
use mathlib.Core.Path.{subst}
use carbon_veritas.Store.Rows.{find?, find?-holds}
use carbon_veritas.Store.Schema.{
  Db, User, credit_by_number, credit_by_id, offer_by_number, user_by_id, CreditStatus,
}
use carbon_veritas.Store.Action.{World}
use carbon_veritas.Api.Marketplace.{CreateOfferDto, give_credit}
use carbon_veritas.Api.Credits.{CreateCreditDto, activate, refuse, is_pending}
use carbon_veritas.Api.Retirement.{RetireCreditDto, retire_all}
use carbon_veritas.Api.Credits.Votes.{approve_credit-refused, reject_credit-refused}
use carbon_veritas.Api.Retirement.Effects.{retire_credit-refused}
use carbon_veritas.Api.Requests.{
  Service, Request, issue, approve, reject, sell, buy, cancel, retire, enroll, report, import,
  export, serve, handle, handle_all,
}
use carbon_veritas.Api.Requests.Effects.Market.{
  create_offer-db, create_offer-missing, cancel_offer-db, cancel_offer-missing, buy_credits-db,
  buy_credits-missing, buy_credits-orphan,
}
use carbon_veritas.Api.Requests.Effects.Registry.{
  issue_credit-db, issue_credit-unpinned, approve_credit-db, reject_credit-db, retire_credit-db,
  missing_credit-db, register-db, heartbeat-db, bridge_in-db, bridge_out-db,
}
use carbon_veritas.Api.Requests.Lifecycle.{
  to_active, to_rejected, to_retired, Moves, stay, then, Evolves, Evolves-refl, Evolves-trans,
  Evolves-append, Evolves-modify,
}

is_pending-eq : (s : CreditStatus) → is_pending s ≡ true → s ≡ CreditStatus.pending
is_pending-eq s h = ground arith

module _ {C : Type 0} (s : Service C) (now : ℕ) (user_id wallet : String) (w : World C) where
  abbrev Next : Request → Type 0
  Next r = Evolves w.db.credits (serve s now user_id wallet r w).db.credits

  -- A database with the credits of before, or with others that follow.
  same_credits : (d : Db) → d.credits ≡ w.db.credits → Evolves w.db.credits d.credits
  same_credits d e = subst (λ cs. Evolves w.db.credits cs) (sym e) (Evolves-refl w.db.credits)

  unchanged : (d : Db) → d ≡ w.db → Evolves w.db.credits d.credits
  unchanged d e = same_credits d (ap (λ x. x.credits) e)

  becomes : (d e : Db) → d ≡ e → Evolves w.db.credits e.credits → Evolves w.db.credits d.credits
  becomes d e eq h = subst (λ x. Evolves w.db.credits x.credits) (sym eq) h

  sell-Next : (dto : CreateOfferDto) → Next (sell dto)
  unfolding serve
  sell-Next dto = elim (Option-cases (find? (credit_by_number dto.credit_id) w.db.credits)) [
    | inl missing ↦
        unchanged _ (create_offer-missing s.client s.stellar now user_id wallet dto w missing)
    | inr (c, found) ↦ elim (create_offer-db s.client s.stellar now user_id wallet dto w c found) [
      | inl same ↦ unchanged _ same
      | inr (_, new) ↦ becomes _ _ new (Evolves-refl w.db.credits)
    ]
  ]

  cancel-Next : (offer_id : ℕ) → Next (cancel offer_id)
  unfolding serve
  cancel-Next offer_id = elim (Option-cases (find? (offer_by_number offer_id) w.db.offers)) [
    | inl missing ↦ unchanged _ (cancel_offer-missing s.client s.stellar user_id offer_id w missing)
    | inr (o, found) ↦ elim (cancel_offer-db s.client s.stellar user_id offer_id w o found) [
      | inl same ↦ unchanged _ same
      | inr new ↦ becomes _ _ new (Evolves-refl w.db.credits)
    ]
  ]

  issue-Next : (dto : CreateCreditDto) → Next (issue dto)
  unfolding serve
  issue-Next dto = elim (Option-cases (s.pin_json dto w.chain).0) [
    | inl failed ↦ unchanged _ (
        issue_credit-unpinned s.client s.stellar s.upper s.date s.pin_json user_id wallet dto w
          failed)
    | inr (hash, pinned) ↦
        elim (issue_credit-db s.client s.stellar s.upper s.date s.pin_json user_id wallet dto w hash
          pinned) [
            | inl same ↦ unchanged _ same
            | inr new ↦ becomes _ _ new (Evolves-append w.db.credits _ refl)
          ]
  ]

  approve-Next : (credit_id : ℕ) (comments : Option String) → Next (approve credit_id comments)
  unfolding serve
  approve-Next n comments =
      let refused =
        approve_credit-refused s.client s.stellar s.threshold user_id wallet n comments w in
      elim (Option-cases (find? (credit_by_number n) w.db.credits)) [
        | inl missing ↦ unchanged _ (refused (inl missing))
        | inr (c, found) ↦
            elim (Option-cases
              (s.stellar.approve_and_mint wallet n (or_else comments "") w.chain).0) [
                | inl failed ↦ unchanged _ (refused (inr failed))
                | inr (tx, minted) ↦
                    elim (approve_credit-db s.client s.stellar s.threshold user_id wallet n comments
                      w c tx found minted) [
                        | inl same ↦ unchanged _ same
                        | inr (inl voted) ↦ becomes _ _ voted (Evolves-refl w.db.credits)
                        | inr (inr (pending, active')) ↦ becomes _ _ active' (
                            Evolves-modify (credit_by_number n) (activate tx) w.db.credits c found
                              (λ x. (refl, refl))
                              (subst (λ t. Moves t CreditStatus.active)
                                (sym (is_pending-eq c.status pending)) (then stay to_active)))
                      ]
              ]
      ]

  reject-Next : (credit_id : ℕ) (reason : String) → Next (reject credit_id reason)
  unfolding serve
  reject-Next n reason = elim (Option-cases (find? (credit_by_number n) w.db.credits)) [
    | inl missing ↦
        unchanged _ (
          reject_credit-refused s.client s.stellar s.quorum user_id wallet n reason w (inl missing))
    | inr (c, found) ↦
        elim (reject_credit-db s.client s.stellar s.quorum user_id wallet n reason w c found) [
          | inl same ↦ unchanged _ same
          | inr (inl voted) ↦ becomes _ _ voted (Evolves-refl w.db.credits)
          | inr (inr (pending, refused)) ↦ becomes _ _ refused (
              Evolves-modify (credit_by_number n) refuse w.db.credits c found (λ x. (refl, refl))
                (subst (λ t. Moves t CreditStatus.rejected) (sym (is_pending-eq c.status pending))
                  (then stay to_rejected)))
        ]
  ]

  retire-Next : (credit_id : ℕ) (dto : RetireCreditDto) → Next (retire credit_id dto)
  unfolding serve
  retire-Next n dto =
      let refused = retire_credit-refused s.client s.stellar s.number now user_id wallet n dto w in
      elim (Option-cases (find? (credit_by_number n) w.db.credits)) [
        | inl missing ↦
            unchanged _
              ((missing_credit-db s.client s.stellar n w missing user_id wallet).2 s.number now dto)
        | inr (c, found) ↦
            elim (Option-cases
              (s.stellar.retire wallet n dto.reason dto.beneficiary dto.accounting_period
                (s.stellar.is_retired n w.chain).1).0) [
                  | inl failed ↦ unchanged _ (refused c found (inr failed))
                  | inr (receipt, done) ↦
                      elim (retire_credit-db s.client s.stellar s.number now user_id wallet n dto w
                        c receipt found done) [
                          | inl same ↦ unchanged _ same
                          | inr (inl some') ↦ becomes _ _ some' (Evolves-refl w.db.credits)
                          | inr (inr (active', all)) ↦ becomes _ _ all (
                              Evolves-modify (credit_by_number n) retire_all w.db.credits c found
                                (λ x. (refl, refl))
                                (subst (λ t. Moves t CreditStatus.retired) (sym active')
                                  (then stay to_retired)))
                        ]
                ]
      ]

  buy-Next : (offer_id amount : ℕ) → Next (buy offer_id amount)
  unfolding serve
  buy-Next n amount = elim (Option-cases (find? (offer_by_number n) w.db.offers)) [
    | inl missing ↦
        unchanged _ (buy_credits-missing s.client s.stellar now user_id wallet n amount w missing)
    | inr (o, found) ↦ elim (Option-cases (find? (credit_by_id o.credit_id) w.db.credits)) [
      | inl orphan ↦
          unchanged _
            (buy_credits-orphan s.client s.stellar now user_id wallet n amount w o found orphan)
      | inr (c, owned) ↦
          let same = (eq_iff _ _).0 (find?-holds (credit_by_id o.credit_id) w.db.credits c owned) in
          let again : find? (credit_by_id c.id) w.db.credits ≡ some c =
            subst (λ k. find? (credit_by_id k) w.db.credits ≡ some c) (sym same) owned in
          elim (buy_credits-db s.client s.stellar now user_id wallet n amount w o c found owned
            same) [
              | inl kept ↦ unchanged _ kept
              | inr (inl expired') ↦ becomes _ _ expired' (Evolves-refl w.db.credits)
              | inr (inr bought) ↦ becomes _ _ bought (
                  Evolves-modify (credit_by_id c.id) (give_credit user_id) w.db.credits c again
                    (λ x. (refl, refl)) stay)
            ]
    ]
  ]

  serve-Evolves : (r : Request) → Next r
  unfolding serve
  serve-Evolves (issue dto) = issue-Next dto
  serve-Evolves (approve n comments) = approve-Next n comments
  serve-Evolves (reject n reason) = reject-Next n reason
  serve-Evolves (sell dto) = sell-Next dto
  serve-Evolves (buy n amount) = buy-Next n amount
  serve-Evolves (cancel n) = cancel-Next n
  serve-Evolves (retire n dto) = retire-Next n dto
  serve-Evolves (enroll stake) =
      becomes _ _ (register-db s.client s.stellar now user_id wallet stake w)
        (Evolves-refl w.db.credits)
  serve-Evolves (report id) =
      becomes _ _ (heartbeat-db s.client s.stellar now id w) (Evolves-refl w.db.credits)
  serve-Evolves (import dto) =
      becomes _ _ (bridge_in-db s.client s.stellar user_id wallet dto w) (Evolves-refl w.db.credits)
  serve-Evolves (export n) =
      becomes _ _ (bridge_out-db s.client s.stellar user_id wallet n w) (Evolves-refl w.db.credits)

module _ {C : Type 0} (s : Service C) where
  handle-Evolves :
      (now : ℕ) (sub : String) (r : Request) (w : World C)
      → Evolves w.db.credits (handle s now sub r w).db.credits
  unfolding handle
  handle-Evolves now sub r w =
      elim (Option-cases (s.client.find_unique User (user_by_id sub) w.db.users)) [
        | inl unknown ↦ rw (handle, unknown) (Evolves-refl w.db.credits)
        | inr (u, known) ↦ rw (handle, known) (serve-Evolves s now u.id u.stellar_pub w r)
      ]

  -- Any sequence of requests to the API, of any users and at any times, whatever the chain, IPFS
  -- and the database answer and whether the requests succeed or throw, makes the credits follow
  -- an abstract machine: every credit stays in its place under its identifier and number, its
  -- status moves only from pending to active, from pending to rejected and from active to
  -- retired, in any number of such moves, and new credits come behind the old ones and follow the
  -- machine from pending.
  pub handle_all-Evolves :
      (requests : List (ℕ × String × Request)) (w : World C)
      → Evolves w.db.credits (handle_all s requests w).db.credits
  unfolding handle_all
  handle_all-Evolves [] w = Evolves-refl w.db.credits
  handle_all-Evolves ((now, sub, r) ∷ rest) w =
      Evolves-trans _ _ _ (handle-Evolves now sub r w)
        (handle_all-Evolves rest (handle s now sub r w))
