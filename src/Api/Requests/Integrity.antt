-- ===== src/Api/Requests/Integrity.antt =====
-- Every request keeps the relations between the tables.
mod Common
mod Market
mod Registry
use carbon_veritas.Base.{
  ℕ, ◌+◌, ◌*◌, ◌≡◌, ◌⊎◌, inl, inr, refl, sym, ◌∙◌, String, Bool, true, Option, none, some, List, [],
  ◌∷◌, ◌++◌, arith, leb, eq_iff, eq_refl, or_else, Option-cases,
}
use mathlib.Core.Path.{subst}
use carbon_veritas.Store.Rows.{find?, modify, exists?_of_find?, find?-holds}
use carbon_veritas.Store.Schema.{
  Db, Credit, Approval, Retirement, Verifier, Offer, User, OfferStatus, credit_by_number,
  credit_by_id, offer_by_number, user_by_id,
}
use carbon_veritas.Store.Prisma.{PrismaClient}
use carbon_veritas.Store.Action.{World}
use carbon_veritas.Store.References.{
  RefsResolve, CreditRefs, UserKnown, CreditKnown, OfferKnown, offer_by_id, add_credit-RefsResolve,
  change_credits-RefsResolve, add_offer-RefsResolve, change_offers-RefsResolve,
  add_trade-RefsResolve, add_approval-RefsResolve, add_retirement-RefsResolve,
  set_bridge_records-RefsResolve,
}
use carbon_veritas.Api.Marketplace.{
  CreateOfferDto, close_offer, fill_offer, listed_offer, expiry_date, give_credit, purchase,
  create_offer, buy_credits, cancel_offer,
}
use carbon_veritas.Api.Marketplace.Tables.{next_number}
use carbon_veritas.Api.Credits.{CreateCreditDto, issued, decision, activate, refuse}
use carbon_veritas.Api.Retirement.{RetireCreditDto, retired_tonnes, retirement_row, retire_all}
use carbon_veritas.Api.Credits.Votes.{approve_credit-refused, reject_credit-refused}
use carbon_veritas.Api.Retirement.Effects.{retire_credit-refused}
use carbon_veritas.Api.Requests.{
  Service, Request, issue, approve, reject, sell, buy, cancel, retire, enroll, report, import,
  export, serve, handle,
}
use carbon_veritas.Api.Requests.Effects.Market.{
  create_offer-db, create_offer-missing, cancel_offer-db, cancel_offer-missing, buy_credits-db,
  buy_credits-missing, buy_credits-orphan,
}
use carbon_veritas.Api.Requests.Effects.Registry.{
  issue_credit-db, issue_credit-unpinned, approve_credit-db, reject_credit-db, retire_credit-db,
  missing_credit-db, register-db, heartbeat-db, bridge_in-db, bridge_out-db, next_credit_number,
}
use carbon_veritas.Api.Requests.Integrity.Common.{
  After, unchanged, found-CreditKnown, found-OfferKnown,
}
use carbon_veritas.Api.Requests.Integrity.Market.{sell-After, cancel-After, buy-After}
use carbon_veritas.Api.Requests.Integrity.Registry.{
  issue-After, approve-After, reject-After, retire-After,
}

set_verifiers-RefsResolve :
    (d : Db) (rows : List Verifier) → RefsResolve d → RefsResolve (record d { verifiers = rows })
set_verifiers-RefsResolve d rows h = record {
  credits = h.credits;
  approvals = h.approvals;
  offers = h.offers;
  trades = h.trades;
  retirements = h.retirements;
}

module _ {C : Type 0} (s : Service C) (now : ℕ) (user_id wallet : String) (w : World C)
    (h : RefsResolve w.db) (user : UserKnown w.db user_id) where
  serve-RefsResolve : (r : Request) → After s now user_id wallet w h user r
  unfolding serve
  serve-RefsResolve (issue dto) = issue-After s now user_id wallet w h user dto
  serve-RefsResolve (approve n comments) = approve-After s now user_id wallet w h user n comments
  serve-RefsResolve (reject n reason) = reject-After s now user_id wallet w h user n reason
  serve-RefsResolve (sell dto) = sell-After s now user_id wallet w h user dto
  serve-RefsResolve (buy n amount) = buy-After s now user_id wallet w h user n amount
  serve-RefsResolve (cancel n) = cancel-After s now user_id wallet w h user n
  serve-RefsResolve (retire n dto) = retire-After s now user_id wallet w h user n dto
  serve-RefsResolve (enroll stake) =
      rw (register-db s.client s.stellar now user_id wallet stake w)
        (set_verifiers-RefsResolve w.db _ h)
  serve-RefsResolve (report id) =
      rw (heartbeat-db s.client s.stellar now id w) (set_verifiers-RefsResolve w.db _ h)
  serve-RefsResolve (import dto) =
      rw (bridge_in-db s.client s.stellar user_id wallet dto w)
        (set_bridge_records-RefsResolve w.db h _)
  serve-RefsResolve (export n) =
      rw (bridge_out-db s.client s.stellar user_id wallet n w)
        (set_bridge_records-RefsResolve w.db h _)

module _ {C : Type 0} (s : Service C) where
  -- A request of a token's user, if there is one.
  pub handle-RefsResolve :
      (now : ℕ) (sub : String) (r : Request) (w : World C)
      → RefsResolve w.db
      → RefsResolve (handle s now sub r w).db
  unfolding handle
  handle-RefsResolve now sub r w h =
      elim (Option-cases (s.client.find_unique User (user_by_id sub) w.db.users)) [
        | inl unknown ↦ rw (handle, unknown) h
        | inr (u, known) ↦
            let found = sym (s.client.find_unique_lem User (user_by_id sub) w.db.users) ∙ known in
            let user =
              exists?_of_find? (user_by_id sub) (user_by_id u.id) w.db.users u found
                (eq_refl u.id) in
            rw (handle, known) (serve-RefsResolve s now u.id u.stellar_pub w h user r)
      ]
