-- ===== src/Api/Requests/Integrity/Market.antt =====
-- The requests about offers.
use carbon_veritas.Base.{
  ℕ, ◌+◌, ◌≡◌, inl, inr, refl, sym, String, Bool, [], ◌∷◌, ◌++◌, leb, eq_iff, Option-cases,
}
use mathlib.Core.Path.{subst}
use carbon_veritas.Store.Rows.{find?, modify, find?-holds}
use carbon_veritas.Store.Schema.{
  Db, Credit, Offer, OfferStatus, credit_by_number, credit_by_id, offer_by_number,
}
use carbon_veritas.Store.Action.{World}
use carbon_veritas.Store.References.{
  RefsResolve, UserKnown, CreditKnown, OfferKnown, change_credits-RefsResolve,
  add_offer-RefsResolve, change_offers-RefsResolve, add_trade-RefsResolve,
}
use carbon_veritas.Api.Marketplace.{CreateOfferDto, close_offer, fill_offer, give_credit, purchase}
use carbon_veritas.Api.Requests.{Service, sell, buy, cancel, serve}
use carbon_veritas.Api.Requests.Effects.Market.{
  create_offer-db, create_offer-missing, cancel_offer-db, cancel_offer-missing, buy_credits-db,
  buy_credits-missing, buy_credits-orphan,
}
use carbon_veritas.Api.Requests.Integrity.Common.{
  After, unchanged, found-CreditKnown, found-OfferKnown,
}

module _ {C : Type 0} (s : Service C) (now : ℕ) (user_id wallet : String) (w : World C)
    (h : RefsResolve w.db) (user : UserKnown w.db user_id) where
  pub sell-After : (dto : CreateOfferDto) → After s now user_id wallet w h user (sell dto)
  unfolding serve
  sell-After dto = elim (Option-cases (find? (credit_by_number dto.credit_id) w.db.credits)) [
    | inl missing ↦
        unchanged s now user_id wallet w h user _
          (create_offer-missing s.client s.stellar now user_id wallet dto w missing)
    | inr (c, found) ↦ elim (create_offer-db s.client s.stellar now user_id wallet dto w c found) [
      | inl same ↦ unchanged s now user_id wallet w h user _ same
      | inr (_, new) ↦
          subst RefsResolve (sym new)
            (add_offer-RefsResolve w.db h _ (user, found-CreditKnown _ w.db c found))
    ]
  ]

  pub cancel-After : (offer_id : ℕ) → After s now user_id wallet w h user (cancel offer_id)
  unfolding serve
  cancel-After offer_id = elim (Option-cases (find? (offer_by_number offer_id) w.db.offers)) [
    | inl missing ↦
        unchanged s now user_id wallet w h user _
          (cancel_offer-missing s.client s.stellar user_id offer_id w missing)
    | inr (o, found) ↦ elim (cancel_offer-db s.client s.stellar user_id offer_id w o found) [
      | inl same ↦ unchanged s now user_id wallet w h user _ same
      | inr new ↦ subst RefsResolve (sym new) (
          change_offers-RefsResolve w.db h (offer_by_number offer_id)
            (close_offer OfferStatus.cancelled) (λ r. refl) (λ r k. k))
    ]
  ]

  -- The three writes of a purchase.
  purchase-RefsResolve :
      (o : Offer) (c : Credit) (amount price : ℕ) (id : String) (p : Offer → Bool)
      (f : Offer → Offer)
      → OfferKnown w.db o.id
      → CreditKnown w.db c.id
      → ((x : Offer) → (f x).id ≡ x.id)
      → ((x : Offer) → ((f x).seller_id ≡ x.seller_id) × ((f x).credit_id ≡ x.credit_id))
      → RefsResolve (record w.db {
        trades = w.db.trades ++ purchase o user_id amount price c.id id ∷ [];
        credits = modify (credit_by_id c.id) (give_credit user_id) w.db.credits;
        offers = modify p f w.db.offers;
      })
  purchase-RefsResolve o c amount price id p f offer credit same keys =
      let trade = purchase o user_id amount price c.id id in
      let d : Db = record w.db { trades = w.db.trades ++ trade ∷ [] } in
      let e : Db = record d {
        credits = modify (credit_by_id c.id) (give_credit user_id) d.credits;
      } in
      let at_d : RefsResolve d = add_trade-RefsResolve w.db h trade (user, offer, credit) in
      let at_e : RefsResolve e =
        change_credits-RefsResolve d at_d (credit_by_id c.id) (give_credit user_id) (λ x. refl)
          (λ x k. (user, k.1)) in
      change_offers-RefsResolve e at_e p f same (λ x k. (rw ((keys x).0) k.0, rw ((keys x).1) k.1))

  pub buy-After : (offer_id amount : ℕ) → After s now user_id wallet w h user (buy offer_id amount)
  unfolding serve
  buy-After n amount = elim (Option-cases (find? (offer_by_number n) w.db.offers)) [
    | inl missing ↦
        unchanged s now user_id wallet w h user _
          (buy_credits-missing s.client s.stellar now user_id wallet n amount w missing)
    | inr (o, found) ↦ elim (Option-cases (find? (credit_by_id o.credit_id) w.db.credits)) [
      | inl orphan ↦
          unchanged s now user_id wallet w h user _
            (buy_credits-orphan s.client s.stellar now user_id wallet n amount w o found orphan)
      | inr (c, owned) ↦
          let same = (eq_iff _ _).0 (find?-holds (credit_by_id o.credit_id) w.db.credits c owned) in
          elim (buy_credits-db s.client s.stellar now user_id wallet n amount w o c found owned
            same) [
              | inl kept ↦ unchanged s now user_id wallet w h user _ kept
              | inr (inl expired') ↦ subst RefsResolve (sym expired') (
                  change_offers-RefsResolve w.db h (offer_by_number n)
                    (close_offer OfferStatus.expired) (λ r. refl) (λ r k. k))
              | inr (inr bought) ↦ subst RefsResolve (sym bought) (
                  purchase-RefsResolve o c amount _ _ (offer_by_number n)
                    (fill_offer (o.amount_filled + amount)
                      (leb o.amount (o.amount_filled + amount)))
                    (found-OfferKnown _ w.db o found) (found-CreditKnown _ w.db c owned) (λ r. refl)
                    (λ r. (refl, refl)))
            ]
    ]
  ]
