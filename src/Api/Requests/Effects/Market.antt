-- ===== src/Api/Requests/Effects/Market.antt =====
-- The requests about offers and retirements.
use carbon_veritas.Base.{
  ℕ, ◌+◌, ◌*◌, ◌≡◌, ◌⊎◌, String, none, some, [], ◌∷◌, ◌++◌, arith, leb, eq_iff,
}
use carbon_veritas.Store.Rows.{find?, modify, find?-never}
use carbon_veritas.Store.Schema.{
  Credit, Offer, Trade, OfferStatus, credit_by_number, credit_by_id, offer_by_number,
}
use carbon_veritas.Store.Prisma.{PrismaClient}
use carbon_veritas.Store.Action.{World, offers, trades}
use carbon_veritas.Api.Stellar.{Stellar}
use carbon_veritas.Api.Marketplace.{
  CreateOfferDto, close_offer, fill_offer, listed_offer, expiry_date, give_credit, purchase,
  cancel_offer, buy_credits, create_offer,
}
use carbon_veritas.Api.Marketplace.Tables.{next_number, next_number-fresh}

module _ (client : PrismaClient) {C : Type 0} (stellar : Stellar C) where
  pub create_offer-db :
      (now : ℕ) (user_id wallet : String) (dto : CreateOfferDto) (w : World C) (c : Credit)
      → find? (credit_by_number dto.credit_id) w.db.credits ≡ some c
      → let after = (create_offer client stellar now user_id wallet dto w).1.db in
        (after ≡ w.db)
        ⊎ ((c.owner_id ≡ user_id)
            × (after ≡ record w.db {
              offers =
                  w.db.offers
                  ++ listed_offer dto
                      (next_number client w.db.offers)
                      c
                      user_id
                      (expiry_date dto.expires_at)
                      (client.cuid w.drawn)
                    ∷ [];
            }))
  unfolding create_offer
  create_offer-db now user_id wallet dto w c found =
      let row =
        listed_offer dto (next_number client w.db.offers) c user_id (expiry_date dto.expires_at)
          (client.cuid w.drawn) in
      ground (
        arith,
        eq_iff c.owner_id user_id,
        client.find_unique_lem Credit (credit_by_number dto.credit_id) w.db.credits,
        client.create_new Offer offers.clash row w.db.offers (next_number-fresh client w.db.offers),
      )

  pub create_offer-missing :
      (now : ℕ) (user_id wallet : String) (dto : CreateOfferDto) (w : World C)
      → find? (credit_by_number dto.credit_id) w.db.credits ≡ none
      → (create_offer client stellar now user_id wallet dto w).1.db ≡ w.db
  unfolding create_offer
  create_offer-missing now user_id wallet dto w missing =
      ground (arith, client.find_unique_lem Credit (credit_by_number dto.credit_id) w.db.credits)

  pub cancel_offer-db :
      (user_id : String) (offer_id : ℕ) (w : World C) (o : Offer)
      → find? (offer_by_number offer_id) w.db.offers ≡ some o
      → let after = (cancel_offer client stellar user_id offer_id w).1.db in
        (after ≡ w.db)
        ⊎ (after ≡ record w.db {
          offers =
              modify (offer_by_number offer_id) (close_offer OfferStatus.cancelled) w.db.offers;
        })
  unfolding cancel_offer
  cancel_offer-db user_id offer_id w o found =
      let p = offer_by_number offer_id in
      ground (
        arith,
        client.find_unique_lem Offer p w.db.offers,
        client.update_found Offer p (close_offer OfferStatus.cancelled) w.db.offers o found,
      )

  pub cancel_offer-missing :
      (user_id : String) (offer_id : ℕ) (w : World C)
      → find? (offer_by_number offer_id) w.db.offers ≡ none
      → (cancel_offer client stellar user_id offer_id w).1.db ≡ w.db
  unfolding cancel_offer
  cancel_offer-missing user_id offer_id w missing =
      ground (arith, client.find_unique_lem Offer (offer_by_number offer_id) w.db.offers)

  -- A purchase of a known offer whose credit is known.
  pub buy_credits-db :
      (now : ℕ) (user_id wallet : String) (offer_id amount : ℕ) (w : World C) (o : Offer)
      (c : Credit)
      → find? (offer_by_number offer_id) w.db.offers ≡ some o
      → find? (credit_by_id o.credit_id) w.db.credits ≡ some c
      → c.id ≡ o.credit_id
      → let p = offer_by_number offer_id in
        let after = (buy_credits client stellar now user_id wallet offer_id amount w).1.db in
        (after ≡ w.db)
        ⊎ ((after ≡ record w.db { offers = modify p (close_offer OfferStatus.expired) w.db.offers })
            ⊎ (after ≡ record w.db {
              trades =
                  w.db.trades
                  ++ purchase o user_id amount
                      (amount * o.price_per_tonne)
                      c.id
                      (client.cuid w.drawn)
                    ∷ [];
              credits = modify (credit_by_id c.id) (give_credit user_id) w.db.credits;
              offers =
                  modify p
                    (fill_offer
                      (o.amount_filled + amount)
                      (leb o.amount (o.amount_filled + amount)))
                    w.db.offers;
            }))
  unfolding buy_credits
  buy_credits-db now user_id wallet offer_id amount w o c found owned same =
      let p = offer_by_number offer_id in
      let q = credit_by_id c.id in
      let f = fill_offer (o.amount_filled + amount) (leb o.amount (o.amount_filled + amount)) in
      let trade =
        purchase o user_id amount (amount * o.price_per_tonne) c.id (client.cuid w.drawn) in
      let again : find? q w.db.credits ≡ some c = ground arith in
      ground (
        arith,
        client.find_unique_lem Offer p w.db.offers,
        client.find_unique_lem Credit (credit_by_id o.credit_id) w.db.credits,
        client.update_found Offer p (close_offer OfferStatus.expired) w.db.offers o found,
        client.create_new Trade trades.clash trade w.db.trades (find?-never w.db.trades),
        client.update_found Credit q (give_credit user_id) w.db.credits c again,
        client.update_found Offer p f w.db.offers o found,
      )

  pub buy_credits-missing :
      (now : ℕ) (user_id wallet : String) (offer_id amount : ℕ) (w : World C)
      → find? (offer_by_number offer_id) w.db.offers ≡ none
      → (buy_credits client stellar now user_id wallet offer_id amount w).1.db ≡ w.db
  unfolding buy_credits
  buy_credits-missing now user_id wallet offer_id amount w missing =
      ground (arith, client.find_unique_lem Offer (offer_by_number offer_id) w.db.offers)

  pub buy_credits-orphan :
      (now : ℕ) (user_id wallet : String) (offer_id amount : ℕ) (w : World C) (o : Offer)
      → find? (offer_by_number offer_id) w.db.offers ≡ some o
      → find? (credit_by_id o.credit_id) w.db.credits ≡ none
      → (buy_credits client stellar now user_id wallet offer_id amount w).1.db ≡ w.db
  unfolding buy_credits
  buy_credits-orphan now user_id wallet offer_id amount w o found missing = ground (
    arith,
    client.find_unique_lem Offer (offer_by_number offer_id) w.db.offers,
    client.find_unique_lem Credit (credit_by_id o.credit_id) w.db.credits,
  )
