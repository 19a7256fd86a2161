-- ===== src/Api/Marketplace/Tables.antt =====
-- What each operation of the marketplace does to the table of offers, on every path.
use carbon_veritas.Base.{
  ℕ, suc, ◌+◌, ◌≤◌, ◌≡◌, ◌⊎◌, inl, inr, refl, String, none, some, List, [], ◌∷◌, ◌++◌, arith, All,
  Option-cases, leb,
}
use carbon_veritas.Store.Rows.{find?, modify}
use carbon_veritas.Store.Schema.{Credit, Offer, OfferStatus, offer_by_number, credit_by_number}
use carbon_veritas.Store.Prisma.{PrismaClient}
use carbon_veritas.Store.Action.{World, offers}
use carbon_veritas.Api.Stellar.{Stellar}
use carbon_veritas.Api.Marketplace.{
  CreateOfferDto, close_offer, fill_offer, listed_offer, expiry_date, is_open, next_offer_id,
  cancel_offer, buy_credits, create_offer,
}

above-unused :
    (n : ℕ) (rows : List Offer)
    → All (λ o. suc o.offer_id ≤ n) rows
    → find? (offer_by_number n) rows ≡ none
above-unused n [] h = refl
above-unused n (o ∷ rows) (h, hs) = ground (arith, above-unused n rows)

suc-above :
    (n : ℕ) (rows : List Offer)
    → All (λ o. o.offer_id ≤ n) rows
    → All (λ o. suc o.offer_id ≤ n + 1) rows
suc-above n [] h = tt
suc-above n (o ∷ rows) (h, hs) = (omega arith, suc-above n rows hs)

module _ (client : PrismaClient) where
  abbrev pub next_number : List Offer → ℕ
  next_number rows = next_offer_id (client.find_last Offer (λ o. o.offer_id) rows)

  -- The number of a new offer is not in use.
  pub next_number-fresh :
      (rows : List Offer) → find? (offer_by_number (next_number rows)) rows ≡ none
  next_number-fresh rows = elim (Option-cases (client.find_last Offer (λ o. o.offer_id) rows)) [
    | inl empty ↦ rw (client.find_last_none Offer (λ o. o.offer_id) rows empty) refl
    | inr (o, last) ↦ rw last (
        above-unused (o.offer_id + 1) rows
          (suc-above o.offer_id rows (client.find_last_max Offer (λ o. o.offer_id) rows o last)))
  ]

module _ (client : PrismaClient) {C : Type 0} (stellar : Stellar C) where
  pub create_offer-offers :
      (now : ℕ) (user_id wallet : String) (dto : CreateOfferDto) (w : World C) (c : Credit)
      → find? (credit_by_number dto.credit_id) w.db.credits ≡ some c
      → let after = (create_offer client stellar now user_id wallet dto w).1.db.offers in
        (after ≡ w.db.offers)
        ⊎ ((client.find_first Offer (is_open c.id user_id) w.db.offers ≡ none)
            × (after
                ≡ w.db.offers
                  ++ listed_offer dto
                      (next_number client w.db.offers)
                      c
                      user_id
                      (expiry_date dto.expires_at)
                      (client.cuid w.drawn)
                    ∷ []))
  unfolding create_offer
  create_offer-offers now user_id wallet dto w c found =
      let row =
        listed_offer dto (next_number client w.db.offers) c user_id (expiry_date dto.expires_at)
          (client.cuid w.drawn) in
      ground (
        arith,
        client.find_unique_lem Credit (credit_by_number dto.credit_id) w.db.credits,
        client.create_new Offer offers.clash row w.db.offers (next_number-fresh client w.db.offers),
      )

  pub create_offer-unknown :
      (now : ℕ) (user_id wallet : String) (dto : CreateOfferDto) (w : World C)
      → find? (credit_by_number dto.credit_id) w.db.credits ≡ none
      → (create_offer client stellar now user_id wallet dto w).1.db.offers ≡ w.db.offers
  unfolding create_offer
  create_offer-unknown now user_id wallet dto w missing =
      ground (arith, client.find_unique_lem Credit (credit_by_number dto.credit_id) w.db.credits)

  pub cancel_offer-offers :
      (user_id : String) (offer_id : ℕ) (w : World C) (o : Offer)
      → find? (offer_by_number offer_id) w.db.offers ≡ some o
      → let after = (cancel_offer client stellar user_id offer_id w).1.db.offers in
        (after ≡ w.db.offers)
        ⊎ (after
            ≡ modify (offer_by_number offer_id) (close_offer OfferStatus.cancelled) w.db.offers)
  unfolding cancel_offer
  cancel_offer-offers user_id offer_id w o found =
      let p = offer_by_number offer_id in
      ground (
        arith,
        client.find_unique_lem Offer p w.db.offers,
        client.update_found Offer p (close_offer OfferStatus.cancelled) w.db.offers o found,
      )

  pub cancel_offer-unknown :
      (user_id : String) (offer_id : ℕ) (w : World C)
      → find? (offer_by_number offer_id) w.db.offers ≡ none
      → (cancel_offer client stellar user_id offer_id w).1.db.offers ≡ w.db.offers
  unfolding cancel_offer
  cancel_offer-unknown user_id offer_id w missing =
      ground (arith, client.find_unique_lem Offer (offer_by_number offer_id) w.db.offers)

  pub buy_credits-unknown :
      (now : ℕ) (user_id wallet : String) (offer_id amount : ℕ) (w : World C)
      → find? (offer_by_number offer_id) w.db.offers ≡ none
      → (buy_credits client stellar now user_id wallet offer_id amount w).1.db.offers ≡ w.db.offers
  unfolding buy_credits
  buy_credits-unknown now user_id wallet offer_id amount w missing =
      ground (arith, client.find_unique_lem Offer (offer_by_number offer_id) w.db.offers)

  pub buy_credits-offers :
      (now : ℕ) (user_id wallet : String) (offer_id amount : ℕ) (w : World C) (o : Offer)
      → find? (offer_by_number offer_id) w.db.offers ≡ some o
      → let p = offer_by_number offer_id in
        let after = (buy_credits client stellar now user_id wallet offer_id amount w).1.db.offers in
        (after ≡ w.db.offers)
        ⊎ ((after ≡ modify p (close_offer OfferStatus.expired) w.db.offers)
            ⊎ ((amount + o.amount_filled ≤ o.amount)
                × (o.status ≡ OfferStatus.active)
                × (after
                    ≡ modify p
                        (fill_offer
                          (o.amount_filled + amount)
                          (leb o.amount (o.amount_filled + amount)))
                        w.db.offers)))
  unfolding buy_credits
  buy_credits-offers now user_id wallet offer_id amount w o found =
      let p = offer_by_number offer_id in
      let full = leb o.amount (o.amount_filled + amount) in
      ground (
        arith,
        client.find_unique_lem Offer p w.db.offers,
        client.update_found Offer p (close_offer OfferStatus.expired) w.db.offers o found,
        client.update_found Offer p (fill_offer (o.amount_filled + amount) full) w.db.offers o
            found,
      )
