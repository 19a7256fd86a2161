-- ===== src/Api/Marketplace/Bounds.antt =====
-- Invariants of the marketplace: no offer sells more than it lists, and a seller has at most one
-- active offer for a credit.
use carbon_veritas.Base.{
  ℕ, ◌+◌, ◌≤◌, ◌≡◌, ◌⊎◌, inl, inr, eq_iff, String, Bool, true, false, some, List, [], ◌∷◌, ◌++◌,
  arith, refl, All, All-append, Option-cases, Bool-cases, length, leb,
}
use carbon_veritas.Store.Rows.{
  find?, modify, select, All-modify, All-modify_found, length-select-append, length-select-never,
  length-select-modify_found,
}
use carbon_veritas.Store.Schema.{Offer, OfferStatus, offer_by_number, credit_by_number}
use carbon_veritas.Store.Prisma.{PrismaClient}
use carbon_veritas.Store.Action.{World}
use carbon_veritas.Api.Stellar.{Stellar}
use carbon_veritas.Api.Marketplace.{
  CreateOfferDto, close_offer, fill_offer, cancel_offer, buy_credits, create_offer, is_open,
}
use carbon_veritas.Api.Marketplace.Tables.{
  create_offer-offers, create_offer-unknown, cancel_offer-offers, cancel_offer-unknown,
  buy_credits-offers, buy_credits-unknown,
}

-- At most one active offer, for every credit and seller.
abbrev pub OneOpen : List Offer → Type 0
OneOpen rows =
    (credit_id seller_id : String) → length (select (is_open credit_id seller_id) rows) ≤ 1

-- An offer is not filled beyond its amount.
abbrev pub IsBounded : Offer → Type 0
IsBounded o = o.amount_filled ≤ o.amount

abbrev pub IsSound : List Offer → Type 0
IsSound rows = All IsBounded rows × OneOpen rows

close_offer-IsSound :
    (status : OfferStatus) (p : Offer → Bool) (rows : List Offer) (o : Offer)
    → (status ≡ OfferStatus.expired) ⊎ (status ≡ OfferStatus.cancelled)
    → find? p rows ≡ some o
    → IsSound rows
    → IsSound (modify p (close_offer status) rows)
close_offer-IsSound status p rows o closed found (bounded, one) = (
  All-modify IsBounded p (close_offer status) rows (λ r k. k) bounded,
  λ c s. omega (
    arith,
    length-select-modify_found p (is_open c s) (close_offer status) rows o found (ground arith),
    one c s,
  ),
)

fill_offer-IsSound :
    (total : ℕ) (full : Bool) (p : Offer → Bool) (rows : List Offer) (o : Offer)
    → find? p rows ≡ some o
    → o.status ≡ OfferStatus.active
    → total ≤ o.amount
    → IsSound rows
    → IsSound (modify p (fill_offer total full) rows)
fill_offer-IsSound total full p rows o found active le (bounded, one) = (
  All-modify_found IsBounded p (fill_offer total full) rows o found le bounded,
  λ c s. omega (
    arith,
    length-select-modify_found p (is_open c s) (fill_offer total full) rows o found (ground arith),
    one c s,
  ),
)

is_open-keys :
    (c s : String) (o : Offer) → is_open c s o ≡ true → (o.credit_id ≡ c) × (o.seller_id ≡ s)
is_open-keys c s o h = ground (arith, (eq_iff o.credit_id c).0, (eq_iff o.seller_id s).0)

listed-OneOpen :
    (rows : List Offer) (o : Offer)
    → All (λ r. is_open o.credit_id o.seller_id r ≡ false) rows
    → OneOpen rows
    → OneOpen (rows ++ o ∷ [])
listed-OneOpen rows o none' one c s =
    let sum = length-select-append (is_open c s) rows (o ∷ []) in
    elim (Bool-cases (is_open c s o)) [
      | inr other ↦ rw sum (rw other (omega (arith, one c s)))
      | inl same ↦
          let keys = is_open-keys c s o same in
          let h = length-select-never (is_open o.credit_id o.seller_id) rows none' in
          let h' : length (select (is_open c s) rows) ≡ 0 = rw (keys.0, keys.1) at h in
          rw sum (rw same (omega (arith, h')))
    ]

listed-IsSound :
    (rows : List Offer) (o : Offer)
    → o.amount_filled ≡ 0
    → All (λ r. is_open o.credit_id o.seller_id r ≡ false) rows
    → IsSound rows
    → IsSound (rows ++ o ∷ [])
listed-IsSound rows o zero' none' (bounded, one) =
    (All-append IsBounded rows (o ∷ []) bounded (omega arith, tt), listed-OneOpen rows o none' one)

module _ (client : PrismaClient) {C : Type 0} (stellar : Stellar C) where
  -- create
  pub create_offer-IsSound :
      (now : ℕ) (user_id wallet : String) (dto : CreateOfferDto) (w : World C)
      → IsSound w.db.offers
      → IsSound (create_offer client stellar now user_id wallet dto w).1.db.offers
  create_offer-IsSound now user_id wallet dto w h =
      elim (Option-cases (find? (credit_by_number dto.credit_id) w.db.credits)) [
        | inl missing ↦ rw (create_offer-unknown client stellar now user_id wallet dto w missing) h
        | inr (c, found) ↦
            elim (create_offer-offers client stellar now user_id wallet dto w c found) [
              | inl same ↦ rw same h
              | inr (none', new) ↦ rw new (
                  listed-IsSound w.db.offers _ refl
                    (client.find_first_none Offer (is_open c.id user_id) w.db.offers none') h)
            ]
      ]

  -- buy
  pub buy_credits-IsSound :
      (now : ℕ) (user_id wallet : String) (offer_id amount : ℕ) (w : World C)
      → IsSound w.db.offers
      → IsSound (buy_credits client stellar now user_id wallet offer_id amount w).1.db.offers
  buy_credits-IsSound now user_id wallet offer_id amount w h =
      let p = offer_by_number offer_id in
      elim (Option-cases (find? p w.db.offers)) [
        | inl missing ↦
            rw (buy_credits-unknown client stellar now user_id wallet offer_id amount w missing) h
        | inr (o, found) ↦
            elim (buy_credits-offers client stellar now user_id wallet offer_id amount w o found) [
              | inl same ↦ rw same h
              | inr (inl expired') ↦
                  rw expired'
                    (close_offer-IsSound OfferStatus.expired p w.db.offers o (inl refl) found h)
              | inr (inr (le, active', new)) ↦ rw new (
                  fill_offer-IsSound (o.amount_filled + amount)
                    (leb o.amount (o.amount_filled + amount)) p w.db.offers o found active'
                    (omega arith) h)
            ]
      ]

  -- cancel
  pub cancel_offer-IsSound :
      (user_id : String) (offer_id : ℕ) (w : World C)
      → IsSound w.db.offers
      → IsSound (cancel_offer client stellar user_id offer_id w).1.db.offers
  cancel_offer-IsSound user_id offer_id w h =
      let p = offer_by_number offer_id in
      elim (Option-cases (find? p w.db.offers)) [
        | inl missing ↦ rw (cancel_offer-unknown client stellar user_id offer_id w missing) h
        | inr (o, found) ↦ elim (cancel_offer-offers client stellar user_id offer_id w o found) [
          | inl same ↦ rw same h
          | inr new ↦
              rw new (close_offer-IsSound OfferStatus.cancelled p w.db.offers o (inr refl) found h)
        ]
      ]

pub data MarketRequest : Type 0 where
  sell : (user_id wallet : String) → CreateOfferDto → MarketRequest
  buy : (user_id wallet : String) (offer_id amount : ℕ) → MarketRequest
  cancel : (user_id : String) (offer_id : ℕ) → MarketRequest

module _ (client : PrismaClient) {C : Type 0} (stellar : Stellar C) where
  -- Requests served one after the other, each with the clock at its time; what one answers is not
  -- seen by the next.
  unfoldable pub serve_market : List (ℕ × MarketRequest) → World C → World C
  serve_market [] w = w
  serve_market ((now, sell user_id wallet dto) ∷ rest) w =
      serve_market rest (create_offer client stellar now user_id wallet dto w).1
  serve_market ((now, buy user_id wallet offer_id amount) ∷ rest) w =
      serve_market rest (buy_credits client stellar now user_id wallet offer_id amount w).1
  serve_market ((now, cancel user_id offer_id) ∷ rest) w =
      serve_market rest (cancel_offer client stellar user_id offer_id w).1

  -- Call the offers sound when none is filled beyond its amount and every seller has at most one
  -- active offer for a credit. Any sequence of requests to sell, buy and cancel whose prices and
  -- amounts are whole numbers that are not negative, whatever the chain answers and whether they
  -- succeed or throw, takes sound offers to sound offers.
  pub serve_market-IsSound :
      (requests : List (ℕ × MarketRequest)) (w : World C)
      → IsSound w.db.offers
      → IsSound (serve_market requests w).db.offers
  unfolding serve_market
  serve_market-IsSound [] w h = h
  serve_market-IsSound ((now, sell user_id wallet dto) ∷ rest) w h =
      serve_market-IsSound rest (create_offer client stellar now user_id wallet dto w).1
        (create_offer-IsSound client stellar now user_id wallet dto w h)
  serve_market-IsSound ((now, buy user_id wallet offer_id amount) ∷ rest) w h =
      serve_market-IsSound rest (buy_credits client stellar now user_id wallet offer_id amount w).1
        (buy_credits-IsSound client stellar now user_id wallet offer_id amount w h)
  serve_market-IsSound ((now, cancel user_id offer_id) ∷ rest) w h =
      serve_market-IsSound rest (cancel_offer client stellar user_id offer_id w).1
        (cancel_offer-IsSound client stellar user_id offer_id w h)
