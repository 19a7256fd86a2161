-- ===== src/Api/Marketplace.antt =====
-- `MarketplaceService`, api/src/marketplace/marketplace.service.ts: offers and purchases. `now` is
-- the clock in milliseconds at the time of the call. Prices and amounts are whole numbers that are
-- not negative: the columns are of type Float, whose sums and products of whole numbers are exact
-- below 2^53.
pub mod Tables
pub mod Bounds
pub mod Effects
use carbon_veritas.Base.{
  ℕ, ◌+◌, ◌*◌, String, Bool, true, false, not, ◌&&◌, Option, none, some, ltb, leb, ◌==◌, str_eq,
  or_else, if◌then◌else◌,
}
use carbon_veritas.Store.Schema.{
  Credit, Offer, Trade, CreditStatus, OfferStatus, credit_by_number, credit_by_id, offer_by_number,
}
use carbon_veritas.Store.Prisma.{PrismaClient}
use carbon_veritas.Store.Action.{
  Action, pure, throw_if, or_throw, when, throw, emit, ◌>>=◌, ◌>>◌, credits, offers, trades,
  find_unique, find_first, find_last, create, update, not_found, bad_request, forbidden, upstream,
}
use carbon_veritas.Api.Stellar.{Stellar, call}

pub record CreateOfferDto : Type 0 where
  pub credit_id : ℕ
  pub price_per_tonne : ℕ
  pub amount : ℕ
  pub currency : String
  pub expires_at : Option ℕ

abbrev pub is_active_credit : CreditStatus → Bool
is_active_credit CreditStatus.active = true
is_active_credit _ = false

abbrev pub is_active_offer : OfferStatus → Bool
is_active_offer OfferStatus.active = true
is_active_offer _ = false

abbrev is_some : {A : Type 0} → Option A → Bool
is_some none = false
is_some (some _) = true

-- `expiresAt && expiresAt <= new Date()`
abbrev pub is_past : ℕ → Option ℕ → Bool
is_past now none = false
is_past now (some t) = leb t now

-- `dto.expiresAt ? new Date(dto.expiresAt) : null`
abbrev pub expiry_date : Option ℕ → Option ℕ
expiry_date none = none
expiry_date (some t) = if t == 0 then none else some t

-- The active offers of a seller for a credit.
abbrev pub is_open : String → String → Offer → Bool
is_open credit_id seller_id o =
    str_eq o.credit_id credit_id && str_eq o.seller_id seller_id && is_active_offer o.status

-- `(lastOffer?.offerId ?? 0) + 1`
abbrev pub next_offer_id : Option Offer → ℕ
next_offer_id none = 1
next_offer_id (some o) = o.offer_id + 1

abbrev pub listed_offer : CreateOfferDto → ℕ → Credit → String → Option ℕ → String → Offer
listed_offer dto offer_id credit seller_id expires_at id = record {
  id = id;
  offer_id = offer_id;
  credit_id = credit.id;
  seller_id = seller_id;
  price_per_tonne = dto.price_per_tonne;
  amount = dto.amount;
  amount_filled = 0;
  currency = dto.currency;
  status = OfferStatus.active;
  expires_at = expires_at;
}

abbrev pub purchase : Offer → String → ℕ → ℕ → String → String → Trade
purchase offer buyer_id amount total_price credit_id id = record {
  id = id;
  offer_id = offer.id;
  buyer_id = buyer_id;
  amount = amount;
  total_price = total_price;
  credit_id = credit_id;
}

-- The data of the last `offer.update` of `buyCredits`.
abbrev pub fill_offer : ℕ → Bool → Offer → Offer
fill_offer new_filled is_filled o = record o {
  amount_filled = new_filled;
  status = if is_filled then OfferStatus.filled else OfferStatus.active;
}

abbrev pub close_offer : OfferStatus → Offer → Offer
close_offer status o = record o { status = status }

abbrev pub give_credit : String → Credit → Credit
give_credit owner_id c = record c { owner_id = owner_id }

module _ (client : PrismaClient) {C : Type 0} (stellar : Stellar C) where
  unfoldable pub create_offer : ℕ → String → String → CreateOfferDto → Action C Offer
  create_offer now user_id wallet dto = do
    found ← find_unique client credits (credit_by_number dto.credit_id)
    credit ← or_throw found (not_found "Credit not found")
    throw_if (not (str_eq credit.owner_id user_id)) (forbidden "You do not own this credit")
    throw_if (not (is_active_credit credit.status)) (bad_request "Credit is not ACTIVE")
    existing_offer ← find_first client offers (is_open credit.id user_id)
    throw_if (is_some existing_offer)
        (bad_request "You already have an active offer for this credit")
    last_offer ← find_last client offers (λ o. o.offer_id)
    let offer_id = next_offer_id last_offer
    let expires_at = expiry_date dto.expires_at
    throw_if (is_past now expires_at) (bad_request "Expiry must be in the future")
    on_chain_offer_id ← call (
        stellar.create_offer wallet dto.credit_id dto.price_per_tonne dto.amount dto.currency
          expires_at)
    offer ← create client offers (listed_offer dto offer_id credit user_id expires_at)
    emit "marketplace.offer.created" offer_id
    pure offer

  -- `include: { credit: true }` is a look-up by the offer's foreign key.
  unfoldable pub buy_credits : ℕ → String → String → ℕ → ℕ → Action C Trade
  buy_credits now user_id wallet offer_id amount = do
    found ← find_unique client offers (offer_by_number offer_id)
    offer ← or_throw found (not_found "Offer not found")
    included ← find_unique client credits (credit_by_id offer.credit_id)
    credit ← or_throw included (upstream "prisma")
    throw_if (not (is_active_offer offer.status)) (bad_request "Offer is not active")
    throw_if (str_eq offer.seller_id user_id) (bad_request "Cannot buy your own offer")
    throw_if (ltb offer.amount (amount + offer.amount_filled))
        (bad_request "Requested amount exceeds available tonnes")
    when (is_past now offer.expires_at) (do
      update client offers (offer_by_number offer_id) (close_offer OfferStatus.expired)
      throw (bad_request "Offer has expired"))
    let total_price = amount * offer.price_per_tonne
    success ← call (stellar.buy_credits wallet offer_id amount)
    throw_if (not success) (bad_request "On-chain transaction failed")
    call (stellar.transfer_credit wallet offer.seller_id credit.credit_id)
    trade ← create client trades (purchase offer user_id amount total_price credit.id)
    update client credits (credit_by_id credit.id) (give_credit user_id)
    let new_filled = offer.amount_filled + amount
    let is_filled = leb offer.amount new_filled
    update client offers (offer_by_number offer_id) (fill_offer new_filled is_filled)
    emit "marketplace.offer.filled" offer_id
    pure trade

  unfoldable pub cancel_offer : String → ℕ → Action C Offer
  cancel_offer user_id offer_id = do
    found ← find_unique client offers (offer_by_number offer_id)
    offer ← or_throw found (not_found "Offer not found")
    throw_if (not (str_eq offer.seller_id user_id))
        (forbidden "You can only cancel your own offers")
    throw_if (not (is_active_offer offer.status)) (bad_request "Offer is not active")
    call (stellar.cancel_offer user_id offer_id)
    cancelled ← update client offers (offer_by_number offer_id) (close_offer OfferStatus.cancelled)
    emit "marketplace.offer.cancelled" offer_id
    pure cancelled
