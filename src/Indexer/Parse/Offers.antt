-- ===== src/Indexer/Parse/Offers.antt =====
-- The cases of `parseRpcEvent` for the marketplace.
use carbon_veritas.Base.{ℕ, Option, none, some, if◌then◌else◌}
use carbon_veritas.Indexer.Fetch.{RpcEvent}
use carbon_veritas.Indexer.Json.{Json, Conversions, ◌>>=◌, ◌//◌, get, truthy, number_or, text_or}
use carbon_veritas.Indexer.Events.{SyncEvent, offer_created, offer_filled, offer_cancelled}
use carbon_veritas.Indexer.Parse.Common.{hash_of}

module _ (js : Conversions) (ev : RpcEvent Json) where
  -- `v.expires_at ? Number(v.expires_at) : v.expiresAt ? Number(v.expiresAt) : undefined`
  abbrev pub expiry_of : Json → Option (Option ℕ)
  expiry_of v =
      let snake = get v "expires_at" in
      let camel = get v "expiresAt" in
      if truthy snake
      then (number_or js snake >>= λ n. some (some n))
      else if truthy camel
      then (number_or js camel >>= λ n. some (some n))
      else some none

  unfoldable pub parse_offer_created : Json → Option SyncEvent
  parse_offer_created v = do
    offer_id ← number_or js (get v "offer_id" // get v "offerId")
    seller ← text_or js (get v "seller") ""
    credit_id ← number_or js (get v "credit_id" // get v "creditId")
    price_per_tonne ← number_or js (get v "price_per_tonne" // get v "pricePerTonne")
    amount ← number_or js (get v "amount")
    currency ← text_or js (get v "currency") "USDC"
    expires_at ← expiry_of v
    timestamp ← number_or js (get v "timestamp")
    tx_hash ← hash_of js ev v
    some (
        offer_created (record {
          offer_id = offer_id;
          seller = seller;
          credit_id = credit_id;
          price_per_tonne = price_per_tonne;
          amount = amount;
          currency = currency;
          expires_at = expires_at;
          timestamp = timestamp;
          tx_hash = tx_hash;
        }))

  unfoldable pub parse_offer_filled : Json → Option SyncEvent
  parse_offer_filled v = do
    offer_id ← number_or js (get v "offer_id" // get v "offerId")
    buyer ← text_or js (get v "buyer") ""
    amount ← number_or js (get v "amount")
    total_price ← number_or js (get v "total_price" // get v "totalPrice")
    timestamp ← number_or js (get v "timestamp")
    tx_hash ← hash_of js ev v
    some (
        offer_filled (record {
          offer_id = offer_id;
          buyer = buyer;
          amount = amount;
          total_price = total_price;
          timestamp = timestamp;
          tx_hash = tx_hash;
        }))

  unfoldable pub parse_offer_cancelled : Json → Option SyncEvent
  parse_offer_cancelled v = do
    offer_id ← number_or js (get v "offer_id" // get v "offerId")
    timestamp ← number_or js (get v "timestamp")
    tx_hash ← hash_of js ev v
    some
        (offer_cancelled (record { offer_id = offer_id; timestamp = timestamp; tx_hash = tx_hash }))
