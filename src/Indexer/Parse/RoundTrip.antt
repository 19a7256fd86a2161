-- ===== src/Indexer/Parse/RoundTrip.antt =====
-- An encoded event is read back.
use carbon_veritas.Base.{
  ◌≡◌, ◌≢◌, refl, Bool, String, ℕ, true, false, Option, none, some, Bool-cases, inl, inr, eq_iff,
  str_eq, ap,
}
use carbon_veritas.Indexer.Json.{
  Conversions, str, find_field, get, truthy, number, text, number_or, text_or, to_number,
  to_string_value, to_hex_value,
}
use carbon_veritas.Indexer.Fetch.{SyncCursor}
use carbon_veritas.Indexer.Events.{
  SyncEvent, credit_submitted, credit_approved, credit_minted, credit_rejected, credit_transferred,
  credit_retired, offer_created, offer_filled, offer_cancelled, credit_bridged, credit_bridged_out,
  registry_root_updated, CreditSubmittedEvent, CreditMintedEvent, CreditTransferredEvent,
  CreditRejectedEvent, CreditRetiredEvent, OfferFilledEvent, OfferCancelledEvent,
  CreditBridgedEvent, CreditBridgedOutEvent, RegistryRootUpdatedEvent,
}
use carbon_veritas.Indexer.Parse.{parse_rpc_event, parse_value}
use carbon_veritas.Indexer.Parse.Common.{is_true}
use carbon_veritas.Indexer.Parse.Bridge.{parse_bridged, parse_bridged_out, parse_root_updated}
use carbon_veritas.Indexer.Parse.Credits.{
  parse_submitted, parse_approved, parse_minted, parse_rejected, parse_transferred, parse_retired,
}
use carbon_veritas.Indexer.Parse.Offers.{
  parse_offer_created, parse_offer_filled, parse_offer_cancelled,
}
use carbon_veritas.Indexer.Parse.Encode.{Spelling, snake, camel, encode, Publishable}

not_empty : (s : String) → some s ≢ some "" → truthy (some (str s)) ≡ true
unfolding truthy
not_empty s h = elim (Bool-cases (str_eq s "")) [
  | inl empty ↦ elim (h (ap some ((eq_iff _ _).0 empty))) [ ]
  | inr full ↦ rw full refl
]

module _ (js : Conversions) (show : ℕ → String)
    (number_of-show : (n : ℕ) → js.number_of (str (show n)) ≡ some n)
    (show-full : (n : ℕ) → str_eq (show n) "" ≡ false) (place : SyncCursor) where
  abbrev ReadBack : Spelling → SyncEvent → Type 0
  ReadBack s e = parse_rpc_event js (encode show place s e) ≡ some e

  submitted-ReadBack : (s : Spelling) (e : CreditSubmittedEvent) → ReadBack s (credit_submitted e)
  unfolding parse_rpc_event parse_value truthy parse_submitted encode get find_field number_or
      number text_or text
  submitted-ReadBack snake e =
      rw
        (
          number_of-show e.credit_id,
          number_of-show e.tonnes,
          number_of-show e.sdg_flags,
          number_of-show e.permanence_rating,
          number_of-show e.buffer_contribution_pct,
          number_of-show e.additionality_type,
          number_of-show e.timestamp,
        )
        refl
  submitted-ReadBack camel e =
      rw
        (
          number_of-show e.credit_id,
          number_of-show e.tonnes,
          number_of-show e.sdg_flags,
          number_of-show e.permanence_rating,
          number_of-show e.buffer_contribution_pct,
          number_of-show e.additionality_type,
          number_of-show e.timestamp,
        )
        refl

  minted-ReadBack : (s : Spelling) (e : CreditMintedEvent) → ReadBack s (credit_minted e)
  unfolding parse_rpc_event parse_value truthy parse_minted encode get find_field number_or number
      text_or text
  minted-ReadBack snake e = rw (number_of-show e.credit_id, number_of-show e.timestamp) refl
  minted-ReadBack camel e = rw (number_of-show e.credit_id, number_of-show e.timestamp) refl

  rejected-ReadBack : (s : Spelling) (e : CreditRejectedEvent) → ReadBack s (credit_rejected e)
  unfolding parse_rpc_event parse_value truthy parse_rejected encode get find_field number_or number
      text_or text
  rejected-ReadBack snake e = rw (number_of-show e.credit_id, number_of-show e.timestamp) refl
  rejected-ReadBack camel e = rw (number_of-show e.credit_id, number_of-show e.timestamp) refl

  transferred-ReadBack :
      (s : Spelling) (e : CreditTransferredEvent) → ReadBack s (credit_transferred e)
  unfolding parse_rpc_event parse_value truthy parse_transferred encode get find_field number_or
      number text_or text
  transferred-ReadBack snake e = rw (number_of-show e.credit_id, number_of-show e.timestamp) refl
  transferred-ReadBack camel e = rw (number_of-show e.credit_id, number_of-show e.timestamp) refl

  retired-ReadBack : (s : Spelling) (e : CreditRetiredEvent) → ReadBack s (credit_retired e)
  unfolding parse_rpc_event parse_value truthy parse_retired encode get find_field number_or number
      text_or text
  retired-ReadBack snake e =
      rw
        (
          number_of-show e.credit_id,
          number_of-show e.tonnes_retired,
          number_of-show e.ledger_sequence,
          number_of-show e.timestamp,
        )
        refl
  retired-ReadBack camel e =
      rw
        (
          number_of-show e.credit_id,
          number_of-show e.tonnes_retired,
          number_of-show e.ledger_sequence,
          number_of-show e.timestamp,
        )
        refl

  filled-ReadBack : (s : Spelling) (e : OfferFilledEvent) → ReadBack s (offer_filled e)
  unfolding parse_rpc_event parse_value truthy parse_offer_filled encode get find_field number_or
      number text_or text
  filled-ReadBack snake e =
      rw
        (
          number_of-show e.offer_id,
          number_of-show e.amount,
          number_of-show e.total_price,
          number_of-show e.timestamp,
        )
        refl
  filled-ReadBack camel e =
      rw
        (
          number_of-show e.offer_id,
          number_of-show e.amount,
          number_of-show e.total_price,
          number_of-show e.timestamp,
        )
        refl

  cancelled-ReadBack : (s : Spelling) (e : OfferCancelledEvent) → ReadBack s (offer_cancelled e)
  unfolding parse_rpc_event parse_value truthy parse_offer_cancelled encode get find_field number_or
      number text_or text
  cancelled-ReadBack snake e = rw (number_of-show e.offer_id, number_of-show e.timestamp) refl
  cancelled-ReadBack camel e = rw (number_of-show e.offer_id, number_of-show e.timestamp) refl

  bridged-ReadBack :
      (s : Spelling) (e : CreditBridgedEvent)
      → Publishable place (credit_bridged e)
      → ReadBack s (credit_bridged e)
  unfolding parse_rpc_event parse_value truthy parse_bridged encode get find_field number_or number
      text_or text to_number Publishable
  bridged-ReadBack s e h = rw (h, number_of-show e.credit_id) refl

  bridged_out-ReadBack :
      (s : Spelling) (e : CreditBridgedOutEvent)
      → Publishable place (credit_bridged_out e)
      → ReadBack s (credit_bridged_out e)
  unfolding parse_rpc_event parse_value truthy parse_bridged_out encode get find_field number_or
      number text_or text to_number to_string_value Publishable
  bridged_out-ReadBack s e h = rw (h, number_of-show e.credit_id) refl

  root-ReadBack :
      (s : Spelling) (e : RegistryRootUpdatedEvent)
      → Publishable place (registry_root_updated e)
      → ReadBack s (registry_root_updated e)
  unfolding parse_rpc_event parse_value truthy parse_root_updated encode get find_field number_or
      number text_or text to_hex_value Publishable
  root-ReadBack s e (h, k) = rw (← h, ← k) refl

  approved-ReadBack :
      (s : Spelling) (n : ℕ) (verifier : String) (approved : Bool) (comments : Option String)
      (timestamp : ℕ) (tx_hash : String)
      → comments ≢ some ""
      → ReadBack s (
          credit_approved (record {
            credit_id = n;
            verifier = verifier;
            approved = approved;
            comments = comments;
            timestamp = timestamp;
            tx_hash = tx_hash;
          }))
  unfolding parse_rpc_event parse_value truthy parse_approved encode get find_field number_or number
      text_or text is_true
  approved-ReadBack snake n verifier approved none timestamp tx_hash h =
      rw (number_of-show n, number_of-show timestamp) refl
  approved-ReadBack camel n verifier approved none timestamp tx_hash h =
      rw (number_of-show n, number_of-show timestamp) refl
  approved-ReadBack snake n verifier approved (some c) timestamp tx_hash h =
      rw (number_of-show n, number_of-show timestamp, not_empty c h) refl
  approved-ReadBack camel n verifier approved (some c) timestamp tx_hash h =
      rw (number_of-show n, number_of-show timestamp, not_empty c h) refl

  offer-ReadBack :
      (s : Spelling) (n : ℕ) (seller : String) (credit_id price amount : ℕ) (currency : String)
      (expires_at : Option ℕ) (timestamp : ℕ) (tx_hash : String)
      → ReadBack s (
          offer_created (record {
            offer_id = n;
            seller = seller;
            credit_id = credit_id;
            price_per_tonne = price;
            amount = amount;
            currency = currency;
            expires_at = expires_at;
            timestamp = timestamp;
            tx_hash = tx_hash;
          }))
  unfolding parse_rpc_event parse_value truthy parse_offer_created encode get find_field number_or
      number text_or text
  offer-ReadBack snake n seller credit_id price amount currency none timestamp tx_hash =
      rw
        (
          number_of-show n,
          number_of-show credit_id,
          number_of-show price,
          number_of-show amount,
          number_of-show timestamp,
        )
        refl
  offer-ReadBack camel n seller credit_id price amount currency none timestamp tx_hash =
      rw
        (
          number_of-show n,
          number_of-show credit_id,
          number_of-show price,
          number_of-show amount,
          number_of-show timestamp,
        )
        refl
  offer-ReadBack snake n seller credit_id price amount currency (some x) timestamp tx_hash =
      rw
        (
          number_of-show n,
          number_of-show credit_id,
          number_of-show price,
          number_of-show amount,
          number_of-show timestamp,
          number_of-show x,
          show-full x,
        )
        refl
  offer-ReadBack camel n seller credit_id price amount currency (some x) timestamp tx_hash =
      rw
        (
          number_of-show n,
          number_of-show credit_id,
          number_of-show price,
          number_of-show amount,
          number_of-show timestamp,
          number_of-show x,
          show-full x,
        )
        refl

  -- An event in the form of indexer/test/sync.spec.ts, with its numbers as decimal texts, at any
  -- ledger and transaction index, of any of the twelve types and with the keys in snake or in
  -- camel case, is read back by `parseRpcEvent` as the event that it was, provided that the
  -- comments of an approval are not empty where they are given, and that the ledger is the
  -- timestamp of the three types of events that carry no time of their own. It is assumed that
  -- `Number` reads a decimal text as its number and that such a text is not empty.
  pub parse-encode :
      (s : Spelling) (e : SyncEvent)
      → Publishable place e
      → parse_rpc_event js (encode show place s e) ≡ some e
  unfolding Publishable
  parse-encode s (credit_submitted e) h = submitted-ReadBack s e
  parse-encode s (credit_approved e) h =
      approved-ReadBack s e.credit_id e.verifier e.approved e.comments e.timestamp e.tx_hash h
  parse-encode s (credit_minted e) h = minted-ReadBack s e
  parse-encode s (credit_rejected e) h = rejected-ReadBack s e
  parse-encode s (credit_transferred e) h = transferred-ReadBack s e
  parse-encode s (credit_retired e) h = retired-ReadBack s e
  parse-encode s (offer_created e) h =
      offer-ReadBack s e.offer_id e.seller e.credit_id e.price_per_tonne e.amount e.currency
        e.expires_at e.timestamp e.tx_hash
  parse-encode s (offer_filled e) h = filled-ReadBack s e
  parse-encode s (offer_cancelled e) h = cancelled-ReadBack s e
  parse-encode s (credit_bridged e) h = bridged-ReadBack s e h
  parse-encode s (credit_bridged_out e) h = bridged_out-ReadBack s e h
  parse-encode s (registry_root_updated e) h = root-ReadBack s e h
