-- ===== src/Indexer/Parse/Encode.antt =====
-- Events in the form of indexer/test/sync.spec.ts, written down independently of the parser: the
-- topics and the value. The keys of a value are in one of two spellings.
use carbon_veritas.Base.{◌≡◌, ◌≢◌, ℕ, String, true, Option, none, some, List, [], ◌∷◌}
use carbon_veritas.Indexer.Fetch.{RpcEvent, SyncCursor}
use carbon_veritas.Indexer.Json.{Json, Fields, bool, str, obj, end, field}
use carbon_veritas.Indexer.Events.{
  SyncEvent, credit_submitted, credit_approved, credit_minted, credit_rejected, credit_transferred,
  credit_retired, offer_created, offer_filled, offer_cancelled, credit_bridged, credit_bridged_out,
  registry_root_updated,
}

pub data Spelling : Type 0 where
  snake : Spelling
  camel : Spelling

abbrev key : Spelling → String → String → String
key snake a b = a
key camel a b = b

abbrev pub fields : List (String × Json) → Fields
fields [] = end
fields ((k, v) ∷ rest) = field k v (fields rest)

abbrev when_some : {A : Type 0} → String → (A → Json) → Option A → List (String × Json)
when_some k f none = []
when_some k f (some a) = (k, f a) ∷ []

-- The event at a place of the chain.
abbrev publish : SyncCursor → String → List Json → Json → RpcEvent Json
publish place tx_hash topic value = record {
  ledger = some place.ledger_sequence;
  tx_index = some place.tx_index;
  in_successful_contract_call = some true;
  tx_hash = some tx_hash;
  topic = some topic;
  value = some value;
}

-- A `u64` of the contract, as a decimal text.
abbrev u64 : String → Json
u64 n = obj (fields (("u64", obj (fields (("value", str n) ∷ []))) ∷ []))

-- The account of an address.
abbrev account : String → Json
account key =
    let owner = fields (("publicKey", str key) ∷ []) in
    obj (fields (("address", obj (fields (("account", obj owner) ∷ []))) ∷ []))

abbrev bytes : String → Json
bytes hex = obj (fields (("bytes", str hex) ∷ []))

-- `show` writes a number as a decimal text, as the tests do.
module _ (show : ℕ → String) where
  unfoldable pub encode : SyncCursor → Spelling → SyncEvent → RpcEvent Json
  encode place s (credit_submitted e) = publish place e.tx_hash (str "credit_submitted" ∷ []) (
      obj (
        fields (
          (key s "credit_id" "creditId", str (show e.credit_id))
          ∷ ("issuer", str e.issuer)
          ∷ (key s "project_id" "projectId", str e.project_id)
          ∷ ("methodology", str e.methodology)
          ∷ (key s "vintage_start" "vintageStart", str e.vintage_start)
          ∷ (key s "vintage_end" "vintageEnd", str e.vintage_end)
          ∷ ("tonnes", str (show e.tonnes))
          ∷ ("geography", str e.geography)
          ∷ (key s "serial_prefix" "serialPrefix", str e.serial_prefix)
          ∷ (key s "sdg_flags" "sdgFlags", str (show e.sdg_flags))
          ∷ (key s "permanence_rating" "permanenceRating", str (show e.permanence_rating))
          ∷ (
            key s "buffer_contribution_pct" "bufferContributionPct",
            str (show e.buffer_contribution_pct),
          )
          ∷ (key s "additionality_type" "additionalityType", str (show e.additionality_type))
          ∷ (key s "ipfs_hash" "ipfsHash", str e.ipfs_hash)
          ∷ ("timestamp", str (show e.timestamp))
          ∷ [])))
  encode place s (credit_approved e) = publish place e.tx_hash (str "credit_approved" ∷ []) (
      obj (
        fields (
          (key s "credit_id" "creditId", str (show e.credit_id))
          ∷ ("verifier", str e.verifier)
          ∷ ("approved", bool e.approved)
          ∷ ("timestamp", str (show e.timestamp))
          ∷ when_some "comments" str e.comments)))
  encode place s (credit_minted e) = publish place e.tx_hash (str "credit_minted" ∷ []) (
      obj (
        fields (
          (key s "credit_id" "creditId", str (show e.credit_id))
          ∷ (key s "token_id" "tokenId", str e.token_id)
          ∷ ("timestamp", str (show e.timestamp))
          ∷ [])))
  encode place s (credit_rejected e) = publish place e.tx_hash (str "credit_rejected" ∷ []) (
      obj (
        fields (
          (key s "credit_id" "creditId", str (show e.credit_id))
          ∷ ("verifier", str e.verifier)
          ∷ ("reason", str e.reason)
          ∷ ("timestamp", str (show e.timestamp))
          ∷ [])))
  encode place s (credit_transferred e) = publish place e.tx_hash (str "credit_transferred" ∷ []) (
      obj (
        fields (
          (key s "credit_id" "creditId", str (show e.credit_id))
          ∷ ("from", str e.from)
          ∷ ("to", str e.to)
          ∷ ("timestamp", str (show e.timestamp))
          ∷ [])))
  encode place s (credit_retired e) = publish place e.tx_hash (str "credit_retired" ∷ []) (
      obj (
        fields (
          (key s "credit_id" "creditId", str (show e.credit_id))
          ∷ (key s "retired_by" "retiredBy", str e.retired_by)
          ∷ ("beneficiary", str e.beneficiary)
          ∷ ("reason", str e.reason)
          ∷ (key s "accounting_period" "accountingPeriod", str e.accounting_period)
          ∷ (key s "tonnes_retired" "tonnesRetired", str (show e.tonnes_retired))
          ∷ (key s "ledger_sequence" "ledgerSequence", str (show e.ledger_sequence))
          ∷ ("timestamp", str (show e.timestamp))
          ∷ [])))
  encode place s (offer_created e) = publish place e.tx_hash (str "offer_created" ∷ []) (
      obj (
        fields (
          (key s "offer_id" "offerId", str (show e.offer_id))
          ∷ ("seller", str e.seller)
          ∷ (key s "credit_id" "creditId", str (show e.credit_id))
          ∷ (key s "price_per_tonne" "pricePerTonne", str (show e.price_per_tonne))
          ∷ ("amount", str (show e.amount))
          ∷ ("currency", str e.currency)
          ∷ ("timestamp", str (show e.timestamp))
          ∷ when_some (key s "expires_at" "expiresAt") (λ n. str (show n)) e.expires_at)))
  encode place s (offer_filled e) = publish place e.tx_hash (str "offer_filled" ∷ []) (
      obj (
        fields (
          (key s "offer_id" "offerId", str (show e.offer_id))
          ∷ ("buyer", str e.buyer)
          ∷ ("amount", str (show e.amount))
          ∷ (key s "total_price" "totalPrice", str (show e.total_price))
          ∷ ("timestamp", str (show e.timestamp))
          ∷ [])))
  encode place s (offer_cancelled e) = publish place e.tx_hash (str "offer_cancelled" ∷ []) (
      obj (
        fields (
          (key s "offer_id" "offerId", str (show e.offer_id))
          ∷ ("timestamp", str (show e.timestamp))
          ∷ [])))
  encode place s (credit_bridged e) =
      publish place e.tx_hash (str "bridged" ∷ str e.source_registry ∷ str e.source_serial ∷ [])
        (u64 (show e.credit_id))
  encode place s (credit_bridged_out e) =
      publish place e.tx_hash (str "bridge_ot" ∷ u64 (show e.credit_id) ∷ []) (account e.owner)
  encode place s (registry_root_updated e) =
      publish place e.tx_hash (str "root_upd" ∷ str e.registry ∷ []) (bytes e.root)

-- An optional text that is there is not empty, and the ledger is the timestamp of the events that
-- have no other one.
unfoldable pub Publishable : SyncCursor → SyncEvent → Type 0
Publishable place (credit_approved e) = e.comments ≢ some ""
Publishable place (credit_bridged e) = place.ledger_sequence ≡ e.timestamp
Publishable place (credit_bridged_out e) = place.ledger_sequence ≡ e.timestamp
Publishable place (registry_root_updated e) =
    (place.ledger_sequence ≡ e.ledger_sequence) × (place.ledger_sequence ≡ e.timestamp)
Publishable place e = Unit
