-- ===== src/Indexer/Parse.antt =====
-- `parseRpcEvent` of indexer/src/sync.ts: the event of a response of the RPC, read by its topic.
pub mod Common
pub mod Bridge
pub mod Credits
pub mod Offers
pub mod Encode
pub mod RoundTrip
pub mod Tests
use carbon_veritas.Base.{
  ℕ, zero, suc, String, Bool, true, false, ◌||◌, Option, none, some, List, [], ◌∷◌, or_else, str_eq,
  if◌then◌else◌,
}
use carbon_veritas.Indexer.Fetch.{RpcEvent}
use carbon_veritas.Indexer.Json.{
  Json, bool, num, str, Conversions, ◌>>=◌, ◌//◌, get, truthy, number, text, number_or, text_or,
  to_number, to_string_value, to_hex_value,
}
use carbon_veritas.Indexer.Events.{
  SyncEvent, credit_submitted, credit_approved, credit_minted, credit_rejected, credit_transferred,
  credit_retired, offer_created, offer_filled, offer_cancelled, credit_bridged, credit_bridged_out,
  registry_root_updated,
}
use carbon_veritas.Indexer.Parse.Common.{topic_at, topic_name, is_true, ledger_number, hash_of}
use carbon_veritas.Indexer.Parse.Bridge.{parse_bridged, parse_bridged_out, parse_root_updated}
use carbon_veritas.Indexer.Parse.Credits.{
  parse_submitted, parse_approved, parse_minted, parse_rejected, parse_transferred, parse_retired,
}
use carbon_veritas.Indexer.Parse.Offers.{
  parse_offer_created, parse_offer_filled, parse_offer_cancelled,
}

module _ (js : Conversions) (ev : RpcEvent Json) where
  -- The `switch` on the first topic.
  unfoldable pub parse_value : List Json → Json → Option SyncEvent
  parse_value topic v =
      let name = topic_name topic in
      if str_eq name "bridged"
      then parse_bridged js ev topic v
      else if str_eq name "bridge_ot"
      then parse_bridged_out js ev topic v
      else if str_eq name "root_upd"
      then parse_root_updated js ev topic v
      else if str_eq name "credit_submitted"
      then parse_submitted js ev v
      else if str_eq name "credit_approved"
      then parse_approved js ev v
      else if str_eq name "credit_minted"
      then parse_minted js ev v
      else if str_eq name "credit_rejected"
      then parse_rejected js ev v
      else if str_eq name "credit_transferred"
      then parse_transferred js ev v
      else if str_eq name "credit_retired"
      then parse_retired js ev v
      else if str_eq name "offer_created"
      then parse_offer_created js ev v
      else if str_eq name "offer_filled"
      then parse_offer_filled js ev v
      else if str_eq name "offer_cancelled"
      then parse_offer_cancelled js ev v
      else none

-- `if (!value) return null`, then the `switch`
unfoldable pub parse_rpc_event : Conversions → RpcEvent Json → Option SyncEvent
parse_rpc_event js ev = elim ev.value [
  | none ↦ none
  | some v ↦ if truthy (some v) then parse_value js ev (or_else ev.topic []) v else none
]
