-- ===== src/Indexer/Parse/Bridge.antt =====
-- The cases of `parseRpcEvent` for the bridge and the registry roots.
use carbon_veritas.Base.{Option, some, List, or_else}
use carbon_veritas.Indexer.Fetch.{RpcEvent}
use carbon_veritas.Indexer.Json.{
  Json, Conversions, ◌>>=◌, text_or, to_number, to_string_value, to_hex_value,
}
use carbon_veritas.Indexer.Events.{
  SyncEvent, credit_bridged, credit_bridged_out, registry_root_updated,
}
use carbon_veritas.Indexer.Parse.Common.{topic_at, ledger_number}

module _ (js : Conversions) (ev : RpcEvent Json) where
  unfoldable pub parse_bridged : List Json → Json → Option SyncEvent
  parse_bridged topic value = do
    credit_id ← to_number js (some value)
    source_registry ← text_or js (topic_at 1 topic) ""
    source_serial ← text_or js (topic_at 2 topic) ""
    some (
        credit_bridged (record {
          credit_id = credit_id;
          source_registry = source_registry;
          source_serial = source_serial;
          tx_hash = or_else ev.tx_hash "";
          timestamp = ledger_number ev;
        }))

  unfoldable pub parse_bridged_out : List Json → Json → Option SyncEvent
  parse_bridged_out topic value = do
    credit_id ← to_number js (topic_at 1 topic)
    owner ← to_string_value js (some value)
    some (
        credit_bridged_out (record {
          credit_id = credit_id;
          owner = owner;
          tx_hash = or_else ev.tx_hash "";
          timestamp = ledger_number ev;
        }))

  unfoldable pub parse_root_updated : List Json → Json → Option SyncEvent
  parse_root_updated topic value = do
    registry ← text_or js (topic_at 1 topic) ""
    root ← to_hex_value js (some value)
    some (
        registry_root_updated (record {
          registry = registry;
          root = root;
          ledger_sequence = ledger_number ev;
          tx_hash = or_else ev.tx_hash "";
          timestamp = ledger_number ev;
        }))
