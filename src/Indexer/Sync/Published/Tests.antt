-- ===== src/Indexer/Sync/Published/Tests.antt =====
-- A page with two encoded events, and one with an event of a contract.
use carbon_veritas.Base.{◌≡◌, refl, inl, ℕ, some, [], ◌∷◌, arith, true, none}
use carbon_veritas.Store.ListClient.{list_client}
use carbon_veritas.Api.Samples.{no_date}
use carbon_veritas.Store.Samples.{sample_world}
use carbon_veritas.Indexer.Fetch.{RpcEvent, RpcResponse, result, position}
use carbon_veritas.Indexer.Json.{Json, str, num, Conversions}
use carbon_veritas.Indexer.Events.{SyncEvent, credit_minted, offer_cancelled}
use carbon_veritas.Indexer.Parse.{parse_rpc_event}
use carbon_veritas.Indexer.Parse.Encode.{snake, encode, Publishable}
use carbon_veritas.Store.Action.{ok}
use carbon_veritas.Indexer.Sync.Topics.{retire, poll-OfContracts}
use carbon_veritas.Indexer.Sync.{Indexer, poll}
use carbon_veritas.Indexer.Parse.Tests.{tally, tallies, read_tally-tally, tally-full}
use carbon_veritas.Indexer.Sync.Published.{Placed, published, processed, poll-published}

abbrev no_conversions : Conversions
no_conversions = record { number_of = λ j. none; string_of = λ j. none }

abbrev new_mint : SyncEvent
new_mint = credit_minted (record { credit_id = 2; token_id = "t"; timestamp = 7; tx_hash = "h" })

abbrev cancelled : SyncEvent
cancelled = offer_cancelled (record { offer_id = 1; timestamp = 8; tx_hash = "h" })

-- The ledgers are not the times of the events.
abbrev events : Placed
events =
    (record { ledger_sequence = 6; tx_index = 2 }, new_mint)
    ∷ (record { ledger_sequence = 8; tx_index = 0 }, cancelled)
    ∷ []

abbrev serve : ℕ → ℕ → RpcResponse Json
serve n start = result (some (published tally snake events))

abbrev at_start : Indexer (Unit {0})
at_start = record {
  cursor = record { ledger_sequence = 5; tx_index = 0 };
  running = true;
  world = sample_world;
}

poll-published_example :
    poll list_client no_date (parse_rpc_event tallies) ("contract" ∷ []) serve at_start
    ≡ processed tallies tally read_tally-tally tally-full snake list_client no_date
        (new_mint ∷ cancelled ∷ [])
        (record { ledger_sequence = 9; tx_index = 0 })
        at_start
unfolding Publishable encode position
poll-published_example =
    poll-published tallies tally read_tally-tally tally-full snake list_client no_date "contract" []
      serve at_start (record { ledger_sequence = 6; tx_index = 2 }, new_mint)
      ((record { ledger_sequence = 8; tx_index = 0 }, cancelled) ∷ []) (tt, (tt, tt)) refl
      (omega arith) ((refl, inl (omega arith), (refl, inl (omega arith), tt)))

-- The retirement of a credit as the contract publishes it.
abbrev retirement : RpcEvent Json
retirement = record {
  ledger = some 7;
  tx_index = some 0;
  in_successful_contract_call = some true;
  tx_hash = some "h";
  topic = some (str "retire" ∷ str "retired" ∷ []);
  value = some (num 1);
}

abbrev serve_retirement : ℕ → ℕ → RpcResponse Json
serve_retirement n start = result (some (retirement ∷ []))

poll-OfContracts_example :
    poll list_client no_date
      (parse_rpc_event no_conversions)
      ("contract" ∷ [])
      serve_retirement
      at_start
    ≡ (ok tt, record at_start { cursor = record { ledger_sequence = 8; tx_index = 0 } })
unfolding position
poll-OfContracts_example =
    poll-OfContracts no_conversions list_client no_date "contract" [] serve_retirement at_start
      retirement [] (("retire", (str "retired" ∷ []), retire, refl), tt) refl (omega arith)
      (refl, inl (omega arith), tt)
