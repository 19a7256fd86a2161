-- ===== src/Indexer/Sync/Tests.antt =====
-- The theorems about the processing of events at concrete inputs.
use carbon_veritas.Base.{ℕ, ◌≡◌, refl, String, false, Option, none, some, [], ◌∷◌}
use carbon_veritas.Store.Action.{err, record_missing}
use carbon_veritas.Store.References.{RefsResolve}
use carbon_veritas.Store.ListClient.{list_client}
use carbon_veritas.Store.Samples.{sample_db, sample_world}
use carbon_veritas.Indexer.Fetch.{
  RpcEvent, RpcResponse, result, fetch_events, scan_page, scan_event,
}
use carbon_veritas.Indexer.Events.{
  SyncEvent, CreditSubmittedEvent, CreditMintedEvent, CreditRetiredEvent, CreditRejectedEvent,
  OfferFilledEvent, credit_minted, credit_retired, offer_filled,
}
use carbon_veritas.Indexer.Sync.{Indexer, process_all, poll}
use carbon_veritas.Indexer.Sync.Batch.{poll_loses_rest}
use carbon_veritas.Indexer.Sync.Integrity.{process_all-RefsResolve}

abbrev no_date : String → ℕ
no_date s = 0

abbrev sale : OfferFilledEvent
sale = record {
  offer_id = 1;
  buyer = "GCY";
  amount = 70;
  total_price = 840;
  timestamp = 5;
  tx_hash = "t1";
}

abbrev retirement_event : CreditRetiredEvent
retirement_event = record {
  credit_id = 1;
  retired_by = "GANN";
  beneficiary = "Acme";
  reason = "offset";
  accounting_period = "2024";
  tonnes_retired = 100;
  tx_hash = "t2";
  ledger_sequence = 9;
  timestamp = 5;
}

abbrev unknown_mint : CreditMintedEvent
unknown_mint = record { credit_id = 9; token_id = "t"; timestamp = 5; tx_hash = "t3" }

abbrev known_mint : CreditMintedEvent
known_mint = record unknown_mint { credit_id = 2 }

abbrev refusal : CreditRejectedEvent
refusal = record { credit_id = 2; verifier = "GBOB"; reason = "no"; timestamp = 5; tx_hash = "t4" }

abbrev submission : CreditSubmittedEvent
submission = record {
  credit_id = 3;
  issuer = "GCY";
  project_id = "WIND";
  methodology = "ACM";
  vintage_start = "2024";
  vintage_end = "2025";
  tonnes = 5;
  geography = "IN";
  serial_prefix = "W";
  sdg_flags = 0;
  permanence_rating = 0;
  buffer_contribution_pct = 0;
  additionality_type = 0;
  ipfs_hash = "";
  timestamp = 5;
  tx_hash = "t5";
}

sample-RefsResolve : RefsResolve sample_db
sample-RefsResolve = record {
  credits = ((refl, refl), ((refl, refl), tt));
  approvals = tt;
  offers = ((refl, refl), tt);
  trades = tt;
  retirements = tt;
}

process_all-RefsResolve_example :
    RefsResolve
      (process_all list_client no_date
        (offer_filled sale ∷ credit_minted unknown_mint ∷ [])
        sample_world).1.db
process_all-RefsResolve_example =
    process_all-RefsResolve list_client no_date
      (offer_filled sale ∷ credit_minted unknown_mint ∷ []) sample_world sample-RefsResolve

-- Events that carry their parsed form.
abbrev parse_any : RpcEvent SyncEvent → Option SyncEvent
parse_any ev = ev.value

abbrev chain_event : ℕ → SyncEvent → RpcEvent SyncEvent
chain_event tx e = record {
  ledger = some 7;
  tx_index = some tx;
  in_successful_contract_call = none;
  tx_hash = none;
  topic = none;
  value = some e;
}

abbrev stopped : Indexer (Unit {0})
stopped = record {
  cursor = record { ledger_sequence = 7; tx_index = 0 };
  running = false;
  world = sample_world;
}

abbrev answer : ℕ → ℕ → RpcResponse SyncEvent
answer n start = result (
    some (
      chain_event 1 (credit_minted unknown_mint)
      ∷ chain_event 2 (credit_retired retirement_event)
      ∷ []))

poll_loses_rest_example : poll list_client no_date parse_any ("C" ∷ []) answer stopped ≡ (
  err record_missing,
  record stopped { cursor = record { ledger_sequence = 8; tx_index = 0 }; world = sample_world },
)
unfolding fetch_events scan_page scan_event process_all
poll_loses_rest_example =
    poll_loses_rest list_client no_date parse_any ("C" ∷ []) answer stopped
      (record { ledger_sequence = 8; tx_index = 0 }) [] (credit_retired retirement_event ∷ [])
      unknown_mint sample_world refl refl refl
