-- ===== src/Indexer/Tests.antt =====
-- Runs of the indexer on small inputs, and the theorems about it at concrete inputs.
use carbon_veritas.Base.{
  ℕ, zero, suc, ◌≡◌, refl, inr, true, false, Option, none, some, List, [], ◌∷◌, arith, or_else,
}
use carbon_veritas.Indexer.Fetch.{
  SyncCursor, RpcEvent, RpcResponse, result, thrown, Scan, position, is_covered, scan_event,
  scan_page, fetch_events, fetch_rounds,
}
use carbon_veritas.Indexer.Fetch.Order.{Handed, Served, fetch_rounds-Ascends}
use carbon_veritas.Indexer.Fetch.Progress.{
  AllCovered, fetch_events_complete, same_transaction_dropped, full_page_stalls,
}

abbrev Place : Type 0
Place = Unit {0}

-- A successful event at a place, with no payload.
abbrev at_place : ℕ → ℕ → RpcEvent Place
at_place ledger tx = record {
  ledger = some ledger;
  tx_index = some tx;
  in_successful_contract_call = some true;
  tx_hash = none;
  topic = none;
  value = none;
}

abbrev read_place : RpcEvent Place → Option SyncCursor
read_place ev = elim ev.ledger [
  | none ↦ none
  | some l ↦ some (record { ledger_sequence = l; tx_index = or_else ev.tx_index 0 })
]

abbrev place : ℕ → ℕ → SyncCursor
place l t = record { ledger_sequence = l; tx_index = t }

abbrev two_events : List (RpcEvent Place)
two_events = at_place 7 1 ∷ at_place 7 2 ∷ []

abbrev serve : List (RpcEvent Place) → ℕ → ℕ → RpcResponse Place
serve page n start = result (some page)

two_events_fetched :
    fetch_events read_place ("C" ∷ []) (serve two_events) (place 7 0)
    ≡ some (place 7 1 ∷ place 7 2 ∷ [], place 8 0)
unfolding fetch_events scan_page scan_event
two_events_fetched = refl

fetch_rounds-Ascends_example :
    let rounds = serve two_events ∷ (λ n start. thrown) ∷ [] in
    let (events, last) = fetch_rounds read_place ("C" ∷ []) rounds (place 7 0) in
    Handed read_place (Served rounds) (place 7 0) events last
fetch_rounds-Ascends_example =
    fetch_rounds-Ascends read_place ("C" ∷ []) (serve two_events ∷ (λ n start. thrown) ∷ [])
      (place 7 0)

fetch_events_complete_example :
    fetch_events read_place ("C" ∷ []) (serve two_events) (place 7 0)
    ≡ some (place 7 1 ∷ place 7 2 ∷ [], place 8 0)
unfolding position
fetch_events_complete_example =
    fetch_events_complete read_place "C" [] (serve two_events) (place 7 0) (at_place 7 1)
      (at_place 7 2 ∷ []) refl (omega arith)
      (refl, inr (refl, omega arith), (refl, inr (refl, omega arith), tt))

abbrev no_scan : Scan SyncCursor
no_scan = record { events = []; seen = place 7 0; saw_events = false }

same_transaction_dropped_example :
    scan_event read_place (scan_event read_place no_scan (at_place 7 1)) (at_place 7 1)
    ≡ scan_event read_place no_scan (at_place 7 1)
same_transaction_dropped_example =
    same_transaction_dropped read_place no_scan (at_place 7 1) (at_place 7 1) refl refl refl

abbrev copies : {A : Type 0} → ℕ → A → List A
copies zero a = []
copies (suc n) a = a ∷ copies n a

copies-AllCovered : (n : ℕ) → AllCovered (place 7 3) (copies n (at_place 7 1))
unfolding is_covered position
copies-AllCovered zero = tt
copies-AllCovered (suc n) = (inr refl, copies-AllCovered n)

full_page_stalls_example :
    fetch_events read_place ("C" ∷ []) (serve (copies 100 (at_place 7 1))) (place 7 3)
    ≡ some ([], place 7 3)
full_page_stalls_example =
    full_page_stalls read_place ("C" ∷ []) (serve (copies 100 (at_place 7 1))) (place 7 3)
      (at_place 7 1) (copies 99 (at_place 7 1)) (λ n. refl) (omega arith) (copies-AllCovered 100)
