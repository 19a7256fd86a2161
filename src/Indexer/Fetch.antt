-- ===== src/Indexer/Fetch.antt =====
-- Reading events from the Soroban RPC: `fetchEventPage` and `fetchEvents` of indexer/src/sync.ts.
-- The RPC server is an argument, `rpc`: its answer to the call number `n` of one `fetchEvents`, for
-- a start ledger. The type of parsed events and the parser are parameters.
pub mod Places
pub mod Order
pub mod Progress
use carbon_veritas.Base.{
  ℕ, zero, suc, ◌+◌, ◌-◌, String, Bool, true, false, ◌&&◌, ◌||◌, Option, none, some, List, [], ◌∷◌,
  ◌++◌, ltb, leb, ◌==◌, or_else, if◌then◌else◌, length,
}

abbrev pub page_limit : ℕ
page_limit = 100

abbrev pub max_pages : ℕ
max_pages = 50

pub record SyncCursor : Type 0 where
  pub ledger_sequence : ℕ
  pub tx_index : ℕ

-- `V` is the type of the JSON values under `topic` and `value`.
pub record RpcEvent (V : Type 0) : Type 0 where
  pub ledger : Option ℕ
  pub tx_index : Option ℕ
  pub in_successful_contract_call : Option Bool
  pub tx_hash : Option String
  pub topic : Option (List V)
  pub value : Option V

-- What `fetch` and `response.json()` give: an exception, a status that is not ok, an error object,
-- or `result.result?.events`.
pub data RpcResponse (V : Type 0) : Type 0 where
  thrown : RpcResponse V
  http_error : ℕ → RpcResponse V
  rpc_error : RpcResponse V
  result : Option (List (RpcEvent V)) → RpcResponse V

-- `none` is an exception, which passes through `fetchEvents`.
unfoldable pub fetch_event_page : {V : Type 0} → RpcResponse V → Option (List (RpcEvent V))
fetch_event_page thrown = none
fetch_event_page (http_error _) = some []
fetch_event_page rpc_error = some []
fetch_event_page (result events) = some (or_else events [])

-- `evLedger < seen.ledgerSequence || (evLedger === seen.ledgerSequence && evTxIndex <= seen.txIndex)`
unfoldable pub is_covered : SyncCursor → SyncCursor → Bool
is_covered seen ev =
    ltb ev.ledger_sequence seen.ledger_sequence
    || ev.ledger_sequence == seen.ledger_sequence && leb ev.tx_index seen.tx_index

-- `evLedger > seen.ledgerSequence || (evLedger === seen.ledgerSequence && evTxIndex > seen.txIndex)`
unfoldable pub is_ahead : SyncCursor → SyncCursor → Bool
is_ahead seen ev =
    ltb seen.ledger_sequence ev.ledger_sequence
    || ev.ledger_sequence == seen.ledger_sequence && ltb seen.tx_index ev.tx_index

-- `evLedger` and `evTxIndex`
unfoldable pub position : {V : Type 0} → SyncCursor → RpcEvent V → SyncCursor
position seen ev = record {
  ledger_sequence = or_else ev.ledger seen.ledger_sequence;
  tx_index = or_else ev.tx_index 0;
}

abbrev pub is_failed : Option Bool → Bool
is_failed (some false) = true
is_failed _ = false

-- The variables of `fetchEvents` that its loops change.
pub record Scan (E : Type 0) : Type 0 where
  pub events : List E
  pub seen : SyncCursor
  pub saw_events : Bool

-- `if (parsed) events.push(parsed)`
abbrev pub push_parsed : {E : Type 0} → List E → Option E → List E
push_parsed events none = events
push_parsed events (some e) = events ++ e ∷ []

module _ {V E : Type 0} (parse : RpcEvent V → Option E) where
  -- One round of `for (const rpcEvent of page)`.
  unfoldable pub scan_event : Scan E → RpcEvent V → Scan E
  unfolding is_covered is_ahead position
  scan_event s ev =
      let at = position s.seen ev in
      if is_failed ev.in_successful_contract_call
      then s
      else (if is_covered s.seen at then s else (record {
        events = push_parsed s.events (parse ev);
        seen = if is_ahead s.seen at then at else s.seen;
        saw_events = true;
      }))

  unfoldable pub scan_page : Scan E → List (RpcEvent V) → Scan E
  scan_page s [] = s
  scan_page s (ev ∷ page) = scan_page (scan_event s ev) page

  -- The outer loop, with `left` pages to go; the result's flag is `drained`.
  unfoldable pub scan_pages : (ℕ → ℕ → RpcResponse V) → ℕ → ℕ → Scan E → Option (Scan E × Bool)
  unfolding fetch_event_page
  scan_pages rpc zero start s = some (s, false)
  scan_pages rpc (suc left) start s = elim (fetch_event_page (rpc (max_pages - suc left) start)) [
    | none ↦ none
    | some [] ↦ some (s, true)
    | some (ev ∷ page) ↦
        let s' = scan_page s (ev ∷ page) in
        let more = scan_pages rpc left s'.seen.ledger_sequence s' in
        if ltb (length (ev ∷ page)) page_limit then some (s', true) else more
  ]

  -- The cursor that `fetchEvents` leaves.
  unfoldable pub settle : SyncCursor → Scan E × Bool → SyncCursor
  unfolding is_ahead
  settle cursor (s, drained) =
      if drained && s.saw_events
      then (record { ledger_sequence = s.seen.ledger_sequence + 1; tx_index = 0 })
      else (if is_ahead cursor s.seen then s.seen else cursor)

  -- The events and the new cursor; `none` is an exception, which leaves the cursor as it is.
  unfoldable pub fetch_events :
      List String → (ℕ → ℕ → RpcResponse V) → SyncCursor → Option (List E × SyncCursor)
  unfolding scan_pages settle
  fetch_events [] rpc cursor = some ([], cursor)
  fetch_events (_ ∷ _) rpc cursor =
      elim (scan_pages rpc max_pages cursor.ledger_sequence
        (record { events = []; seen = cursor; saw_events = false })) [
          | none ↦ none
          | some (s, drained) ↦ some (s.events, settle cursor (s, drained))
        ]

  -- What the rounds of `start` hand on, one answering server for each: after an exception the
  -- next round begins at the same cursor.
  unfoldable pub fetch_rounds :
      List String → List (ℕ → ℕ → RpcResponse V) → SyncCursor → List E × SyncCursor
  fetch_rounds ids [] cursor = ([], cursor)
  fetch_rounds ids (rpc ∷ rounds) cursor =
      let (events, cursor') = or_else (fetch_events ids rpc cursor) ([], cursor) in
      let (later, last) = fetch_rounds ids rounds cursor' in (events ++ later, last)
