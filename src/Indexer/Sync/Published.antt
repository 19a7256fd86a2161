-- ===== src/Indexer/Sync/Published.antt =====
-- From a page of encoded events to what the processors are given.
mod Tests
use carbon_veritas.Base.{
  ◌≡◌, refl, ap, sym, ℕ, ◌+◌, ◌<◌, String, false, str_eq, Option, some, List, [], ◌∷◌, ◌++◌, map,
  length, All,
}
use carbon_veritas.Store.Prisma.{PrismaClient}
use carbon_veritas.Store.Action.{Result}
use carbon_veritas.Indexer.Fetch.{
  SyncCursor, RpcEvent, RpcResponse, result, page_limit, push_parsed, fetch_events,
}
use carbon_veritas.Indexer.Fetch.Progress.{Ordered, last_place, all_parsed, fetch_events_complete}
use carbon_veritas.Indexer.Json.{Json, str, Conversions}
use carbon_veritas.Indexer.Events.{SyncEvent}
use carbon_veritas.Indexer.Parse.{parse_rpc_event}
use carbon_veritas.Indexer.Parse.Encode.{Spelling, encode, Publishable}
use carbon_veritas.Indexer.Parse.RoundTrip.{parse-encode}
use carbon_veritas.Indexer.Sync.{Indexer, process_all, poll}

-- Events, each at its place.
abbrev pub Placed : Type 0
Placed = List (SyncCursor × SyncEvent)

abbrev pub AllPublishable : Placed → Type 0
AllPublishable = All (λ x. Publishable x.0 x.1)

abbrev pub events_of : Placed → List SyncEvent
events_of [] = []
events_of ((place, e) ∷ es) = e ∷ events_of es

abbrev pub published : (ℕ → String) → Spelling → Placed → List (RpcEvent Json)
published show s [] = []
published show s ((place, e) ∷ es) = encode show place s e ∷ published show s es

module _ (js : Conversions) (show : ℕ → String)
    (number_of-show : (n : ℕ) → js.number_of (str (show n)) ≡ some n)
    (show-full : (n : ℕ) → str_eq (show n) "" ≡ false) (s : Spelling) where
  all_parsed-published :
      (es : Placed)
      → AllPublishable es
      → all_parsed (parse_rpc_event js) (published show s es) ≡ events_of es
  all_parsed-published [] h = refl
  all_parsed-published ((place, e) ∷ es) (h, hs) =
      rw (parse-encode js show number_of-show show-full place s e h)
        (ap (λ l. e ∷ l) (all_parsed-published es hs))

  module _ (client : PrismaClient) (date : String → ℕ) {C : Type 0} where
    -- The state after the processors have run on the events.
    abbrev pub processed : List SyncEvent → SyncCursor → Indexer C → Result (Unit {0}) × Indexer C
    processed events cursor ix =
        let (r, world) = process_all client date events ix.world in
        (r, record ix { cursor = cursor; world = world })

    -- If the server answers the first request of a poll with one page, not empty and shorter than
    -- the limit, of events in the form of indexer/test/sync.spec.ts at places that follow the
    -- cursor in strictly ascending order, then the poll runs the processors on exactly these
    -- events in their order, and the cursor is at the start of the ledger after the last one,
    -- whatever the processors return. The conditions on the events and on decimal texts are those
    -- of the round trip.
    pub poll-published :
        (id : String) (ids : List String) (rpc : ℕ → ℕ → RpcResponse Json) (ix : Indexer C)
        (e : SyncCursor × SyncEvent) (es : Placed)
        → AllPublishable (e ∷ es)
        → rpc 0 ix.cursor.ledger_sequence ≡ result (some (published show s (e ∷ es)))
        → length (published show s (e ∷ es)) < page_limit
        → Ordered ix.cursor (published show s (e ∷ es))
        → poll client date (parse_rpc_event js) (id ∷ ids) rpc ix
          ≡ processed
              (events_of (e ∷ es))
              (record {
                ledger_sequence =
                    (last_place ix.cursor (published show s (e ∷ es))).ledger_sequence + 1;
                tx_index = 0;
              })
              ix
    unfolding poll
    poll-published id ids rpc ix e es fine answer short ordered =
        rw
          (
            poll,
            fetch_events_complete (parse_rpc_event js) id ids rpc ix.cursor (encode show e.0 s e.1)
                (published show s es) answer short ordered,
            all_parsed-published (e ∷ es) fine,
          )
          refl
