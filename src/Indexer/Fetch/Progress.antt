-- ===== src/Indexer/Fetch/Progress.antt =====
-- What `fetchEvents` hands on of the pages that it is given, and where it stops.
use carbon_veritas.Base.{
  ℕ, zero, suc, ◌+◌, ◌-◌, ◌≤◌, ◌<◌, ◌≡◌, refl, ◌⊎◌, inl, inr, String, true, false, Option, some,
  List, [], ◌∷◌, ◌++◌, arith, length, Bool-cases, or_else, lt→ltb,
}
use mathlib.Core.List.{append-nil, append_assoc}
use carbon_veritas.Indexer.Fetch.{
  is_failed, SyncCursor, RpcEvent, RpcResponse, result, Scan, page_limit, max_pages, position,
  is_covered, push_parsed, scan_event, scan_page, scan_pages, settle, fetch_events,
}
use carbon_veritas.Indexer.Fetch.Places.{Before, is_ahead_iff, not_covered-Before}
use carbon_veritas.Indexer.Fetch.Order.{push_parsed_lem}

Before-not_covered : (a b : SyncCursor) → Before a b → is_covered a b ≡ false
unfolding is_covered
Before-not_covered a b h = ground arith

module _ {V : Type 0} where
  -- Every event of a page is from a successful call and lies strictly after the one before it.
  abbrev pub Ordered : SyncCursor → List (RpcEvent V) → Type 0
  Ordered lo [] = Unit
  Ordered lo (ev ∷ page) =
      (is_failed ev.in_successful_contract_call ≡ false)
      × Before lo (position lo ev)
      × Ordered (position lo ev) page

  abbrev pub last_place : SyncCursor → List (RpcEvent V) → SyncCursor
  last_place lo [] = lo
  last_place lo (ev ∷ page) = last_place (position lo ev) page

  -- Every event of a page is from a failed call, or lies at or before the place.
  abbrev pub AllCovered : SyncCursor → List (RpcEvent V) → Type 0
  AllCovered lo [] = Unit
  AllCovered lo (ev ∷ page) =
      ((is_failed ev.in_successful_contract_call ≡ true) ⊎ (is_covered lo (position lo ev) ≡ true))
      × AllCovered lo page

module _ {V : Type 0} where
  position-covers :
      (seen : SyncCursor) (first second : RpcEvent V)
      → first.ledger ≡ second.ledger
      → or_else first.tx_index 0 ≡ or_else second.tx_index 0
      → is_covered (position seen first) (position (position seen first) second) ≡ true
  unfolding is_covered position
  position-covers seen first second same_ledger same_tx =
      rw (← same_ledger, ← same_tx) (ground arith)

module _ {V E : Type 0} (parse : RpcEvent V → Option E) where
  -- All that the parser accepts of a page.
  abbrev pub all_parsed : List (RpcEvent V) → List E
  all_parsed [] = []
  all_parsed (ev ∷ page) = push_parsed [] (parse ev) ++ all_parsed page

  scan_event_ordered :
      (s : Scan E) (ev : RpcEvent V)
      → is_failed ev.in_successful_contract_call ≡ false
      → Before s.seen (position s.seen ev)
      → scan_event parse s ev ≡ record {
        events = s.events ++ push_parsed [] (parse ev);
        seen = position s.seen ev;
        saw_events = true;
      }
  unfolding scan_event
  scan_event_ordered s ev ok b = rw (
    ok,
    Before-not_covered _ _ b,
    (is_ahead_iff _ _).1 b,
    push_parsed_lem parse s.events (parse ev),
  )

  scan_page-Ordered :
      (s : Scan E) (ev : RpcEvent V) (page : List (RpcEvent V))
      → Ordered s.seen (ev ∷ page)
      → scan_page parse s (ev ∷ page) ≡ record {
        events = s.events ++ all_parsed (ev ∷ page);
        seen = last_place s.seen (ev ∷ page);
        saw_events = true;
      }
  unfolding scan_page
  scan_page-Ordered s ev [] (ok, b, _) = rw (scan_event_ordered s ev ok b, append-nil)
  scan_page-Ordered s ev (next ∷ page) (ok, b, rest) =
      let s' : Scan E = record {
        events = s.events ++ push_parsed [] (parse ev);
        seen = position s.seen ev;
        saw_events = true;
      } in
      rw (scan_event_ordered s ev ok b, scan_page-Ordered s' next page rest, append_assoc)

  scan_pages_short :
      (rpc : ℕ → ℕ → RpcResponse V) (left start : ℕ) (s : Scan E) (ev : RpcEvent V)
      (page : List (RpcEvent V))
      → rpc (max_pages - suc left) start ≡ result (some (ev ∷ page))
      → length (ev ∷ page) < page_limit
      → scan_pages parse rpc (suc left) start s ≡ some (scan_page parse s (ev ∷ page), true)
  unfolding scan_pages
  scan_pages_short rpc left start s ev page answer short =
      rw (scan_pages, answer) (rw (lt→ltb _ _ short))

  -- If the server answers the first request with one page, not empty and shorter than the limit,
  -- of successful events that follow the cursor in strictly ascending order, then every event
  -- that parses is handed on, in order, and the cursor moves to the start of the ledger after the
  -- last one.
  pub fetch_events_complete :
      (id : String) (ids : List String) (rpc : ℕ → ℕ → RpcResponse V) (cursor : SyncCursor)
      (ev : RpcEvent V) (page : List (RpcEvent V))
      → rpc 0 cursor.ledger_sequence ≡ result (some (ev ∷ page))
      → length (ev ∷ page) < page_limit
      → Ordered cursor (ev ∷ page)
      → fetch_events parse (id ∷ ids) rpc cursor
        ≡ some (
          all_parsed (ev ∷ page),
          record {
            ledger_sequence = (last_place cursor (ev ∷ page)).ledger_sequence + 1;
            tx_index = 0;
          },
        )
  unfolding fetch_events scan_pages
  fetch_events_complete id ids rpc cursor ev page answer short ordered =
      let s : Scan E = record { events = []; seen = cursor; saw_events = false } in
      rw (fetch_events, scan_pages_short rpc 49 cursor.ledger_sequence s ev page answer short)
        (rw (scan_page-Ordered s ev page ordered))

  scan_event_covered :
      (s : Scan E) (ev : RpcEvent V)
      → (is_failed ev.in_successful_contract_call ≡ true)
        ⊎ (is_covered s.seen (position s.seen ev) ≡ true)
      → scan_event parse s ev ≡ s
  unfolding scan_event
  scan_event_covered s ev (inl failed) = rw failed
  scan_event_covered s ev (inr covered) = ground arith

  -- After an event is counted, another of its ledger and transaction lies at or before the place.
  scan_event-covers :
      (s : Scan E) (first second : RpcEvent V)
      → first.ledger ≡ second.ledger
      → or_else first.tx_index 0 ≡ or_else second.tx_index 0
      → is_failed first.in_successful_contract_call ≡ false
      → let seen = (scan_event parse s first).seen in is_covered seen (position seen second) ≡ true
  unfolding scan_event
  scan_event-covers s first second same_ledger same_tx ok =
      let p = position s.seen first in
      elim (Bool-cases (is_covered s.seen p)) [
        | inl covered ↦ rw (ok, covered) (rw (position, ← same_ledger, ← same_tx) covered)
        | inr fresh ↦
            rw (ok, fresh, (is_ahead_iff s.seen p).1 (not_covered-Before s.seen p fresh))
              (position-covers s.seen first second same_ledger same_tx)
      ]

  -- After an event of a successful call was scanned, another event with the same ledger and
  -- transaction index changes nothing: it is not handed on.
  pub same_transaction_dropped :
      (s : Scan E) (first second : RpcEvent V)
      → first.ledger ≡ second.ledger
      → or_else first.tx_index 0 ≡ or_else second.tx_index 0
      → is_failed first.in_successful_contract_call ≡ false
      → scan_event parse (scan_event parse s first) second ≡ scan_event parse s first
  unfolding scan_event
  same_transaction_dropped s first second same_ledger same_tx ok =
      scan_event_covered (scan_event parse s first) second
        (inr (scan_event-covers s first second same_ledger same_tx ok))

  scan_page_covered :
      (s : Scan E) (page : List (RpcEvent V)) → AllCovered s.seen page → scan_page parse s page ≡ s
  unfolding scan_page
  scan_page_covered s [] h = refl
  scan_page_covered s (ev ∷ page) (h, hs) =
      rw (scan_event_covered s ev h) (scan_page_covered s page hs)

  scan_pages_covered :
      (rpc : ℕ → ℕ → RpcResponse V) (ev : RpcEvent V) (page : List (RpcEvent V)) (s : Scan E)
      → ((n : ℕ) → rpc n s.seen.ledger_sequence ≡ result (some (ev ∷ page)))
      → page_limit ≤ length (ev ∷ page)
      → AllCovered s.seen (ev ∷ page)
      → (left : ℕ) → scan_pages parse rpc left s.seen.ledger_sequence s ≡ some (s, false)
  unfolding scan_pages
  scan_pages_covered rpc ev page s answer full covered zero = refl
  scan_pages_covered rpc ev page s answer full covered (suc left) =
      rw (scan_pages, answer (max_pages - suc left))
        (rw
          (
            scan_page_covered s (ev ∷ page) covered,
            scan_pages_covered rpc ev page s answer full covered left,
          )
          (ground arith))

  -- If the server answers every request from the ledger of the cursor with the same full page,
  -- all of whose events are covered by the cursor, then nothing is handed on and the cursor
  -- stays.
  pub full_page_stalls :
      (ids : List String) (rpc : ℕ → ℕ → RpcResponse V) (cursor : SyncCursor) (ev : RpcEvent V)
      (page : List (RpcEvent V))
      → ((n : ℕ) → rpc n cursor.ledger_sequence ≡ result (some (ev ∷ page)))
      → page_limit ≤ length (ev ∷ page)
      → AllCovered cursor (ev ∷ page)
      → fetch_events parse ids rpc cursor ≡ some ([], cursor)
  unfolding fetch_events settle
  full_page_stalls [] rpc cursor ev page answer full covered = refl
  full_page_stalls (id ∷ ids) rpc cursor ev page answer full covered =
      let s : Scan E = record { events = []; seen = cursor; saw_events = false } in
      rw (fetch_events, scan_pages_covered rpc ev page s answer full covered max_pages)
        (ground arith)
