-- ===== src/Indexer/Fetch/Order.antt =====
-- Where the events that `fetchEvents` hands on come from, and in which order.
use carbon_veritas.Base.{
  ℕ, zero, suc, ◌-◌, ◌≡◌, refl, inl, inr, String, Bool, false, Option, none, some, List, [], ◌∷◌,
  ◌++◌, arith, length, All, All-append, ◌∙◌, Bool-cases, Option-cases, ltb,
}
use carbon_veritas.Indexer.Fetch.Places.{
  NotAfter, not_covered-Before, is_ahead_iff, not_ahead-NotAfter, Ascends, Ascends-widen,
  Ascends-append,
}
use carbon_veritas.Store.Rows.{Contains}
use mathlib.Core.List.{append-nil, append_assoc}
use carbon_veritas.Indexer.Fetch.{
  is_failed, SyncCursor, RpcEvent, RpcResponse, Scan, page_limit, max_pages, position, is_covered,
  push_parsed, scan_event, scan_page, scan_pages, settle, fetch_events, fetch_rounds,
  fetch_event_page,
}

module _ {V E : Type 0} (parse : RpcEvent V → Option E) where
  -- What the parser makes of events, each with its place.
  abbrev pub parsed_of : List (SyncCursor × RpcEvent V) → List E
  parsed_of [] = []
  parsed_of ((at, ev) ∷ rest) = push_parsed [] (parse ev) ++ parsed_of rest

  pub push_parsed_lem : (es : List E) (o : Option E) → push_parsed es o ≡ es ++ push_parsed [] o
  push_parsed_lem es none = rw append-nil
  push_parsed_lem es (some e) = refl

  parsed_of-append :
      (hs ks : List (SyncCursor × RpcEvent V)) → parsed_of (hs ++ ks) ≡ parsed_of hs ++ parsed_of ks
  parsed_of-append [] ks = refl
  parsed_of-append ((at, ev) ∷ hs) ks =
      rw (parsed_of-append hs ks, append_assoc (push_parsed [] (parse ev)) (parsed_of hs)) refl

-- An event with the place that it names itself (a missing ledger says nothing), from a call that
-- did not fail, and with a property.
abbrev pub HandedOn : {V : Type 0} → (RpcEvent V → Type 0) → SyncCursor × RpcEvent V → Type 0
HandedOn Q (at, ev) =
    (position at ev ≡ at) × (is_failed ev.in_successful_contract_call ≡ false) × Q ev

module _ {V E : Type 0} (parse : RpcEvent V → Option E) (Q : RpcEvent V → Type 0) where
  -- The events between two places are those parsed from events with ascending places.
  pub record Handed (lo : SyncCursor) (es : List E) (hi : SyncCursor) : Type 0 where
    pub source : List (SyncCursor × RpcEvent V)
    pub parses : parsed_of parse source ≡ es
    pub ascends : Ascends (λ x. x.0) lo source hi
    pub handed : All (HandedOn Q) source

  position_self :
      (seen : SyncCursor) (ev : RpcEvent V) → position (position seen ev) ev ≡ position seen ev
  unfolding position
  position_self seen ev = ground arith

  abbrev Scanning : SyncCursor → Scan E → Type 0
  Scanning lo s = Handed lo s.events s.seen

  scan_event-Handed :
      (lo : SyncCursor) (s : Scan E) (ev : RpcEvent V)
      → Q ev
      → Scanning lo s
      → Scanning lo (scan_event parse s ev)
  unfolding scan_event
  scan_event-Handed lo s ev q h = elim (Bool-cases (is_failed ev.in_successful_contract_call)) [
    | inl failed ↦ rw failed h
    | inr counted ↦ elim (Bool-cases (is_covered s.seen (position s.seen ev))) [
      | inl covered ↦ rw (counted, covered) h
      | inr fresh ↦
          let at = position s.seen ev in
          let b = not_covered-Before s.seen at fresh in
          rw (counted, fresh, (is_ahead_iff s.seen at).1 b)
            (record {
              source = h.source ++ (at, ev) ∷ [];
              parses =
                  parsed_of-append parse h.source ((at, ev) ∷ [])
                  ∙ rw (h.parses, push_parsed_lem parse s.events (parse ev), append-nil) refl;
              ascends =
                  Ascends-append (λ x. x.0) lo h.source ((at, ev) ∷ []) s.seen at h.ascends
                    (b, inr refl);
              handed =
                  All-append (HandedOn Q) h.source ((at, ev) ∷ []) h.handed
                    ((position_self s.seen ev, counted, q), tt);
            })
    ]
  ]

  Handed-widen :
      (lo : SyncCursor) (es : List E) (mid hi : SyncCursor)
      → Handed lo es mid
      → NotAfter mid hi
      → Handed lo es hi
  Handed-widen lo es mid hi h k = record {
    source = h.source;
    parses = h.parses;
    ascends = Ascends-widen (λ x. x.0) lo h.source mid hi h.ascends k;
    handed = h.handed;
  }

  Handed-append :
      (lo : SyncCursor) (es fs : List E) (mid hi : SyncCursor)
      → Handed lo es mid
      → Handed mid fs hi
      → Handed lo (es ++ fs) hi
  Handed-append lo es fs mid hi h k = record {
    source = h.source ++ k.source;
    parses = parsed_of-append parse h.source k.source ∙ rw (h.parses, k.parses) refl;
    ascends = Ascends-append (λ x. x.0) lo h.source k.source mid hi h.ascends k.ascends;
    handed = All-append (HandedOn Q) h.source k.source h.handed k.handed;
  }

  scan_page-Handed :
      (lo : SyncCursor) (s : Scan E) (page : List (RpcEvent V))
      → All Q page
      → Scanning lo s
      → Scanning lo (scan_page parse s page)
  unfolding scan_page
  scan_page-Handed lo s [] qs h = h
  scan_page-Handed lo s (ev ∷ page) (q, qs) h =
      scan_page-Handed lo (scan_event parse s ev) page qs (scan_event-Handed lo s ev q h)

  -- All the events of the server's answers have the property.
  abbrev Answers : (ℕ → ℕ → RpcResponse V) → Type 0
  Answers rpc =
      (n start : ℕ) (page : List (RpcEvent V))
      → fetch_event_page (rpc n start) ≡ some page
      → All Q page

  abbrev Scanned : SyncCursor → Option (Scan E × Bool) → Type 0
  Scanned lo none = Unit
  Scanned lo (some (s, _)) = Scanning lo s

  scan_pages-Handed :
      (lo : SyncCursor) (rpc : ℕ → ℕ → RpcResponse V) (left start : ℕ) (s : Scan E)
      → Answers rpc
      → Scanning lo s
      → Scanned lo (scan_pages parse rpc left start s)
  unfolding scan_pages
  scan_pages-Handed lo rpc zero start s q h = h
  scan_pages-Handed lo rpc (suc left) start s q h =
      elim (Option-cases (fetch_event_page (rpc (max_pages - suc left) start))) [
        | inl failed ↦ rw (Scanned, failed) tt
        | inr ([], e) ↦ rw (Scanned, e) h
        | inr (ev ∷ page, e) ↦
            let s' = scan_page parse s (ev ∷ page) in
            let h' = scan_page-Handed lo s (ev ∷ page) (q _ _ _ e) h in
            let more = scan_pages-Handed lo rpc left s'.seen.ledger_sequence s' q h' in
            elim (Bool-cases (ltb (length (ev ∷ page)) page_limit)) [
              | inl short ↦ rw (Scanned, e, short) h'
              | inr full ↦ rw (Scanned, e, full) more
            ]
      ]

  settle-NotAfter :
      (cursor : SyncCursor) (s : Scan E) (drained : Bool)
      → NotAfter s.seen (settle parse cursor (s, drained))
  unfolding settle
  settle-NotAfter cursor s drained =
      ground (arith, is_ahead_iff cursor s.seen, not_ahead-NotAfter cursor s.seen)

  nothing : (cursor : SyncCursor) → Handed cursor [] cursor
  nothing cursor = record { source = []; parses = refl; ascends = inr refl; handed = tt }

  abbrev Fetched : SyncCursor → Option (List E × SyncCursor) → Type 0
  Fetched lo none = Unit
  Fetched lo (some (es, hi)) = Handed lo es hi

  fetch_events-Handed :
      (ids : List String) (rpc : ℕ → ℕ → RpcResponse V) (cursor : SyncCursor)
      → Answers rpc
      → Fetched cursor (fetch_events parse ids rpc cursor)
  unfolding fetch_events
  fetch_events-Handed [] rpc cursor q = nothing cursor
  fetch_events-Handed (id ∷ ids) rpc cursor q =
      let s : Scan E = record { events = []; seen = cursor; saw_events = false } in
      let h = scan_pages-Handed cursor rpc max_pages cursor.ledger_sequence s q (nothing cursor) in
      elim (Option-cases (scan_pages parse rpc max_pages cursor.ledger_sequence s)) [
        | inl failed ↦ rw (Fetched, failed) tt
        | inr ((s', drained), e) ↦
            rw (Fetched, e)
              (Handed-widen cursor s'.events s'.seen _ (rw e at h)
                (settle-NotAfter cursor s' drained))
      ]

  fetch_rounds-Handed :
      (ids : List String) (rounds : List (ℕ → ℕ → RpcResponse V)) (cursor : SyncCursor)
      → All Answers rounds
      → Handed cursor
          (fetch_rounds parse ids rounds cursor).0
          (fetch_rounds parse ids rounds cursor).1
  unfolding fetch_rounds
  fetch_rounds-Handed ids [] cursor q = nothing cursor
  fetch_rounds-Handed ids (rpc ∷ rounds) cursor (q, qs) =
      elim (Option-cases (fetch_events parse ids rpc cursor)) [
        | inl failed ↦ rw failed (fetch_rounds-Handed ids rounds cursor qs)
        | inr ((es, next), e) ↦ rw e (
            Handed-append cursor es _ next _ (rw e at (fetch_events-Handed ids rpc cursor q))
              (fetch_rounds-Handed ids rounds next qs))
      ]

-- The event stands on a page that a server of one of the rounds answered.
abbrev pub Served : {V : Type 0} → List (ℕ → ℕ → RpcResponse V) → RpcEvent V → Type 0
Served {V} rounds ev =
    (rpc : ℕ → ℕ → RpcResponse V) × (n : ℕ) × (start : ℕ) × (page : List (RpcEvent V)) × Contains
      rpc rounds
    × (fetch_event_page (rpc n start) ≡ some page)
    × Contains ev page

All-Contains :
    {A : Type 0} (P : A → Type 0) (rows : List A) → ((a : A) → Contains a rows → P a) → All P rows
All-Contains P [] k = tt
All-Contains P (x ∷ rows) k = (k x (inl refl), All-Contains P rows λ a c. k a (inr c))

-- Over any rounds of fetching, with any parser and whatever the servers answer (failures
-- included), the events handed on are what the parser makes, in order, of a list of events that
-- stand on the answered pages and did not fail; their places in the chain are strictly ascending,
-- all after the cursor at the start and none after the cursor at the end, so that no place is
-- handed on twice.
pub fetch_rounds-Ascends :
    {V E : Type 0} (parse : RpcEvent V → Option E) (ids : List String)
    (rounds : List (ℕ → ℕ → RpcResponse V)) (cursor : SyncCursor)
    → Handed parse
        (Served rounds)
        cursor
        (fetch_rounds parse ids rounds cursor).0
        (fetch_rounds parse ids rounds cursor).1
fetch_rounds-Ascends parse ids rounds cursor =
    fetch_rounds-Handed parse (Served rounds) ids rounds cursor (
      All-Contains _ rounds
        λ rpc c n start page e. All-Contains _ page λ ev d. (rpc, n, start, page, c, e, d))
