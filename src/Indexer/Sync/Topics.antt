-- ===== src/Indexer/Sync/Topics.antt =====
-- The topics of the contracts of the registry, the market and the retirements
-- (contracts/credit-registry, contracts/marketplace and contracts/retirement-tracker, src/events.rs)
-- in the parser of the indexer.
use mathlib.Core.Path.{subst}
use carbon_veritas.Base.{
  ◌≡◌, refl, sym, ap, ℕ, ◌+◌, ◌<◌, String, none, some, List, [], ◌∷◌, length, All, or_else,
  Bool-cases, Option-cases, inl, inr,
}
use carbon_veritas.Store.Prisma.{PrismaClient}
use carbon_veritas.Store.Action.{ok}
use carbon_veritas.Indexer.Fetch.{RpcEvent, RpcResponse, result, page_limit}
use carbon_veritas.Indexer.Fetch.Progress.{Ordered, last_place, all_parsed, fetch_events_complete}
use carbon_veritas.Indexer.Json.{Json, str, Conversions, truthy}
use carbon_veritas.Indexer.Parse.{parse_rpc_event, parse_value}
use carbon_veritas.Indexer.Sync.{Indexer, process_all, poll}

-- The first topics of `env.events().publish` in these contracts.
pub data ContractTopic : String → Type 0 where
  credit : ContractTopic "credit"
  config : ContractTopic "config"
  offer : ContractTopic "offer"
  retire : ContractTopic "retire"

-- An event of these contracts, with any value and any further topics.
abbrev pub OfContracts : RpcEvent Json → Type 0
OfContracts ev =
    (name : String) × (rest : List Json) × ContractTopic name × (ev.topic ≡ some (str name ∷ rest))

module _ (js : Conversions) where
  parse_value-ContractTopic :
      (ev : RpcEvent Json) (name : String) (rest : List Json) (v : Json)
      → ContractTopic name
      → parse_value js ev (str name ∷ rest) v ≡ none
  unfolding parse_value
  parse_value-ContractTopic ev name rest v credit = refl
  parse_value-ContractTopic ev name rest v config = refl
  parse_value-ContractTopic ev name rest v offer = refl
  parse_value-ContractTopic ev name rest v retire = refl

  unread : (ev : RpcEvent Json) → OfContracts ev → parse_rpc_event js ev ≡ none
  unfolding parse_rpc_event
  unread ev (name, rest, known, topic) = elim (Option-cases ev.value) [
    | inl empty ↦ rw (parse_rpc_event, empty) refl
    | inr (v, given) ↦ elim (Bool-cases (truthy (some v))) [
      | inl filled ↦
          rw (parse_rpc_event, given, filled)
            (subst (λ topics. parse_value js ev topics v ≡ none)
              (sym (ap (λ t. or_else t []) topic)) (parse_value-ContractTopic ev name rest v known))
      | inr falsy ↦ rw (parse_rpc_event, given, falsy) refl
    ]
  ]

  all_unread :
      (page : List (RpcEvent Json))
      → All OfContracts page
      → all_parsed (parse_rpc_event js) page ≡ []
  all_unread [] h = refl
  all_unread (ev ∷ page) (h, hs) = rw (unread ev h) (all_unread page hs)

  module _ (client : PrismaClient) (date : String → ℕ) {C : Type 0} where
    -- If the server answers the first request of a poll with one page, not empty and shorter than
    -- the limit, of successful events whose first topic is one of `credit`, `config`, `offer` and
    -- `retire`, as the contracts of the registry, the market and the retirements publish them,
    -- with any values, and the events follow the cursor in strictly ascending order, then the
    -- poll succeeds and moves the cursor to the start of the ledger after the last one, but the
    -- database stays as it was: none of the events is applied.
    pub poll-OfContracts :
        (id : String) (ids : List String) (rpc : ℕ → ℕ → RpcResponse Json) (ix : Indexer C)
        (ev : RpcEvent Json) (page : List (RpcEvent Json))
        → All OfContracts (ev ∷ page)
        → rpc 0 ix.cursor.ledger_sequence ≡ result (some (ev ∷ page))
        → length (ev ∷ page) < page_limit
        → Ordered ix.cursor (ev ∷ page)
        → poll client date (parse_rpc_event js) (id ∷ ids) rpc ix ≡ (
          ok tt,
          record ix {
            cursor = record {
              ledger_sequence = (last_place ix.cursor (ev ∷ page)).ledger_sequence + 1;
              tx_index = 0;
            };
          },
        )
    unfolding poll process_all
    poll-OfContracts id ids rpc ix ev page known answer short ordered =
        rw
          (
            poll,
            fetch_events_complete (parse_rpc_event js) id ids rpc ix.cursor ev page answer short
                ordered,
            all_unread (ev ∷ page) known,
          )
          refl
