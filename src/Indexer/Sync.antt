-- ===== src/Indexer/Sync.antt =====
-- `IndexerSync` of indexer/src/sync.ts: dispatch on the event's type, `poll`, the rounds of `start`
-- and `resyncFromGenesis`. `parse` is `parseRpcEvent`, any function from RPC events.
pub mod Batch
pub mod Integrity
pub mod Published
pub mod Topics
mod Tests
use carbon_veritas.Base.{
  ℕ, zero, suc, ◌+◌, String, Bool, true, false, Option, none, some, List, [], ◌∷◌,
}
use carbon_veritas.Store.Prisma.{PrismaClient}
use carbon_veritas.Store.Action.{
  Action, World, Result, ok, err, Failure, upstream, pure, ◌>>=◌, ◌>>◌,
}
use carbon_veritas.Indexer.Fetch.{SyncCursor, RpcEvent, RpcResponse, fetch_events}
use carbon_veritas.Indexer.Events.{
  SyncEvent, credit_submitted, credit_approved, credit_minted, credit_rejected, credit_transferred,
  credit_retired, offer_created, offer_filled, offer_cancelled, credit_bridged, credit_bridged_out,
  registry_root_updated,
}
use carbon_veritas.Indexer.Processors.{
  process_credit_submitted, process_credit_approved, process_credit_minted, process_credit_rejected,
  process_credit_transferred, process_credit_retired, process_offer_created, process_offer_filled,
  process_offer_cancelled, process_credit_bridged, process_credit_bridged_out,
  process_registry_root_updated,
}

-- The fields of the class that change, and the database behind it.
pub record Indexer (C : Type 0) : Type 0 where
  pub cursor : SyncCursor
  pub running : Bool
  pub world : World C

module _ (client : PrismaClient) (date : String → ℕ) {C : Type 0} where
  unfoldable pub process_event : SyncEvent → Action C (Unit {0})
  process_event (credit_submitted e) = process_credit_submitted client date e
  process_event (credit_approved e) = process_credit_approved client date e
  process_event (credit_minted e) = process_credit_minted client date e
  process_event (credit_rejected e) = process_credit_rejected client date e
  process_event (credit_transferred e) = process_credit_transferred client date e
  process_event (credit_retired e) = process_credit_retired client date e
  process_event (offer_created e) = process_offer_created client date e
  process_event (offer_filled e) = process_offer_filled client date e
  process_event (offer_cancelled e) = process_offer_cancelled client date e
  process_event (credit_bridged e) = process_credit_bridged client date e
  process_event (credit_bridged_out e) = process_credit_bridged_out client date e
  process_event (registry_root_updated e) = process_registry_root_updated client date e

  -- `for (const event of events) await this.processEvent(event)`
  unfoldable pub process_all : List SyncEvent → Action C (Unit {0})
  process_all [] = pure tt
  process_all (e ∷ es) = process_event e >> process_all es

module _ (client : PrismaClient) (date : String → ℕ) {C V : Type 0}
    (parse : RpcEvent V → Option SyncEvent) (ids : List String) where
  -- `fetchEvents` has moved the cursor before the first event is processed.
  unfoldable pub poll : (ℕ → ℕ → RpcResponse V) → Indexer C → Result (Unit {0}) × Indexer C
  poll rpc s = elim (fetch_events parse ids rpc s.cursor) [
    | none ↦ (err (upstream "fetch"), s)
    | some (events, cursor) ↦
        let (r, world) = process_all client date events s.world in
        (r, record s { cursor = cursor; world = world })
  ]

  -- The loop of `start`, for the servers that its rounds meet; an exception of a round is logged.
  unfoldable pub start_rounds : List (ℕ → ℕ → RpcResponse V) → Indexer C → Indexer C
  start_rounds [] s = s
  start_rounds (rpc ∷ rounds) s = start_rounds rounds (poll rpc s).1

  -- `resyncFromGenesis` with at most `fuel` rounds, and the number of events processed. `none` says
  -- that the fuel ran out.
  unfoldable pub resync_rounds :
      ℕ → (ℕ → ℕ → ℕ → RpcResponse V) → Indexer C → Option (Result (Unit {0}) × Indexer C)
  resync_rounds zero rpc s = none
  resync_rounds (suc fuel) rpc s = elim s.running [
    | false ↦ some (ok tt, s)
    | true ↦ elim (fetch_events parse ids (rpc fuel) s.cursor) [
      | none ↦ some (err (upstream "fetch"), s)
      | some ([], cursor) ↦ some (ok tt, record s { cursor = cursor })
      | some (e ∷ events, cursor) ↦
          let (r, world) = process_all client date (e ∷ events) s.world in
          let s' : Indexer C = record s { cursor = cursor; world = world } in
          elim r [ ok _ ↦ resync_rounds fuel rpc s' | err x ↦ some (err x, s') ]
    ]
  ]

  unfoldable pub resync_from_genesis :
      ℕ → (ℕ → ℕ → ℕ → RpcResponse V) → Indexer C → Option (Result (Unit {0}) × Indexer C)
  resync_from_genesis fuel rpc s =
      resync_rounds fuel rpc (record s { cursor = record { ledger_sequence = 1; tx_index = 0 } })
