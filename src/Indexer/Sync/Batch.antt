-- ===== src/Indexer/Sync/Batch.antt =====
-- What happens to a batch of events when one of them cannot be processed, and what
-- `resyncFromGenesis` does before `start`.
use carbon_veritas.Base.{ℕ, ◌≡◌, String, Option, none, some, List, [], ◌∷◌, ◌++◌, arith}
use carbon_veritas.Store.Rows.{find?}
use carbon_veritas.Store.Schema.{Credit, credit_by_number}
use carbon_veritas.Store.Prisma.{PrismaClient}
use carbon_veritas.Store.Action.{World, ok, err, Failure, record_missing}
use carbon_veritas.Indexer.Fetch.{SyncCursor, RpcEvent, RpcResponse, fetch_events}
use carbon_veritas.Indexer.Events.{SyncEvent, CreditMintedEvent, credit_minted}
use carbon_veritas.Indexer.Writes.{minted}
use carbon_veritas.Indexer.Processors.{process_credit_minted}
use carbon_veritas.Indexer.Sync.{Indexer, process_event, process_all, poll}

module _ (client : PrismaClient) (date : String → ℕ) {C : Type 0} where
  -- The events before the failing one take effect, those after it do not.
  pub process_all-stops :
      (before : List SyncEvent) (e : SyncEvent) (after : List SyncEvent) (w w₁ w₂ : World C)
      (x : Failure)
      → process_all client date before w ≡ (ok tt, w₁)
      → process_event client date e w₁ ≡ (err x, w₂)
      → process_all client date (before ++ e ∷ after) w ≡ (err x, w₂)
  unfolding process_all
  process_all-stops [] e after w w₁ w₂ x done fails = ground arith
  process_all-stops (b ∷ before) e after w w₁ w₂ x done fails =
      ground (arith, process_all-stops before e after (process_event client date b w).1 w₁ w₂ x)

module _ (client : PrismaClient) (date : String → ℕ) {C V : Type 0}
    (parse : RpcEvent V → Option SyncEvent) (ids : List String) where
  -- When a batch has an event for the minting of a credit that the database does not know once
  -- the events before it are processed, `poll` throws; the cursor has moved past the whole batch
  -- and the events after that one are not applied.
  pub poll_loses_rest :
      (rpc : ℕ → ℕ → RpcResponse V) (s : Indexer C) (cursor : SyncCursor)
      (before after : List SyncEvent) (e : CreditMintedEvent) (w : World C)
      → fetch_events parse ids rpc s.cursor ≡ some (before ++ credit_minted e ∷ after, cursor)
      → process_all client date before s.world ≡ (ok tt, w)
      → find? (credit_by_number e.credit_id) w.db.credits ≡ none
      → poll client date parse ids rpc s
        ≡ (err record_missing, record s { cursor = cursor; world = w })
  unfolding poll process_event process_credit_minted
  poll_loses_rest rpc s cursor before after e w fetched done unknown =
      let fails : process_event client date (credit_minted e) w ≡ (err record_missing, w) = ground (
        arith,
        client.update_missing Credit (credit_by_number e.credit_id) (minted e) w.db.credits,
      ) in
      rw (poll, fetched)
        (rw (process_all-stops client date before (credit_minted e) after s.world w w _ done fails))
