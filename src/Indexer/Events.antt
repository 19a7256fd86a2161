-- ===== src/Indexer/Events.antt =====
-- The payloads of the contract events, indexer/src/processors/*.ts, and `SyncEvent` of
-- indexer/src/sync.ts. Numbers are natural; a vintage date is the text that the event carries.
use carbon_veritas.Base.{ℕ, String, Bool, Option}

pub record CreditSubmittedEvent : Type 0 where
  pub credit_id : ℕ
  pub issuer : String
  pub project_id : String
  pub methodology : String
  pub vintage_start : String
  pub vintage_end : String
  pub tonnes : ℕ
  pub geography : String
  pub serial_prefix : String
  pub sdg_flags : ℕ
  pub permanence_rating : ℕ
  pub buffer_contribution_pct : ℕ
  pub additionality_type : ℕ
  pub ipfs_hash : String
  pub timestamp : ℕ
  pub tx_hash : String

pub record CreditApprovedEvent : Type 0 where
  pub credit_id : ℕ
  pub verifier : String
  pub approved : Bool
  pub comments : Option String
  pub timestamp : ℕ
  pub tx_hash : String

pub record CreditMintedEvent : Type 0 where
  pub credit_id : ℕ
  pub token_id : String
  pub timestamp : ℕ
  pub tx_hash : String

pub record CreditRejectedEvent : Type 0 where
  pub credit_id : ℕ
  pub verifier : String
  pub reason : String
  pub timestamp : ℕ
  pub tx_hash : String

pub record CreditTransferredEvent : Type 0 where
  pub credit_id : ℕ
  pub from : String
  pub to : String
  pub timestamp : ℕ
  pub tx_hash : String

pub record CreditRetiredEvent : Type 0 where
  pub credit_id : ℕ
  pub retired_by : String
  pub beneficiary : String
  pub reason : String
  pub accounting_period : String
  pub tonnes_retired : ℕ
  pub tx_hash : String
  pub ledger_sequence : ℕ
  pub timestamp : ℕ

pub record OfferCreatedEvent : Type 0 where
  pub offer_id : ℕ
  pub seller : String
  pub credit_id : ℕ
  pub price_per_tonne : ℕ
  pub amount : ℕ
  pub currency : String
  pub expires_at : Option ℕ
  pub timestamp : ℕ
  pub tx_hash : String

pub record OfferFilledEvent : Type 0 where
  pub offer_id : ℕ
  pub buyer : String
  pub amount : ℕ
  pub total_price : ℕ
  pub timestamp : ℕ
  pub tx_hash : String

pub record OfferCancelledEvent : Type 0 where
  pub offer_id : ℕ
  pub timestamp : ℕ
  pub tx_hash : String

pub record CreditBridgedEvent : Type 0 where
  pub credit_id : ℕ
  pub source_registry : String
  pub source_serial : String
  pub tx_hash : String
  pub timestamp : ℕ

pub record CreditBridgedOutEvent : Type 0 where
  pub credit_id : ℕ
  pub owner : String
  pub tx_hash : String
  pub timestamp : ℕ

pub record RegistryRootUpdatedEvent : Type 0 where
  pub registry : String
  pub root : String
  pub ledger_sequence : ℕ
  pub tx_hash : String
  pub timestamp : ℕ

pub data SyncEvent : Type 0 where
  credit_submitted : CreditSubmittedEvent → SyncEvent
  credit_approved : CreditApprovedEvent → SyncEvent
  credit_minted : CreditMintedEvent → SyncEvent
  credit_rejected : CreditRejectedEvent → SyncEvent
  credit_transferred : CreditTransferredEvent → SyncEvent
  credit_retired : CreditRetiredEvent → SyncEvent
  offer_created : OfferCreatedEvent → SyncEvent
  offer_filled : OfferFilledEvent → SyncEvent
  offer_cancelled : OfferCancelledEvent → SyncEvent
  credit_bridged : CreditBridgedEvent → SyncEvent
  credit_bridged_out : CreditBridgedOutEvent → SyncEvent
  registry_root_updated : RegistryRootUpdatedEvent → SyncEvent
