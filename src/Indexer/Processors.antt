-- ===== src/Indexer/Processors.antt =====
-- The event processors, indexer/src/processors/*.ts: each applies one contract event to the
-- database. `date` is `new Date(text)` in milliseconds. Log lines are left out.
pub mod Effects
use carbon_veritas.Base.{
  ℕ, ◌+◌, String, Bool, true, false, Option, none, some, List, [], ◌∷◌, leb, ◌==◌, str_eq, or_else,
  if◌then◌else◌,
}
use carbon_veritas.Store.Schema
use carbon_veritas.Store.Schema.{
  User, Credit, Approval, Offer, Trade, Retirement, BridgeRecord, BridgeStatus, CreditStatus,
  OfferStatus, user_by_pub, credit_by_number, credit_by_id, offer_by_number, bridge_by_source,
  bridge_by_id,
}
use carbon_veritas.Store.Prisma.{PrismaClient}
use carbon_veritas.Store.Action.{
  Action, pure, ◌>>=◌, ◌>>◌, users, credits, approvals, offers, trades, retirements, bridge_records,
  find_unique, find_first, create, update, upsert,
}
use carbon_veritas.Indexer.Events.{
  CreditSubmittedEvent, CreditApprovedEvent, CreditMintedEvent, CreditRejectedEvent,
  CreditTransferredEvent, CreditRetiredEvent, OfferCreatedEvent, OfferFilledEvent,
  OfferCancelledEvent, CreditBridgedEvent, CreditBridgedOutEvent, RegistryRootUpdatedEvent,
}
use mathlib.Core.Option
use carbon_veritas.Indexer.Writes.{
  expiry, fill, keep_user, minted, new_approval, new_credit, new_offer, new_retirement, new_trade,
  new_user, or_text, reoffer, resubmit, set_credit_status, set_offer_status, set_owner,
  settle_bridge,
}

-- A chain that goes on only if the record was found (`if (!record) return;`).
abbrev pub if_found : {C A : Type 0} → Option A → (A → Action C (Unit {0})) → Action C (Unit {0})
if_found none k w = pure tt w
if_found (some a) k w = k a w

module _ (client : PrismaClient) (date : String → ℕ) {C : Type 0} where
  abbrev pub upsert_user : String → Action C User
  upsert_user key = upsert client users (user_by_pub key) keep_user (new_user key)

  unfoldable pub process_credit_submitted : CreditSubmittedEvent → Action C (Unit {0})
  process_credit_submitted event = do
    issuer ← upsert_user event.issuer
    upsert client credits (credit_by_number event.credit_id) (resubmit date event)
        (new_credit date event issuer.id)
    pure tt

  unfoldable pub process_credit_approved : CreditApprovedEvent → Action C (Unit {0})
  process_credit_approved event = do
    found ← find_unique client credits (credit_by_number event.credit_id)
    if_found found λ credit. do
      verifier ← upsert_user event.verifier
      create client approvals (new_approval credit verifier event.approved event.comments)
      pure tt

  unfoldable pub process_credit_minted : CreditMintedEvent → Action C (Unit {0})
  process_credit_minted event = do
    update client credits (credit_by_number event.credit_id) (minted event)
    pure tt

  unfoldable pub process_credit_rejected : CreditRejectedEvent → Action C (Unit {0})
  process_credit_rejected event = do
    found ← find_unique client credits (credit_by_number event.credit_id)
    if_found found λ credit. do
      verifier ← upsert_user event.verifier
      create client approvals (new_approval credit verifier false (some event.reason))
      update client credits (credit_by_number event.credit_id)
          (set_credit_status CreditStatus.rejected)
      pure tt

  unfoldable pub process_credit_transferred : CreditTransferredEvent → Action C (Unit {0})
  process_credit_transferred event = do
    new_owner ← upsert_user event.to
    update client credits (credit_by_number event.credit_id) (set_owner new_owner.id)
    pure tt

  unfoldable pub process_credit_retired : CreditRetiredEvent → Action C (Unit {0})
  process_credit_retired event = do
    found ← find_unique client credits (credit_by_number event.credit_id)
    if_found found λ credit. do
      retirer ← upsert_user event.retired_by
      create client retirements (new_retirement event credit retirer)
      update client credits (credit_by_number event.credit_id)
          (set_credit_status CreditStatus.retired)
      pure tt

  unfoldable pub process_offer_created : OfferCreatedEvent → Action C (Unit {0})
  process_offer_created event = do
    seller ← upsert_user event.seller
    found ← find_unique client credits (credit_by_number event.credit_id)
    if_found found λ credit. do
      upsert client offers (offer_by_number event.offer_id) (reoffer event)
          (new_offer event credit.id seller.id)
      pure tt

  unfoldable pub process_offer_filled : OfferFilledEvent → Action C (Unit {0})
  process_offer_filled event = do
    found ← find_unique client offers (offer_by_number event.offer_id)
    if_found found λ offer. do
      buyer ← upsert_user event.buyer
      let new_filled = offer.amount_filled + event.amount
      let is_fully_filled = leb offer.amount new_filled
      update client offers (offer_by_number event.offer_id) (fill new_filled is_fully_filled)
      create client trades (new_trade event offer buyer)
      update client credits (credit_by_id offer.credit_id) (set_owner buyer.id)
      pure tt

  unfoldable pub process_offer_cancelled : OfferCancelledEvent → Action C (Unit {0})
  process_offer_cancelled event = do
    update client offers (offer_by_number event.offer_id) (set_offer_status OfferStatus.cancelled)
    pure tt

  unfoldable pub process_credit_bridged : CreditBridgedEvent → Action C (Unit {0})
  process_credit_bridged event = do
    found ←
        find_unique client bridge_records
          (bridge_by_source event.source_registry event.source_serial)
    if_found found λ entry. do
      update client bridge_records (bridge_by_id entry.id)
          (settle_bridge BridgeStatus.inbound (or_text event.tx_hash entry.tx_hash))
      pure tt

  unfoldable pub process_credit_bridged_out : CreditBridgedOutEvent → Action C (Unit {0})
  process_credit_bridged_out event = do
    update client credits (credit_by_number event.credit_id)
        (set_credit_status CreditStatus.retired)
    found ← find_first client bridge_records (λ r. r.credit_id == event.credit_id)
    if_found found λ entry. do
      update client bridge_records (bridge_by_id entry.id)
          (settle_bridge BridgeStatus.outbound (or_text event.tx_hash entry.tx_hash))
      pure tt

  -- It writes a log line only.
  unfoldable pub process_registry_root_updated : RegistryRootUpdatedEvent → Action C (Unit {0})
  process_registry_root_updated event = pure tt
