-- ===== src/Indexer/Sync/Integrity.antt =====
-- Every event keeps the relations between the tables, also when its processing fails.
pub mod Steps
pub mod Credits
pub mod Offers
use carbon_veritas.Base.{
  ℕ, ◌+◌, ◌≡◌, refl, sym, ◌∙◌, String, Bool, true, false, Option, none, some, List, [], ◌∷◌, ◌++◌,
  arith, eq_refl, leb, ◌==◌,
}
use carbon_veritas.Store.Rows.{
  find?, modify, exists?_of_find?, exists?_of_Contains, exists?-modify, exists?-last,
}
use carbon_veritas.Store.Schema.{
  User, Credit, Approval, Offer, Trade, Retirement, BridgeRecord, Db, CreditStatus, OfferStatus,
  BridgeStatus, user_by_id, user_by_pub, credit_by_id, credit_by_number, offer_by_number,
  bridge_by_source, bridge_by_id,
}
use carbon_veritas.Store.Prisma.{PrismaClient}
use carbon_veritas.Store.Action.{
  Action, World, Result, ok, err, pure, ◌>>=◌, ◌>>◌, users, credits, approvals, offers, trades,
  retirements, bridge_records, update, create, upsert, find_unique, find_first,
}
use carbon_veritas.Store.Action.Rules.{
  >>-Ensures, Ensures, >>=-Ensures, update-Ensures, create-Ensures, upsert-Ensures,
}
use carbon_veritas.Store.References.{
  RefsResolve, CreditRefs, UserKnown, CreditKnown, OfferKnown, offer_by_id, add_user-RefsResolve,
  change_users-RefsResolve, add_credit-RefsResolve, change_credits-RefsResolve,
  add_offer-RefsResolve, change_offers-RefsResolve, add_approval-RefsResolve, add_trade-RefsResolve,
  add_retirement-RefsResolve, set_bridge_records-RefsResolve,
}
use carbon_veritas.Indexer.Events.{
  SyncEvent, CreditSubmittedEvent, CreditApprovedEvent, CreditRejectedEvent, CreditTransferredEvent,
  CreditRetiredEvent, CreditMintedEvent, OfferCreatedEvent, OfferFilledEvent, OfferCancelledEvent,
  CreditBridgedEvent, CreditBridgedOutEvent, credit_submitted, credit_approved, credit_minted,
  credit_rejected, credit_transferred, credit_retired, offer_created, offer_filled, offer_cancelled,
  credit_bridged, credit_bridged_out, registry_root_updated,
}
use carbon_veritas.Indexer.Writes.{
  keep_user, new_user, new_credit, resubmit, minted, new_approval, new_retirement, new_offer,
  reoffer, fill, new_trade, set_owner, set_credit_status, set_offer_status, settle_bridge, or_text,
}
use carbon_veritas.Indexer.Processors.{
  if_found, upsert_user, process_credit_submitted, process_credit_approved, process_credit_minted,
  process_credit_rejected, process_credit_transferred, process_credit_retired,
  process_offer_created, process_offer_filled, process_offer_cancelled, process_credit_bridged,
  process_credit_bridged_out, process_registry_root_updated,
}
use carbon_veritas.Indexer.Sync.{process_event, process_all}
use carbon_veritas.Indexer.Sync.Integrity.Steps.{Kept}
use carbon_veritas.Indexer.Sync.Integrity.Credits.{
  process_credit_submitted-Kept, process_credit_approved-Kept, process_credit_minted-Kept,
  process_credit_rejected-Kept, process_credit_transferred-Kept, process_credit_retired-Kept,
}
use carbon_veritas.Indexer.Sync.Integrity.Offers.{
  process_offer_created-Kept, process_offer_filled-Kept, process_offer_cancelled-Kept,
  process_credit_bridged-Kept, process_credit_bridged_out-Kept,
}

module _ (client : PrismaClient) (date : String → ℕ) {C : Type 0} where
  process_event-Kept :
      (e : SyncEvent) (w : World C) → RefsResolve w.db → Kept (process_event client date e w)
  unfolding process_event process_registry_root_updated
  process_event-Kept (credit_submitted e) w h = process_credit_submitted-Kept client date e w h
  process_event-Kept (credit_approved e) w h = process_credit_approved-Kept client date e w h
  process_event-Kept (credit_minted e) w h = process_credit_minted-Kept client date e w h
  process_event-Kept (credit_rejected e) w h = process_credit_rejected-Kept client date e w h
  process_event-Kept (credit_transferred e) w h = process_credit_transferred-Kept client date e w h
  process_event-Kept (credit_retired e) w h = process_credit_retired-Kept client date e w h
  process_event-Kept (offer_created e) w h = process_offer_created-Kept client date e w h
  process_event-Kept (offer_filled e) w h = process_offer_filled-Kept client date e w h
  process_event-Kept (offer_cancelled e) w h = process_offer_cancelled-Kept client date e w h
  process_event-Kept (credit_bridged e) w h = process_credit_bridged-Kept client date e w h
  process_event-Kept (credit_bridged_out e) w h = process_credit_bridged_out-Kept client date e w h
  process_event-Kept (registry_root_updated e) w h = (h, tt)

  process_all-Kept :
      (es : List SyncEvent) (w : World C) → RefsResolve w.db → Kept (process_all client date es w)
  unfolding process_all
  process_all-Kept [] w h = (h, tt)
  process_all-Kept (e ∷ es) w h =
      >>-Ensures RefsResolve (λ a d. Unit {0}) (λ a d. Unit {0}) (process_event client date e)
        (process_all client date es) w (process_event-Kept e w h)
        λ a w' h' _. process_all-Kept es w' h'

  Kept-RefsResolve : {A : Type 0} (x : Result A × World C) → Kept x → RefsResolve x.1.db
  Kept-RefsResolve (ok a, w) h = h.0
  Kept-RefsResolve (err e, w) h = h

  -- After any batch of events, whether it was processed to its end or an exception cut it short,
  -- every relation among users, credits, approvals, offers, trades and retirements that held
  -- before still holds: each row refers to rows that exist.
  pub process_all-RefsResolve :
      (es : List SyncEvent) (w : World C)
      → RefsResolve w.db
      → RefsResolve (process_all client date es w).1.db
  process_all-RefsResolve es w h =
      Kept-RefsResolve (process_all client date es w) (process_all-Kept es w h)
