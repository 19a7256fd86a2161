-- ===== src/Indexer/Sync/Integrity/Offers.antt =====
-- The events about offers and about the bridge keep the relations between the tables.
use carbon_veritas.Base.{ℕ, ◌+◌, refl, sym, ◌∙◌, String, Bool, eq_refl, leb, ◌==◌}
use carbon_veritas.Store.Rows.{All_of_find?, modify, exists?_of_find?, exists?-modify}
use carbon_veritas.Store.Schema.{
  User, Credit, Offer, BridgeRecord, Db, CreditStatus, OfferStatus, BridgeStatus, credit_by_id,
  credit_by_number, offer_by_number, bridge_by_source, bridge_by_id,
}
use carbon_veritas.Store.Prisma.{PrismaClient}
use carbon_veritas.Store.Action.{
  World, pure, ◌>>=◌, ◌>>◌, credits, offers, trades, bridge_records, update, create, upsert,
  find_unique, find_first,
}
use carbon_veritas.Store.Action.Rules.{
  >>-Ensures, >>=-Ensures, update-Ensures, create-Ensures, upsert-Ensures,
}
use carbon_veritas.Store.References.{
  RefsResolve, OfferRefs, UserKnown, CreditKnown, OfferKnown, offer_by_id,
  change_credits-RefsResolve, add_offer-RefsResolve, change_offers-RefsResolve,
  add_trade-RefsResolve, set_bridge_records-RefsResolve,
}
use carbon_veritas.Indexer.Events.{
  OfferCreatedEvent, OfferFilledEvent, OfferCancelledEvent, CreditBridgedEvent,
  CreditBridgedOutEvent,
}
use carbon_veritas.Indexer.Writes.{
  new_offer, reoffer, fill, new_trade, set_owner, set_credit_status, set_offer_status,
  settle_bridge, or_text,
}
use carbon_veritas.Indexer.Processors.{
  if_found, upsert_user, process_offer_created, process_offer_filled, process_offer_cancelled,
  process_credit_bridged, process_credit_bridged_out,
}
use carbon_veritas.Indexer.Sync.Integrity.Steps.{
  Kept, AfterUser, if_found-Kept, upsert_user-Ensures, find-CreditKnown, last-Kept,
  update_credit-Kept,
}

-- What holds between the writes of a fill.
abbrev Filling : Offer → User → Db → Type 0
Filling o u d = UserKnown d u.id × OfferKnown d o.id × CreditKnown d o.credit_id

module _ (client : PrismaClient) (date : String → ℕ) {C : Type 0} where
  pub process_offer_created-Kept :
      (event : OfferCreatedEvent) (w : World C)
      → RefsResolve w.db
      → Kept (process_offer_created client date event w)
  unfolding process_offer_created
  process_offer_created-Kept event w h =
      let by_number = offer_by_number event.offer_id in
      let put = λ (u : User) (c : Credit).
        upsert client {C = C} offers by_number (reoffer event) (new_offer event c.id u.id) in
      >>=-Ensures RefsResolve (AfterUser w) (λ a d. Unit {0}) (upsert_user client date event.seller)
        (λ u. find_unique client credits (credit_by_number event.credit_id) >>= λ found.
          if_found found λ c. put u c >> pure tt)
        w (upsert_user-Ensures client date event.seller w h)
        λ u w' h' after.
          if_found-Kept (client.find_unique Credit (credit_by_number event.credit_id) w'.db.credits)
            (λ c. put u c >> pure tt) w' h'
            λ c found. last-Kept client date (put u c) w' (
              upsert-Ensures client offers RefsResolve (λ a d. Unit {0}) by_number (reoffer event)
                (new_offer event c.id u.id) w'
                (
                  change_offers-RefsResolve w'.db h' by_number (reoffer event) (λ o. refl)
                      (λ o r. r),
                  λ r e. tt,
                )
                (
                  add_offer-RefsResolve w'.db h' (new_offer event c.id u.id (client.cuid w'.drawn))
                      (after.0, find-CreditKnown client event.credit_id w'.db c found),
                  tt,
                ))

  pub process_offer_cancelled-Kept :
      (event : OfferCancelledEvent) (w : World C)
      → RefsResolve w.db
      → Kept (process_offer_cancelled client date event w)
  unfolding process_offer_cancelled
  process_offer_cancelled-Kept event w h =
      let by_number = offer_by_number event.offer_id in
      let f = set_offer_status OfferStatus.cancelled in
      last-Kept client date (update client offers by_number f) w (
        update-Ensures client offers RefsResolve (λ a d. Unit {0}) by_number f w h
          (change_offers-RefsResolve w.db h by_number f (λ o. refl) (λ o r. r), λ r e. tt))

  pub process_offer_filled-Kept :
      (event : OfferFilledEvent) (w : World C)
      → RefsResolve w.db
      → Kept (process_offer_filled client date event w)
  unfolding process_offer_filled
  process_offer_filled-Kept event w h =
      let by_number = offer_by_number event.offer_id in
      let f = λ (o : Offer).
        let total = o.amount_filled + event.amount in fill total (leb o.amount total) in
      let last = λ (o : Offer) (u : User).
        update client {C = C} credits (credit_by_id o.credit_id) (set_owner u.id) >> pure tt in
      let traded =
        λ (o : Offer) (u : User). create client {C = C} trades (new_trade event o u) >> last o u in
      if_found-Kept (client.find_unique Offer by_number w.db.offers) _ w h λ o found.
        let found' = sym (client.find_unique_lem Offer by_number w.db.offers) ∙ found in
        let refs = All_of_find? (OfferRefs w.db) by_number w.db.offers o h.offers found' in
        let listed =
          exists?_of_find? by_number (offer_by_id o.id) w.db.offers o found' (eq_refl o.id) in
        >>=-Ensures RefsResolve (AfterUser w) (λ a d. Unit {0})
          (upsert_user client date event.buyer)
          (λ u. update client offers by_number (f o) >> traded o u) w
          (upsert_user-Ensures client date event.buyer w h)
          λ u w' h' after.
            >>-Ensures RefsResolve (λ a d. Filling o u d) (λ a d. Unit {0})
              (update client offers by_number (f o)) (traded o u) w'
              (update-Ensures client offers RefsResolve (λ a d. Filling o u d) by_number (f o) w' h'
                (
                  change_offers-RefsResolve w'.db h' by_number (f o) (λ o. refl) (λ o r. r),
                  λ r e. (
                    after.0,
                    exists?-modify by_number (offer_by_id o.id) (f o) w'.db.offers (λ o. refl)
                        ∙ rw after.2 listed,
                    rw after.1 refs.1,
                  ),
                ))
              λ a w₂ h₂ filling.
                >>-Ensures RefsResolve (λ a d. UserKnown d u.id) (λ a d. Unit {0})
                  (create client trades (new_trade event o u)) (last o u) w₂
                  (create-Ensures client trades RefsResolve (λ a d. UserKnown d u.id)
                    (new_trade event o u) w₂ h₂
                    (
                      add_trade-RefsResolve w₂.db h₂ (new_trade event o u (client.cuid w₂.drawn))
                          filling,
                      filling.0,
                    ))
                  λ a w₃ h₃ known.
                    update_credit-Kept client date (credit_by_id o.credit_id) (set_owner u.id) w₃ h₃
                      (λ c. refl) (λ c r. (known, r.1))

  update_bridge-Kept :
      (p : BridgeRecord → Bool) (f : BridgeRecord → BridgeRecord) (w : World C)
      → RefsResolve w.db
      → Kept ((update client bridge_records p f >> pure tt) w)
  update_bridge-Kept p f w h = last-Kept client date (update client bridge_records p f) w (
      update-Ensures client bridge_records RefsResolve (λ a d. Unit {0}) p f w h
        (set_bridge_records-RefsResolve w.db h (modify p f w.db.bridge_records), λ r e. tt))

  pub process_credit_bridged-Kept :
      (event : CreditBridgedEvent) (w : World C)
      → RefsResolve w.db
      → Kept (process_credit_bridged client date event w)
  unfolding process_credit_bridged
  process_credit_bridged-Kept event w h =
      if_found-Kept
        (client.find_unique BridgeRecord
          (bridge_by_source event.source_registry event.source_serial) w.db.bridge_records)
        _ w h
        λ r found.
          update_bridge-Kept (bridge_by_id r.id)
            (settle_bridge BridgeStatus.inbound (or_text event.tx_hash r.tx_hash)) w h

  pub process_credit_bridged_out-Kept :
      (event : CreditBridgedOutEvent) (w : World C)
      → RefsResolve w.db
      → Kept (process_credit_bridged_out client date event w)
  unfolding process_credit_bridged_out
  process_credit_bridged_out-Kept event w h =
      let by_number = credit_by_number event.credit_id in
      let f = set_credit_status CreditStatus.retired in
      let settled = λ (r : BridgeRecord).
        update client {C = C} bridge_records (bridge_by_id r.id)
          (settle_bridge BridgeStatus.outbound (or_text event.tx_hash r.tx_hash))
        >> pure tt in
      >>-Ensures RefsResolve (λ a d. Unit {0}) (λ a d. Unit {0}) (update client credits by_number f)
        (find_first client bridge_records (λ r. r.credit_id == event.credit_id) >>= λ found.
          if_found found settled)
        w
        (update-Ensures client credits RefsResolve (λ a d. Unit {0}) by_number f w h
          (change_credits-RefsResolve w.db h by_number f (λ c. refl) (λ c r. r), λ r e. tt))
        λ a w' h' _.
          if_found-Kept
            (client.find_first BridgeRecord (λ r. r.credit_id == event.credit_id)
              w'.db.bridge_records)
            settled w' h'
            λ r found.
              update_bridge-Kept (bridge_by_id r.id)
                (settle_bridge BridgeStatus.outbound (or_text event.tx_hash r.tx_hash)) w' h'
