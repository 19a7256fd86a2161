-- ===== src/Indexer/Sync/Integrity/Credits.antt =====
-- The events about credits keep the relations between the tables.
use carbon_veritas.Base.{ℕ, refl, String, false, some}
use carbon_veritas.Store.Schema.{User, Credit, CreditStatus, credit_by_number}
use carbon_veritas.Store.Prisma.{PrismaClient}
use carbon_veritas.Store.Action.{
  World, pure, ◌>>◌, credits, approvals, retirements, update, create, upsert,
}
use carbon_veritas.Store.Action.Rules.{>>-Ensures, >>=-Ensures, create-Ensures, upsert-Ensures}
use carbon_veritas.Store.References.{
  RefsResolve, add_credit-RefsResolve, change_credits-RefsResolve, add_retirement-RefsResolve,
}
use carbon_veritas.Indexer.Events.{
  CreditSubmittedEvent, CreditApprovedEvent, CreditRejectedEvent, CreditTransferredEvent,
  CreditRetiredEvent, CreditMintedEvent,
}
use carbon_veritas.Indexer.Writes.{
  new_credit, resubmit, minted, new_approval, new_retirement, set_owner, set_credit_status,
}
use carbon_veritas.Indexer.Processors.{
  upsert_user, process_credit_submitted, process_credit_approved, process_credit_minted,
  process_credit_rejected, process_credit_transferred, process_credit_retired,
}
use carbon_veritas.Indexer.Sync.Integrity.Steps.{
  Kept, AfterUser, if_found-Kept, upsert_user-Ensures, find-CreditKnown, last-Kept,
  update_credit-Kept, add_approval-Ensures,
}

module _ (client : PrismaClient) (date : String → ℕ) {C : Type 0} where
  pub process_credit_submitted-Kept :
      (event : CreditSubmittedEvent) (w : World C)
      → RefsResolve w.db
      → Kept (process_credit_submitted client date event w)
  unfolding process_credit_submitted
  process_credit_submitted-Kept event w h =
      let by_number = credit_by_number event.credit_id in
      let put = λ (u : User).
        upsert client {C = C} credits by_number (resubmit date event)
          (new_credit date event u.id) in
      >>=-Ensures RefsResolve (AfterUser w) (λ a d. Unit {0}) (upsert_user client date event.issuer)
        (λ u. put u >> pure tt) w (upsert_user-Ensures client date event.issuer w h)
        λ u w' h' after. last-Kept client date (put u) w' (
          upsert-Ensures client credits RefsResolve (λ a d. Unit {0}) by_number
            (resubmit date event) (new_credit date event u.id) w'
            (
              change_credits-RefsResolve w'.db h' by_number (resubmit date event) (λ c. refl)
                  (λ c r. r),
              λ r e. tt,
            )
            (
              add_credit-RefsResolve w'.db h' (new_credit date event u.id (client.cuid w'.drawn))
                  (after.0, after.0),
              tt,
            ))

  pub process_credit_minted-Kept :
      (event : CreditMintedEvent) (w : World C)
      → RefsResolve w.db
      → Kept (process_credit_minted client date event w)
  unfolding process_credit_minted
  process_credit_minted-Kept event w h =
      update_credit-Kept client date (credit_by_number event.credit_id) (minted event) w h
        (λ c. refl) (λ c r. r)

  pub process_credit_transferred-Kept :
      (event : CreditTransferredEvent) (w : World C)
      → RefsResolve w.db
      → Kept (process_credit_transferred client date event w)
  unfolding process_credit_transferred
  process_credit_transferred-Kept event w h =
      let by_number = credit_by_number event.credit_id in
      >>=-Ensures RefsResolve (AfterUser w) (λ a d. Unit {0}) (upsert_user client date event.to)
        (λ u. update client credits by_number (set_owner u.id) >> pure tt) w
        (upsert_user-Ensures client date event.to w h)
        λ u w' h' after.
          update_credit-Kept client date by_number (set_owner u.id) w' h' (λ c. refl)
            (λ c r. (after.0, r.1))

  pub process_credit_approved-Kept :
      (event : CreditApprovedEvent) (w : World C)
      → RefsResolve w.db
      → Kept (process_credit_approved client date event w)
  unfolding process_credit_approved
  process_credit_approved-Kept event w h =
      let by_number = credit_by_number event.credit_id in
      if_found-Kept (client.find_unique Credit by_number w.db.credits) _ w h λ c found.
        >>=-Ensures RefsResolve (AfterUser w) (λ a d. Unit {0})
          (upsert_user client date event.verifier)
          (λ u. create client approvals (new_approval c u event.approved event.comments) >> pure tt)
          w (upsert_user-Ensures client date event.verifier w h)
          λ u w' h' after.
            last-Kept client date
              (create client approvals (new_approval c u event.approved event.comments)) w'
              (add_approval-Ensures client date c u event.approved event.comments w' h' after.0
                (rw after.1 (find-CreditKnown client event.credit_id w.db c found)))

  pub process_credit_rejected-Kept :
      (event : CreditRejectedEvent) (w : World C)
      → RefsResolve w.db
      → Kept (process_credit_rejected client date event w)
  unfolding process_credit_rejected
  process_credit_rejected-Kept event w h =
      let by_number = credit_by_number event.credit_id in
      let last =
        update client {C = C} credits by_number (set_credit_status CreditStatus.rejected)
        >> pure tt in
      if_found-Kept (client.find_unique Credit by_number w.db.credits) _ w h λ c found.
        >>=-Ensures RefsResolve (AfterUser w) (λ a d. Unit {0})
          (upsert_user client date event.verifier)
          (λ u. create client approvals (new_approval c u false (some event.reason)) >> last) w
          (upsert_user-Ensures client date event.verifier w h)
          λ u w' h' after.
            >>-Ensures RefsResolve (λ a d. Unit {0}) (λ a d. Unit {0})
              (create client approvals (new_approval c u false (some event.reason))) last w'
              (add_approval-Ensures client date c u false (some event.reason) w' h' after.0
                (rw after.1 (find-CreditKnown client event.credit_id w.db c found)))
              λ a w'' h'' _.
                update_credit-Kept client date by_number (set_credit_status CreditStatus.rejected)
                  w'' h'' (λ c. refl) (λ c r. r)

  pub process_credit_retired-Kept :
      (event : CreditRetiredEvent) (w : World C)
      → RefsResolve w.db
      → Kept (process_credit_retired client date event w)
  unfolding process_credit_retired
  process_credit_retired-Kept event w h =
      let by_number = credit_by_number event.credit_id in
      let last =
        update client {C = C} credits by_number (set_credit_status CreditStatus.retired)
        >> pure tt in
      if_found-Kept (client.find_unique Credit by_number w.db.credits) _ w h λ c found.
        >>=-Ensures RefsResolve (AfterUser w) (λ a d. Unit {0})
          (upsert_user client date event.retired_by)
          (λ u. create client retirements (new_retirement event c u) >> last) w
          (upsert_user-Ensures client date event.retired_by w h)
          λ u w' h' after.
            >>-Ensures RefsResolve (λ a d. Unit {0}) (λ a d. Unit {0})
              (create client retirements (new_retirement event c u)) last w'
              (create-Ensures client retirements RefsResolve (λ a d. Unit {0})
                (new_retirement event c u) w' h'
                (
                  add_retirement-RefsResolve w'.db h'
                      (new_retirement event c u (client.cuid w'.drawn))
                      (rw after.1 (find-CreditKnown client event.credit_id w.db c found)),
                  tt,
                ))
              λ a w'' h'' _.
                update_credit-Kept client date by_number (set_credit_status CreditStatus.retired)
                  w'' h'' (λ c. refl) (λ c r. r)
