-- ===== src/Indexer/Processors/Effects.antt =====
-- What the processors write, on the branch where the records that they look for exist.
pub mod Credits
use carbon_veritas.Base.{
  ◌≡◌, String, false, Option, none, some, List, [], ◌∷◌, ◌++◌, Option-cases, inl, inr, eq_refl,
}
use carbon_veritas.Store.Rows.{find?, modify, find?-modify_self, find?-append_none, find?-holds}
use carbon_veritas.Store.Schema.{
  pos, User, Approval, Retirement, CreditStatus, user_by_pub, credit_by_number,
}
use carbon_veritas.Store.Prisma.{PrismaClient}
use carbon_veritas.Store.Action.{retirements, approvals}
use carbon_veritas.Indexer.Events.{CreditRetiredEvent, CreditRejectedEvent, CreditSubmittedEvent}
use carbon_veritas.Indexer.Writes.{
  new_retirement, new_approval, keep_user, new_user, set_credit_status, resubmit, new_credit,
}
use carbon_veritas.Indexer.Processors.{
  process_credit_retired, process_credit_rejected, process_credit_submitted,
}

module _ (client : PrismaClient) where
  -- After an upsert of a user by address that user exists.
  pub upsert_user_lem :
      (key id : String) (table : List User)
      → (u : User) × (rows : List User) × (client.upsert User
            (user_by_pub key)
            keep_user
            (new_user key id)
            table
          ≡ (u, rows))
        × (find? (user_by_pub key) rows ≡ some u)
  upsert_user_lem key id table = elim (Option-cases (find? (user_by_pub key) table)) [
    | inl new ↦
        let u = new_user key id in
        (
          u,
          table ++ u ∷ [],
          client.upsert_missing User (user_by_pub key) keep_user u table new,
          rw (find?-append_none (user_by_pub key) table (u ∷ []) new, eq_refl key),
        )
    | inr (u, known) ↦ (
      u,
      modify (user_by_pub key) keep_user table,
      client.upsert_found User (user_by_pub key) keep_user (new_user key id) table u known,
      find?-modify_self (user_by_pub key) keep_user table u known
          (find?-holds (user_by_pub key) table u known),
    )
  ]
