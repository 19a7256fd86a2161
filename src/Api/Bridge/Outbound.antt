-- ===== src/Api/Bridge/Outbound.antt =====
-- What bridging out requires.
use carbon_veritas.Base.{ℕ, ◌≡◌, ◌⊎◌, String, some, arith, ◌==◌, eq_iff}
use carbon_veritas.Store.Rows.{find?, modify}
use carbon_veritas.Store.Schema.{BridgeRecord, BridgeStatus, Credit, credit_by_number, bridge_by_id}
use carbon_veritas.Store.Prisma.{PrismaClient}
use carbon_veritas.Store.Action.{World}
use carbon_veritas.Api.Stellar.{Stellar}
use carbon_veritas.Api.Bridge.{bridge_out, send_out}

module _ (client : PrismaClient) {C : Type 0} (stellar : Stellar C) where
  -- For a credit and a bridge record of it that exist and are found by their keys, and a chain
  -- that sends the credit out, `bridgeOut` either changes no table, or: the user owns the credit
  -- and the record was inbound; then that record becomes outbound with the hash of the
  -- transaction and the credits stay as they are.
  pub bridge_out-guarded :
      (user_id wallet : String) (credit_id : ℕ) (w : World C) (c : Credit) (r : BridgeRecord)
      (tx_hash : String)
      → find? (credit_by_number credit_id) w.db.credits ≡ some c
      → client.find_first BridgeRecord (λ b. b.credit_id == credit_id) w.db.bridge_records ≡ some r
      → find? (bridge_by_id r.id) w.db.bridge_records ≡ some r
      → (stellar.bridge_out wallet credit_id w.chain).0 ≡ some tx_hash
      → let after = (bridge_out client stellar user_id wallet credit_id w).1.db in
        (after ≡ w.db)
        ⊎ ((c.owner_id ≡ user_id)
            × (r.status ≡ BridgeStatus.inbound)
            × (after.bridge_records
                ≡ modify
                    (bridge_by_id r.id)
                    (λ b. record b { status = BridgeStatus.outbound; tx_hash = tx_hash })
                    w.db.bridge_records)
            × (after.credits ≡ w.db.credits))
  unfolding bridge_out
  bridge_out-guarded user_id wallet credit_id w c r tx_hash found imported known sent = ground (
    arith,
    eq_iff c.owner_id user_id,
    client.find_unique_lem Credit (credit_by_number credit_id) w.db.credits,
    client.update_found BridgeRecord (bridge_by_id r.id) (send_out tx_hash) w.db.bridge_records r
        known,
  )
