-- ===== src/Api/Bridge.antt =====
-- `BridgeService`, api/src/bridge/bridge.service.ts: credits that come from and go back to a legacy
-- registry.
pub mod Outbound
use carbon_veritas.Base.{
  String, ℕ, Bool, true, false, not, Option, none, some, List, [], ◌∷◌, ◌==◌, str_eq,
}
use carbon_veritas.Store.Schema.{
  BridgeRecord, BridgeStatus, Credit, credit_by_number, user_by_id, bridge_by_id,
}
use carbon_veritas.Store.Prisma.{PrismaClient}
use carbon_veritas.Store.Action.{
  Action, pure, throw_if, or_throw, ◌>>=◌, ◌>>◌, users, credits, bridge_records, find_unique,
  find_first, create, update, not_found, bad_request, forbidden,
}
use carbon_veritas.Api.Stellar.{Stellar, BridgeReceipt, call}

-- The fields of the request, but for the metadata of the credit.
pub record BridgeInDto : Type 0 where
  pub source_registry : String
  pub source_serial : String
  pub leaf : String
  pub merkle_proof : List String
  pub merkle_root : String

abbrev pub is_outbound : BridgeStatus → Bool
is_outbound BridgeStatus.outbound = true
is_outbound _ = false

abbrev pub inbound_record : BridgeInDto → BridgeReceipt → String → String → BridgeRecord
inbound_record dto receipt user_id id = record {
  id = id;
  credit_id = receipt.credit_id;
  source_registry = dto.source_registry;
  source_serial = dto.source_serial;
  merkle_root = dto.merkle_root;
  status = BridgeStatus.inbound;
  bridger_id = user_id;
  tx_hash = receipt.tx_hash;
}

abbrev pub send_out : String → BridgeRecord → BridgeRecord
send_out tx_hash r = record r { status = BridgeStatus.outbound; tx_hash = tx_hash }

module _ (client : PrismaClient) {C : Type 0} (stellar : Stellar C) where
  unfoldable pub bridge_in : String → String → BridgeInDto → Action C BridgeRecord
  bridge_in user_id wallet dto = do
    user ← find_unique client users (user_by_id user_id)
    known ← or_throw user (not_found "User not found")
    proof_ok ← call (stellar.verify_proof dto.leaf dto.merkle_proof dto.merkle_root)
    throw_if (not proof_ok) (bad_request "Merkle proof does not verify against the provided root")
    receipt ← call (
        stellar.bridge_in wallet dto.source_registry dto.source_serial (dto.leaf ∷ dto.merkle_proof)
          dto.merkle_root)
    create client bridge_records (inbound_record dto receipt user_id)

  unfoldable pub bridge_out : String → String → ℕ → Action C BridgeRecord
  bridge_out user_id wallet credit_id = do
    found ← find_unique client credits (credit_by_number credit_id)
    credit ← or_throw found (not_found "Credit not found")
    throw_if (not (str_eq credit.owner_id user_id)) (forbidden "You do not own this credit")
    imported ← find_first client bridge_records (λ r. r.credit_id == credit_id)
    entry ←
        or_throw imported
          (bad_request "Only credits imported from a legacy registry can be bridged out")
    throw_if (is_outbound entry.status) (bad_request "Credit has already been bridged out")
    tx_hash ← call (stellar.bridge_out wallet credit_id)
    update client bridge_records (bridge_by_id entry.id) (send_out tx_hash)
