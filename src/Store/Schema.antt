-- ===== src/Store/Schema.antt =====
-- The tables of api/prisma/schema.prisma that the modelled code uses. A row's identifier (a cuid)
-- and a Stellar address are texts. Dates are milliseconds, amounts and prices are whole numbers of
-- a smallest unit. Columns that no modelled code reads or writes are left out.
use carbon_veritas.Base.{ℕ, String, Bool, ◌&&◌, Option, List, ◌==◌, str_eq}

-- Whole numbers: `negsuc n` is -(n + 1).
pub data ℤ : Type 0 where
  pos : ℕ → ℤ
  negsuc : ℕ → ℤ

pub data CreditStatus : Type 0 where
  pending active retired rejected bridged : CreditStatus

pub data OfferStatus : Type 0 where
  active filled cancelled expired : OfferStatus

pub data VerifierStatus : Type 0 where
  pending active slashed unregistered : VerifierStatus

pub data BridgeStatus : Type 0 where
  inbound outbound : BridgeStatus

pub record User : Type 0 where
  pub id : String
  pub stellar_pub : String

pub record Credit : Type 0 where
  pub id : String
  pub credit_id : ℕ
  pub project_id : String
  pub methodology : String
  pub vintage_start : ℕ
  pub vintage_end : ℕ
  pub tonnes : ℕ
  pub geography : String
  pub serial_prefix : String
  pub sdg_flags : ℤ
  pub permanence_rating : ℕ
  pub buffer_contribution_pct : ℕ
  pub additionality_type : ℕ
  pub ipfs_hash : String
  pub status : CreditStatus
  pub token_id : Option String
  pub issuer_id : String
  pub owner_id : String

pub record Approval : Type 0 where
  pub id : String
  pub credit_id : String
  pub verifier_id : String
  pub approved : Bool
  pub comments : Option String

pub record Verifier : Type 0 where
  pub id : String
  pub user_id : String
  pub status : VerifierStatus
  pub stake : ℕ
  pub reputation : ℕ
  pub heartbeat_at : Option ℕ

pub record Offer : Type 0 where
  pub id : String
  pub offer_id : ℕ
  pub credit_id : String
  pub seller_id : String
  pub price_per_tonne : ℕ
  pub amount : ℕ
  pub amount_filled : ℕ
  pub currency : String
  pub status : OfferStatus
  pub expires_at : Option ℕ

pub record Trade : Type 0 where
  pub id : String
  pub offer_id : String
  pub buyer_id : String
  pub amount : ℕ
  pub total_price : ℕ
  pub credit_id : String

pub record Retirement : Type 0 where
  pub id : String
  pub credit_id : String
  pub retired_by_id : String
  pub beneficiary : String
  pub reason : String
  pub accounting_period : String
  pub tonnes_retired : ℕ
  pub tx_hash : String
  pub ledger_sequence : ℕ
  pub timestamp : ℕ
  pub certificate_hash : Option String

pub record BridgeRecord : Type 0 where
  pub id : String
  pub credit_id : ℕ
  pub source_registry : String
  pub source_serial : String
  pub merkle_root : String
  pub status : BridgeStatus
  pub bridger_id : String
  pub tx_hash : String

pub record Challenge : Type 0 where
  pub id : String
  pub wallet : String
  pub transaction : String
  pub expires_at : ℕ
  pub used_at : Option ℕ

-- The JSON column of a certificate.
pub record CertificateMetadata : Type 0 where
  pub credit_id : ℕ
  pub project_id : String
  pub methodology : String
  pub geography : String
  pub vintage_start : ℕ
  pub vintage_end : ℕ
  pub tonnes : ℕ
  pub serial_prefix : String
  pub beneficiary : String
  pub reason : String
  pub accounting_period : String
  pub tonnes_retired : ℕ
  pub retirement_date : ℕ

pub record Certificate : Type 0 where
  pub id : String
  pub user_id : String
  pub credit_id : String
  pub tx_hash : Option String
  pub metadata : CertificateMetadata
  pub certificate_hash : Option String

pub record Webhook : Type 0 where
  pub id : String
  pub user_id : String
  pub url : String
  pub secret : String
  pub events : List String
  pub active : Bool

pub record Db : Type 0 where
  pub users : List User
  pub credits : List Credit
  pub approvals : List Approval
  pub verifiers : List Verifier
  pub offers : List Offer
  pub trades : List Trade
  pub retirements : List Retirement
  pub bridge_records : List BridgeRecord
  pub challenges : List Challenge
  pub certificates : List Certificate
  pub webhooks : List Webhook

-- The conditions of the `where` clauses on unique columns.
abbrev pub user_by_pub : String → User → Bool
user_by_pub key r = str_eq r.stellar_pub key

abbrev pub user_by_id : String → User → Bool
user_by_id key r = str_eq r.id key

abbrev pub credit_by_number : ℕ → Credit → Bool
credit_by_number n r = r.credit_id == n

abbrev pub credit_by_id : String → Credit → Bool
credit_by_id key r = str_eq r.id key

abbrev pub offer_by_number : ℕ → Offer → Bool
offer_by_number n r = r.offer_id == n

abbrev pub bridge_by_source : String → String → BridgeRecord → Bool
bridge_by_source registry serial r =
    str_eq r.source_registry registry && str_eq r.source_serial serial

abbrev pub bridge_by_id : String → BridgeRecord → Bool
bridge_by_id key r = str_eq r.id key

abbrev pub verifier_by_id : String → Verifier → Bool
verifier_by_id key r = str_eq r.id key

abbrev pub challenge_by_id : String → Challenge → Bool
challenge_by_id key r = str_eq r.id key

abbrev pub certificate_by_id : String → Certificate → Bool
certificate_by_id key r = str_eq r.id key

abbrev pub retirement_by_id : String → Retirement → Bool
retirement_by_id key r = str_eq r.id key

abbrev pub webhook_by_id : String → Webhook → Bool
webhook_by_id key r = str_eq r.id key
