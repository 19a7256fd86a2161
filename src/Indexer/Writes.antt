-- ===== src/Indexer/Writes.antt =====
-- The rows that the event processors create, and the changes that they make to rows: the `data` of
-- the calls of Prisma in indexer/src/processors/*.ts.
use carbon_veritas.Base.{ℕ, String, Bool, Option, none, some, leb, str_eq, if◌then◌else◌}
use carbon_veritas.Store.Schema.{
  pos, User, Credit, Approval, Offer, Trade, Retirement, BridgeRecord, BridgeStatus, CreditStatus,
  OfferStatus,
}
use carbon_veritas.Indexer.Events.{
  CreditSubmittedEvent, CreditMintedEvent, CreditRetiredEvent, OfferCreatedEvent, OfferFilledEvent,
}

-- `prisma.user.upsert` with an empty update.
abbrev pub keep_user : User → User
keep_user u = u

abbrev pub new_user : String → String → User
new_user key id = record { id = id; stellar_pub = key }

-- `event.txHash || record.txHash`
abbrev pub or_text : String → String → String
or_text s t = if str_eq s "" then t else s

-- `event.expiresAt ? new Date(event.expiresAt) : null`
abbrev pub expiry : Option ℕ → Option ℕ
expiry none = none
expiry (some t) = if leb t 0 then none else some t

-- The `data` of the updates and of the upserts.
abbrev pub resubmit : (String → ℕ) → CreditSubmittedEvent → Credit → Credit
resubmit date event c = record c {
  project_id = event.project_id;
  methodology = event.methodology;
  vintage_start = date event.vintage_start;
  vintage_end = date event.vintage_end;
  tonnes = event.tonnes;
  geography = event.geography;
  serial_prefix = event.serial_prefix;
  sdg_flags = pos event.sdg_flags;
  permanence_rating = event.permanence_rating;
  buffer_contribution_pct = event.buffer_contribution_pct;
  additionality_type = event.additionality_type;
  ipfs_hash = event.ipfs_hash;
  status = CreditStatus.pending;
}

abbrev pub new_credit : (String → ℕ) → CreditSubmittedEvent → String → String → Credit
new_credit date event issuer id = record {
  id = id;
  credit_id = event.credit_id;
  project_id = event.project_id;
  methodology = event.methodology;
  vintage_start = date event.vintage_start;
  vintage_end = date event.vintage_end;
  tonnes = event.tonnes;
  geography = event.geography;
  serial_prefix = event.serial_prefix;
  sdg_flags = pos event.sdg_flags;
  permanence_rating = event.permanence_rating;
  buffer_contribution_pct = event.buffer_contribution_pct;
  additionality_type = event.additionality_type;
  ipfs_hash = event.ipfs_hash;
  status = CreditStatus.pending;
  token_id = none;
  issuer_id = issuer;
  owner_id = issuer;
}

abbrev pub minted : CreditMintedEvent → Credit → Credit
minted event c = record c { status = CreditStatus.active; token_id = some event.token_id }

abbrev pub set_credit_status : CreditStatus → Credit → Credit
set_credit_status status c = record c { status = status }

abbrev pub set_owner : String → Credit → Credit
set_owner owner c = record c { owner_id = owner }

abbrev pub reoffer : OfferCreatedEvent → Offer → Offer
reoffer event o = record o {
  price_per_tonne = event.price_per_tonne;
  amount = event.amount;
  currency = event.currency;
  expires_at = expiry event.expires_at;
  status = OfferStatus.active;
}

abbrev pub new_offer : OfferCreatedEvent → String → String → String → Offer
new_offer event credit seller id = record {
  id = id;
  offer_id = event.offer_id;
  credit_id = credit;
  seller_id = seller;
  price_per_tonne = event.price_per_tonne;
  amount = event.amount;
  amount_filled = 0;
  currency = event.currency;
  status = OfferStatus.active;
  expires_at = expiry event.expires_at;
}

-- An `undefined` status leaves the column as it is.
abbrev pub fill : ℕ → Bool → Offer → Offer
fill new_filled is_fully_filled o = record o {
  amount_filled = new_filled;
  status = if is_fully_filled then OfferStatus.filled else o.status;
}

abbrev pub set_offer_status : OfferStatus → Offer → Offer
set_offer_status status o = record o { status = status }

abbrev pub settle_bridge : BridgeStatus → String → BridgeRecord → BridgeRecord
settle_bridge status tx_hash r = record r { status = status; tx_hash = tx_hash }

abbrev pub new_trade : OfferFilledEvent → Offer → User → String → Trade
new_trade event offer buyer id = record {
  id = id;
  offer_id = offer.id;
  buyer_id = buyer.id;
  amount = event.amount;
  total_price = event.total_price;
  credit_id = offer.credit_id;
}

abbrev pub new_retirement : CreditRetiredEvent → Credit → User → String → Retirement
new_retirement event credit retirer id = record {
  id = id;
  credit_id = credit.id;
  retired_by_id = retirer.id;
  beneficiary = event.beneficiary;
  reason = event.reason;
  accounting_period = event.accounting_period;
  tonnes_retired = event.tonnes_retired;
  tx_hash = event.tx_hash;
  ledger_sequence = event.ledger_sequence;
  timestamp = event.timestamp;
  certificate_hash = none;
}

abbrev pub new_approval : Credit → User → Bool → Option String → String → Approval
new_approval credit verifier approved comments id = record {
  id = id;
  credit_id = credit.id;
  verifier_id = verifier.id;
  approved = approved;
  comments = comments;
}
