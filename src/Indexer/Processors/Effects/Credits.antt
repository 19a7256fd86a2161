-- ===== src/Indexer/Processors/Effects/Credits.antt =====
-- What the processors of a credit's submission, rejection and retirement write.
use carbon_veritas.Base.{ℕ, String, Option}
use carbon_veritas.Store.Schema.{pos, Credit, CreditStatus}
use carbon_veritas.Indexer.Events.{CreditSubmittedEvent}

-- The pending credit with the data of a submission, and what the submission does not say.
abbrev submitted_credit :
    (String → ℕ) → CreditSubmittedEvent → ℕ → String → String → Option String → String → Credit
submitted_credit date event number issuer id token owner = record {
  id = id;
  credit_id = number;
  project_id = event.project_id;
  methodology = event.methodology;
  vintage_start = date event.vintage_start;
  vintage_end = date event.vintage_end;
  tonnes = event.tonnes;
  geography = event.geography;
  serial_prefix = event.serial_prefix;
  sdg_flags = pos event.sdg_flags;
  permanence_rating = event.permanence_rating;
  buffer_contribution_pct = event.buffer_contribution_pct;
  additionality_type = event.additionality_type;
  ipfs_hash = event.ipfs_hash;
  status = CreditStatus.pending;
  token_id = token;
  issuer_id = issuer;
  owner_id = owner;
}
