-- ===== src/Store/Samples.antt =====
-- A small database for the tests.
use carbon_veritas.Base.{none, some, [], ◌∷◌}
use carbon_veritas.Store.Schema.{
  pos, User, Credit, Verifier, Offer, Db, CreditStatus, OfferStatus, VerifierStatus,
}
use carbon_veritas.Store.Action.{World}

abbrev pub ann : User
ann = record { id = "ann"; stellar_pub = "GANN" }

abbrev pub bob : User
bob = record { id = "bob"; stellar_pub = "GBOB" }

abbrev pub forest : Credit
forest = record {
  id = "k1";
  credit_id = 1;
  project_id = "AMZ";
  methodology = "VM0007";
  vintage_start = 10;
  vintage_end = 20;
  tonnes = 100;
  geography = "BR";
  serial_prefix = "AMZ-VM0007-";
  sdg_flags = pos 1;
  permanence_rating = 50;
  buffer_contribution_pct = 10;
  additionality_type = 0;
  ipfs_hash = "Qm";
  status = CreditStatus.active;
  token_id = some "t";
  issuer_id = "ann";
  owner_id = "ann";
}

abbrev pub solar : Credit
solar = record forest { id = "k2"; credit_id = 2; status = CreditStatus.pending; token_id = none }

abbrev pub listing : Offer
listing = record {
  id = "o1";
  offer_id = 1;
  credit_id = "k1";
  seller_id = "ann";
  price_per_tonne = 12;
  amount = 100;
  amount_filled = 30;
  currency = "USDC";
  status = OfferStatus.active;
  expires_at = none;
}

abbrev pub auditor : Verifier
auditor = record {
  id = "v1";
  user_id = "bob";
  status = VerifierStatus.active;
  stake = 500;
  reputation = 0;
  heartbeat_at = none;
}

abbrev pub sample_db : Db
sample_db = record {
  users = ann ∷ bob ∷ [];
  credits = forest ∷ solar ∷ [];
  approvals = [];
  verifiers = auditor ∷ [];
  offers = listing ∷ [];
  trades = [];
  retirements = [];
  bridge_records = [];
  challenges = [];
  certificates = [];
  webhooks = [];
}

abbrev pub sample_world : World (Unit {0})
sample_world = record { db = sample_db; drawn = 0; chain = tt; emitted = [] }
