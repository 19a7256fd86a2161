-- ===== src/Api/Samples.antt =====
-- A chain for the tests of the services.
use carbon_veritas.Base.{ℕ, String, true, false, some}
use carbon_veritas.Store.ListClient.{list_client}
use carbon_veritas.Api.Stellar.{Stellar, RetireReceipt}
use carbon_veritas.Api.Requests.{Service}

abbrev pub receipt : RetireReceipt
receipt = record { tx_hash = "tx"; ledger_sequence = 9 }

-- A chain that agrees to everything.
abbrev pub agreeing : Stellar (Unit {0})
agreeing = record {
  create_offer = λ wallet credit price amount currency expiry c. (some 1, c);
  buy_credits = λ wallet offer amount c. (some true, c);
  transfer_credit = λ from to credit c. (some true, c);
  cancel_offer = λ caller offer c. (some true, c);
  submit_credit = λ wallet project hash c. (some "tx", c);
  approve_and_mint = λ wallet credit comments c. (some (some "tx"), c);
  reject_credit = λ wallet credit reason c. (some true, c);
  is_retired = λ credit c. (some false, c);
  retire = λ wallet credit reason beneficiary period c. (some receipt, c);
  register_verifier = λ wallet stake c. (some true, c);
  verify_proof = λ leaf proof root c. (some true, c);
  bridge_in =
      λ wallet registry serial proof root c. (some (record { credit_id = 7; tx_hash = "tx" }), c);
  bridge_out = λ wallet credit c. (some "tx", c);
  configure_revenue_split = λ wallet project shares c. (some "tx", c);
  distribute_revenue_split = λ wallet project asset amount c. (some "tx", c);
}

abbrev pub no_date : String → ℕ
no_date s = 0

abbrev pub sample_service : Service (Unit {0})
sample_service = record {
  client = list_client;
  stellar = agreeing;
  pin_json = λ dto c. (some "Qm", c);
  upper = λ s. s;
  date = no_date;
  number = λ s. some 0;
  threshold = 1;
  quorum = 1;
}
