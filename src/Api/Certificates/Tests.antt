-- ===== src/Api/Certificates/Tests.antt =====
-- A retired credit of the sample database.
use carbon_veritas.Base.{refl, ℕ, String, true, none, some, [], ◌∷◌, arith}
use carbon_veritas.Store.ListClient.{list_client}
use carbon_veritas.Store.Samples.{sample_world, sample_db, forest}
use carbon_veritas.Store.Schema.{CreditStatus, Retirement, Certificate}
use carbon_veritas.Store.Action.{World}
use carbon_veritas.Api.Stellar.{Call}
use carbon_veritas.Api.Certificates.{certificate_metadata, enqueue_batch, compare_hashes, verify}
use carbon_veritas.Api.Certificates.Uniqueness.{HashesUnique, enqueue_batch-HashesUnique}
use carbon_veritas.Api.Certificates.Verdict.{Backed, verify-Backed}

abbrev same : String → String
same s = s

abbrev one : ℕ → String
one n = "1"

abbrev burnt : Retirement
burnt = record {
  id = "r1";
  credit_id = "k1";
  retired_by_id = "ann";
  beneficiary = "Acme";
  reason = "offset";
  accounting_period = "2024";
  tonnes_retired = 100;
  tx_hash = "h";
  ledger_sequence = 9;
  timestamp = 50;
  certificate_hash = none;
}

abbrev burnt_world : World (Unit {0})
burnt_world = record sample_world {
  db = record sample_db {
    credits = record forest { status = CreditStatus.retired } ∷ [];
    retirements = burnt ∷ [];
  };
}

enqueue_batch-HashesUnique_example :
    HashesUnique (enqueue_batch same one list_client "ann" (1 ∷ []) burnt_world).1.db
enqueue_batch-HashesUnique_example =
    enqueue_batch-HashesUnique same one list_client "ann" (1 ∷ []) burnt_world λ hash. omega arith

-- A certificate and its retirement, on a chain that holds the same hash.
abbrev stamped : Retirement
stamped = record burnt { certificate_hash = some "d1" }

abbrev certificate_one : Certificate
certificate_one = record {
  id = "z1";
  user_id = "ann";
  credit_id = "k1";
  tx_hash = some "h";
  metadata = certificate_metadata forest burnt;
  certificate_hash = some "d1";
}

abbrev certified : World (Unit {0})
certified = record burnt_world {
  db = record burnt_world.db { retirements = stamped ∷ []; certificates = certificate_one ∷ [] };
}

abbrev holds : ℕ → Call (Unit {0}) String
holds n c = (some "d1", c)

verify-Backed_example : Backed list_client holds "d1" certified
unfolding verify compare_hashes
verify-Backed_example =
    verify-Backed list_client holds "d1" certified certified
      (record {
        valid = true;
        message = "Certificate verified successfully on-chain";
        certificate = some ("z1", "GANN");
        retirement = some (record forest { status = CreditStatus.retired }, stamped);
      })
      refl refl
