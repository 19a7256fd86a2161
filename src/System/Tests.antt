-- ===== src/System/Tests.antt =====
-- A request, then a batch of events, on the sample database.
use carbon_veritas.Base.{[], ◌∷◌, refl, true, none, some}
use carbon_veritas.Store.References.{RefsResolve}
use carbon_veritas.Store.Samples.{sample_world, sample_db}
use carbon_veritas.Indexer.Events.{credit_minted}
use carbon_veritas.Indexer.Sync.{process_all}
use carbon_veritas.Api.Requests.{buy, handle}
use carbon_veritas.Store.Action.{World}
use carbon_veritas.Api.Auth.{keypair, exchange_token}
use carbon_veritas.Api.Certificates.{enqueue_batch}
use carbon_veritas.Api.Samples.{sample_service}
use carbon_veritas.System.{Libraries, request, exchange, certificates, batch, here, then}
use carbon_veritas.System.Consistency.{Reaches-RefsResolve}

sample-Resolves : RefsResolve sample_db
sample-Resolves = record {
  credits = ((refl, refl), ((refl, refl), tt));
  approvals = tt;
  offers = ((refl, refl), tt);
  trades = tt;
  retirements = tt;
}

-- A stranger with a challenge.
abbrev asked_world : World (Unit {0})
asked_world = record sample_world {
  db = record sample_db {
    challenges =
        record { id = "e1"; wallet = "GEVE"; transaction = "x"; expires_at = 300; used_at = none }
        ∷ [];
  };
}

asked-Resolves : RefsResolve asked_world.db
asked-Resolves = record {
  credits = sample-Resolves.credits;
  approvals = tt;
  offers = sample-Resolves.offers;
  trades = tt;
  retirements = tt;
}

abbrev libraries : Libraries
libraries = record {
  auth = record {
    is_valid_public_key = λ wallet. true;
    build_challenge = λ server wallet nonce. "xdr";
    verify_signers = λ signed server wallet. some (wallet ∷ []);
    read_challenge = λ signed server. some "GEVE";
    from_xdr = λ signed. some none;
  };
  key = keypair "S";
  sign = λ c. c.sub;
  sha256 = λ s. s;
  show = λ n. "1";
}

Reaches-RefsResolve_example :
    let minted =
      credit_minted (record { credit_id = 2; token_id = "t2"; timestamp = 9; tx_hash = "h" }) in
    let signed_up =
      (exchange_token sample_service.client libraries.auth libraries.key libraries.sign 6 "GEVE"
        "signed" "e1"
        (handle sample_service 5 "bob" (buy 1 70) asked_world)).1 in
    let certified =
      (enqueue_batch libraries.sha256 libraries.show sample_service.client "ann"
        (1 ∷ [])
        signed_up).1 in
    RefsResolve (process_all sample_service.client sample_service.date (minted ∷ []) certified).1.db
Reaches-RefsResolve_example =
    Reaches-RefsResolve sample_service libraries
      (then
        (then (then (then here (request 5 "bob" (buy 1 70))) (exchange 6 "GEVE" "signed" "e1"))
          (certificates "ann" (1 ∷ [])))
        (batch (
          credit_minted (record { credit_id = 2; token_id = "t2"; timestamp = 9; tx_hash = "h" })
          ∷ [])))
      asked-Resolves
