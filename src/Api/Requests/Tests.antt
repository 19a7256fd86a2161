-- ===== src/Api/Requests/Tests.antt =====
-- A day of requests on the sample database.
use carbon_veritas.Base.{ℕ, String, List, [], ◌∷◌, none}
use carbon_veritas.Store.Samples.{sample_world}
use carbon_veritas.Api.Samples.{sample_service}
use carbon_veritas.Api.Requests.{Request, approve, buy, retire, handle_all}
use carbon_veritas.Api.Requests.Lifecycle.{Evolves}
use carbon_veritas.Api.Requests.Lifecycle.Refines.{handle_all-Evolves}

-- A credit is approved and another one retired by its owner; one token has no user.
abbrev day : List (ℕ × String × Request)
day =
    (5, "bob", approve 2 none)
    ∷ (6, "nobody", buy 1 70)
    ∷ (
      7,
      "ann",
      retire 1 (record {
        beneficiary = "Acme";
        reason = "offset";
        accounting_period = "2024";
        tonnes_retired = none;
      }),
    )
    ∷ []

handle_all-Evolves_example :
    Evolves sample_world.db.credits (handle_all sample_service day sample_world).db.credits
handle_all-Evolves_example = handle_all-Evolves sample_service day sample_world
