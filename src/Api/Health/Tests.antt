-- ===== src/Api/Health/Tests.antt =====
-- A network that does not answer.
use carbon_veritas.Base.{◌≡◌, refl, ℕ, String, some}
use carbon_veritas.Api.Health.{degraded, done, failed, check_health}
use carbon_veritas.Api.Health.Verdicts.{expected_status, check_health-expected}

abbrev one : ℕ → String
one n = "1"

check_health-expected_example :
    (check_health one (some "C") (done tt) (failed "timeout")).0
    ≡ expected_status (some "C") (done tt) (failed "timeout")
check_health-expected_example = check_health-expected one (some "C") (done tt) (failed "timeout")

silent_network : expected_status (some "C") (done tt) (failed "timeout") ≡ degraded
silent_network = refl
