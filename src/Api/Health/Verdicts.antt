-- ===== src/Api/Health/Verdicts.antt =====
-- Which status the two probes give.
use carbon_veritas.Base.{
  ◌≡◌, refl, ℕ, String, Option, none, some, str_eq, if◌then◌else◌, Bool-cases, inl, inr,
}
use carbon_veritas.Api.Health.{
  HealthStatus, degraded, down, Attempt, done, failed, check_database, check_network,
  overall_status, check_health,
}

-- The status by cases: without the database the service is down, and it is degraded when the
-- probe of a configured network fails.
abbrev pub expected_status : Option String → Attempt (Unit {0}) → Attempt ℕ → HealthStatus
expected_status contract (failed _) ledger = down
expected_status none (done _) ledger = HealthStatus.ok
expected_status (some contract) (done _) (done _) = HealthStatus.ok
expected_status (some contract) (done _) (failed _) =
    if str_eq contract "" then HealthStatus.ok else degraded

-- The service is down exactly when the database fails, and otherwise degraded exactly when a
-- contract is configured, with a text that is not empty, and the network fails; else it is ok.
pub check_health-expected :
    (show : ℕ → String) (contract : Option String) (database : Attempt (Unit {0}))
    (ledger : Attempt ℕ)
    → (check_health show contract database ledger).0 ≡ expected_status contract database ledger
unfolding check_health overall_status check_database check_network
check_health-expected show contract (failed m) ledger = refl
check_health-expected show none (done u) ledger = refl
check_health-expected show (some a) (done u) (done n) = elim (Bool-cases (str_eq a "")) [
  | inl unset ↦ rw unset refl
  | inr set ↦ rw set refl
]
check_health-expected show (some a) (done u) (failed m) = elim (Bool-cases (str_eq a "")) [
  | inl unset ↦ rw unset refl
  | inr set ↦ rw set refl
]
