-- ===== src/Api/Health.antt =====
-- `HealthService`, api/src/observability/health.service.ts. What the probes of the database and of
-- the network answer are arguments; a message stands for an exception.
pub mod Verdicts
pub mod Gauges
mod Tests
use carbon_veritas.Base.{
  ℕ, String, Bool, true, false, Option, none, some, List, [], ◌∷◌, str_eq, if◌then◌else◌, glue,
}
use carbon_veritas.Store.Rows.{find?, exists?}
use carbon_veritas.Store.Schema.{Credit, Retirement, Verifier, Offer}
use carbon_veritas.Store.Prisma.{PrismaClient}
use carbon_veritas.Store.Action.{World}
use carbon_veritas.Api.Metrics.{MetricsService, set_gauge, label_key}

pub data CheckStatus : Type 0 where
  ok error : CheckStatus

pub data HealthStatus : Type 0 where
  ok degraded down : HealthStatus

pub record HealthCheckResult : Type 0 where
  pub name : String
  pub status : CheckStatus
  pub detail : Option String

abbrev pub is_error : CheckStatus → Bool
is_error CheckStatus.ok = false
is_error CheckStatus.error = true

-- An attempt that succeeds with a value, or throws with a message.
pub data Attempt (A : Type 0) : Type 0 where
  done : A → Attempt A
  failed : String → Attempt A

unfoldable pub check_database : Attempt (Unit {0}) → HealthCheckResult
check_database (done _) = record { name = "database"; status = CheckStatus.ok; detail = none }
check_database (failed message) = record {
  name = "database";
  status = CheckStatus.error;
  detail = some message;
}

-- `contract` is the configured CREDIT_REGISTRY_CONTRACT; the network answers a ledger's sequence.
unfoldable pub check_network : (ℕ → String) → Option String → Attempt ℕ → HealthCheckResult
check_network show contract ledger =
    let unset : HealthCheckResult = record {
      name = "stellar-network";
      status = CheckStatus.ok;
      detail = some "not configured";
    } in
    let probed : HealthCheckResult = elim ledger [
      | done sequence ↦ record {
        name = "stellar-network";
        status = CheckStatus.ok;
        detail = some (glue "ledger " (show sequence));
      }
      | failed message ↦ record {
        name = "stellar-network";
        status = CheckStatus.error;
        detail = some message;
      }
    ] in
    elim contract [ none ↦ unset | some address ↦ if str_eq address "" then unset else probed ]

-- `db?.status === 'error' ? 'down' : hasError ? 'degraded' : 'ok'`
unfoldable pub overall_status : List HealthCheckResult → HealthStatus
overall_status checks =
    let has_error = exists? (λ c. is_error c.status) checks in
    let rest = if has_error then degraded else HealthStatus.ok in
    elim (find? (λ c. str_eq c.name "database") checks) [
      | none ↦ rest
      | some db ↦ if is_error db.status then down else rest
    ]

unfoldable pub check_health :
    (ℕ → String)
    → Option String
    → Attempt (Unit {0})
    → Attempt ℕ
    → HealthStatus × List HealthCheckResult
check_health show contract database ledger =
    let checks = check_database database ∷ check_network show contract ledger ∷ [] in
    (overall_status checks, checks)

-- `refreshBusinessMetrics`, when the four counts succeed.
unfoldable pub refresh_business_metrics :
    PrismaClient
    → {C : Type 0} → (String → String → Bool)
    → World C
    → MetricsService
    → MetricsService
refresh_business_metrics client before w m =
    let unlabelled = label_key before [] in
    let credits = client.count Credit (λ _. true) w.db.credits in
    let retirements = client.count Retirement (λ _. true) w.db.retirements in
    let verifiers = client.count Verifier (λ _. true) w.db.verifiers in
    let offers = client.count Offer (λ _. true) w.db.offers in
    set_gauge "carbonveritas_offers_total" offers unlabelled (
      set_gauge "carbonveritas_verifiers_total" verifiers unlabelled (
        set_gauge "carbonveritas_retirements_total" retirements unlabelled
          (set_gauge "carbonveritas_credits_total" credits unlabelled m)))
