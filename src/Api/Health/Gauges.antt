-- ===== src/Api/Health/Gauges.antt =====
-- The business gauges after a refresh.
use carbon_veritas.Base.{
  ◌≡◌, ◌∙◌, refl, false, ℕ, String, Bool, true, Option, some, List, [], ◌∷◌, length, arith, join,
  str_eq,
}
use carbon_veritas.Store.Rows.{select}
use carbon_veritas.Store.Schema.{Credit, Retirement, Verifier, Offer}
use carbon_veritas.Store.Prisma.{PrismaClient}
use carbon_veritas.Store.Action.{World}
use carbon_veritas.Api.Metrics.{MetricsService, set_gauge, label_key, sort_labels, series}
use carbon_veritas.Api.Metrics.Series.{stored-same, stored-other_name}
use carbon_veritas.Api.Health.{refresh_business_metrics}

length-select-all : {A : Type 0} (rows : List A) → length (select (λ _. true) rows) ≡ length rows
length-select-all [] = refl
length-select-all (x ∷ rows) = ground (arith, length-select-all rows)

set_gauge-same :
    (name : String) (n : ℕ) (m : MetricsService)
    → series name "" (set_gauge name n "" m).gauges ≡ some n
unfolding set_gauge
set_gauge-same name n m = stored-same name "" n m.gauges

set_gauge-other :
    (other name : String) (n : ℕ) (m : MetricsService)
    → str_eq other name ≡ false
    → series name "" (set_gauge other n "" m).gauges ≡ series name "" m.gauges
unfolding set_gauge
set_gauge-other other name n m h = stored-other_name other "" n m.gauges name "" h

module _ (client : PrismaClient) {C : Type 0} (before : String → String → Bool) (w : World C) where
  count-all : (Row : Type 0) (rows : List Row) → client.count Row (λ _. true) rows ≡ length rows
  count-all Row rows = ground (arith, client.count_lem Row (λ _. true) rows, length-select-all rows)

  abbrev gauge : MetricsService → String → Option ℕ
  gauge m name = series name "" (refresh_business_metrics client before w m).gauges

  -- After `refreshBusinessMetrics` the four gauges hold the numbers of credits, retirements,
  -- verifiers and offers in the database, whatever they held before.
  pub refresh_business_metrics-gauges :
      (m : MetricsService)
      → (gauge m "carbonveritas_credits_total" ≡ some (length w.db.credits))
        × (gauge m "carbonveritas_retirements_total" ≡ some (length w.db.retirements))
        × (gauge m "carbonveritas_verifiers_total" ≡ some (length w.db.verifiers))
        × (gauge m "carbonveritas_offers_total" ≡ some (length w.db.offers))
  unfolding refresh_business_metrics label_key sort_labels join
  refresh_business_metrics-gauges m =
      let c = set_gauge "carbonveritas_credits_total" (length w.db.credits) "" m in
      let r = set_gauge "carbonveritas_retirements_total" (length w.db.retirements) "" c in
      let v = set_gauge "carbonveritas_verifiers_total" (length w.db.verifiers) "" r in
      let offers = length w.db.offers in
      rw
        (
          count-all Credit w.db.credits,
          count-all Retirement w.db.retirements,
          count-all Verifier w.db.verifiers,
          count-all Offer w.db.offers,
        )
        (
          set_gauge-other "carbonveritas_offers_total" _ offers v refl
              ∙ set_gauge-other "carbonveritas_verifiers_total" _ _ r refl
              ∙ set_gauge-other "carbonveritas_retirements_total" _ _ c refl
              ∙ set_gauge-same "carbonveritas_credits_total" _ m,
          set_gauge-other "carbonveritas_offers_total" _ offers v refl
              ∙ set_gauge-other "carbonveritas_verifiers_total" _ _ r refl
              ∙ set_gauge-same "carbonveritas_retirements_total" _ c,
          set_gauge-other "carbonveritas_offers_total" _ offers v refl
              ∙ set_gauge-same "carbonveritas_verifiers_total" _ r,
          set_gauge-same "carbonveritas_offers_total" offers v,
        )
