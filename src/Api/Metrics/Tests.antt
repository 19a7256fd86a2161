-- ===== src/Api/Metrics/Tests.antt =====
-- Observations of two series.
use carbon_veritas.Base.{◌≡◌, refl, String, Bool, true, join, some, List, [], ◌∷◌}
use carbon_veritas.Api.Metrics.{no_metrics, series, label_key, sort_labels, insert_label}
use carbon_veritas.Api.Metrics.Counts.{
  Observation, keyed, observe_all, values_of, summary_of, histogram_counts,
}

abbrev calls : List Observation
calls =
    ("http", ("route", "a") ∷ [], 70)
    ∷ ("http", ("route", "b") ∷ [], 5)
    ∷ ("http", ("route", "a") ∷ [], 300)
    ∷ []

-- No two labels are compared here.
abbrev in_order : String → String → Bool
in_order a b = true

histogram_counts_example :
    series "http" "route=\"a\"" (observe_all in_order calls no_metrics).histograms
    ≡ summary_of (values_of "http" "route=\"a\"" (keyed in_order calls) [])
histogram_counts_example = histogram_counts in_order "http" "route=\"a\"" calls

calls_summed :
    summary_of (values_of "http" "route=\"a\"" (keyed in_order calls) [])
    ≡ some (record {
      sum = 370;
      count = 2;
      buckets =
          (10, 0)
          ∷ (50, 0)
          ∷ (100, 1)
          ∷ (250, 1)
          ∷ (500, 2)
          ∷ (1000, 2)
          ∷ (2500, 2)
          ∷ (5000, 2)
          ∷ [];
    })
unfolding label_key sort_labels insert_label join
calls_summed = refl
