-- ===== src/Api/Metrics/Render.antt =====
-- `renderPrometheus` of api/src/observability/metrics.service.ts.
use carbon_veritas.Base.{ℕ, String, List, [], ◌∷◌, ◌++◌, map, str_eq, if◌then◌else◌, join, glue}
use carbon_veritas.Api.Metrics.{HistogramState, MetricsService}

unfoldable pub concat : List (List String) → List String
concat [] = []
concat (x ∷ xs) = x ++ concat xs

abbrev texts : List String → String
texts parts = join "" parts

-- `labels ? `{${labels}}` : ''` and `labels ? `,${labels}` : ''`
abbrev suffix : String → String
suffix labels = if str_eq labels "" then "" else texts ("{" ∷ labels ∷ "}" ∷ [])

abbrev bucket_suffix : String → String
bucket_suffix labels = if str_eq labels "" then "" else texts ("," ∷ labels ∷ [])

module _ (show : ℕ → String) where
  unfoldable pub render_values : String → List (String × ℕ) → List String
  render_values name values = map (λ v. texts (name ∷ suffix v.0 ∷ " " ∷ show v.1 ∷ [])) values

  unfoldable pub render_counter : String × List (String × ℕ) → List String
  render_counter (name, values) =
      texts ("# HELP " ∷ name ∷ " Total events recorded" ∷ [])
      ∷ texts ("# TYPE " ∷ name ∷ " counter" ∷ [])
      ∷ render_values name values

  unfoldable pub render_gauge : String × List (String × ℕ) → List String
  render_gauge (name, values) =
      texts ("# HELP " ∷ name ∷ " Current gauge value" ∷ [])
      ∷ texts ("# TYPE " ∷ name ∷ " gauge" ∷ [])
      ∷ render_values name values

  unfoldable pub render_bucket : String → String → String → ℕ → String
  render_bucket name labels upper value =
      texts (name ∷ "_bucket{le=\"" ∷ upper ∷ "\"" ∷ bucket_suffix labels ∷ "} " ∷ show value ∷ [])

  unfoldable pub render_series : String → String × HistogramState → List String
  render_series name (labels, state) =
      texts (name ∷ "_sum" ∷ suffix labels ∷ " " ∷ show state.sum ∷ [])
        ∷ texts (name ∷ "_count" ∷ suffix labels ∷ " " ∷ show state.count ∷ [])
        ∷ map (λ b. render_bucket name labels (show b.0) b.1) state.buckets
      ++ render_bucket name labels "+Inf" state.count ∷ []

  unfoldable pub render_histogram : String × List (String × HistogramState) → List String
  render_histogram (name, by_label) =
      texts ("# HELP " ∷ name ∷ " Duration histogram in milliseconds" ∷ [])
      ∷ texts ("# TYPE " ∷ name ∷ " histogram" ∷ [])
      ∷ concat (map (render_series name) by_label)

  unfoldable pub render_prometheus : MetricsService → String
  render_prometheus m =
      let lines =
        concat (map render_counter m.counters)
        ++ concat (map render_gauge m.gauges)
        ++ concat (map render_histogram m.histograms) in
      glue (join "\n" lines) "\n"
