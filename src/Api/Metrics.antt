-- ===== src/Api/Metrics.antt =====
-- `MetricsService` of api/src/observability/metrics.service.ts: counters, gauges and histograms by
-- name and by labels. Values are natural. `before` is the order of JavaScript's `sort` on strings,
-- `show` writes a number.
pub mod Render
pub mod Series
pub mod Counts
mod Tests
use carbon_veritas.Base.{
  ℕ, suc, ◌+◌, String, Bool, Option, none, some, List, [], ◌∷◌, map, leb, ◌==◌, str_eq, or_else,
  if◌then◌else◌, get_key, set_key, join, glue,
}

pub record HistogramState : Type 0 where
  pub sum : ℕ
  pub count : ℕ
  pub buckets : List (ℕ × ℕ)

abbrev pub default_buckets : List ℕ
default_buckets = 10 ∷ 50 ∷ 100 ∷ 250 ∷ 500 ∷ 1000 ∷ 2500 ∷ 5000 ∷ []

pub record MetricsService : Type 0 where
  pub counters : List (String × List (String × ℕ))
  pub gauges : List (String × List (String × ℕ))
  pub histograms : List (String × List (String × HistogramState))

abbrev pub no_metrics : MetricsService
no_metrics = record { counters = []; gauges = []; histograms = [] }

-- The keys of an object are different, so a stable sort is any sort.
unfoldable pub insert_label :
    (String → String → Bool) → String × String → List (String × String) → List (String × String)
insert_label before l [] = l ∷ []
insert_label before l (m ∷ rest) =
    let later = insert_label before l rest in if before l.0 m.0 then l ∷ m ∷ rest else m ∷ later

unfoldable pub sort_labels :
    (String → String → Bool) → List (String × String) → List (String × String)
sort_labels before [] = []
sort_labels before (l ∷ rest) = insert_label before l (sort_labels before rest)

unfoldable pub label_key : (String → String → Bool) → List (String × String) → String
label_key before labels =
    join "," (map (λ l. glue l.0 (glue "=\"" (glue l.1 "\""))) (sort_labels before labels))

-- `state.values.set(key, (state.values.get(key) ?? 0) + value)` in the counter of a name
unfoldable pub increment_counter : String → String → ℕ → MetricsService → MetricsService
increment_counter name key value m =
    let values = or_else (get_key str_eq name m.counters) [] in
    let count = or_else (get_key str_eq key values) 0 + value in
    record m { counters = set_key str_eq name (set_key str_eq key count values) m.counters }

unfoldable pub set_gauge : String → ℕ → String → MetricsService → MetricsService
set_gauge name value key m =
    let values = or_else (get_key str_eq name m.gauges) [] in
    record m { gauges = set_key str_eq name (set_key str_eq key value values) m.gauges }

abbrev pub fresh_histogram : HistogramState
fresh_histogram = record { sum = 0; count = 0; buckets = map (λ b. (b, 0)) default_buckets }

-- `for (const bucket of DEFAULT_BUCKETS_MS)`
unfoldable pub fill_buckets : ℕ → List ℕ → List (ℕ × ℕ) → List (ℕ × ℕ)
fill_buckets value [] m = m
fill_buckets value (b ∷ bs) m =
    let m' = if leb value b then set_key ◌==◌ b (or_else (get_key ◌==◌ b m) 0 + 1) m else m in
    fill_buckets value bs m'

unfoldable pub observe : ℕ → HistogramState → HistogramState
observe value h = record {
  sum = h.sum + value;
  count = h.count + 1;
  buckets = fill_buckets value default_buckets h.buckets;
}

-- From the point where the key is known.
unfoldable pub observe_series : String → ℕ → String → MetricsService → MetricsService
observe_series name value key m =
    let by_label = or_else (get_key str_eq name m.histograms) [] in
    let state = observe value (or_else (get_key str_eq key by_label) fresh_histogram) in
    record m { histograms = set_key str_eq name (set_key str_eq key state by_label) m.histograms }

unfoldable pub observe_histogram :
    (String → String → Bool) → String → ℕ → List (String × String) → MetricsService → MetricsService
observe_histogram before name value labels m = observe_series name value (label_key before labels) m

-- A series of a histogram, a value of a counter.
abbrev pub series : {A : Type 0} → String → String → List (String × List (String × A)) → Option A
series name key m = get_key str_eq key (or_else (get_key str_eq name m) [])
