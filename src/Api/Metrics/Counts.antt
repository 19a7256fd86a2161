-- ===== src/Api/Metrics/Counts.antt =====
-- What the counters and histograms hold after any sequence of calls.
use carbon_veritas.Base.{
  Bool, ◌≡◌, refl, ap, ◌∙◌, ℕ, ◌+◌, String, true, false, ◌&&◌, Option, none, some, List, [], ◌∷◌,
  ◌++◌, leb, ◌==◌, str_eq, if◌then◌else◌, get_key, length, arith, Bool-cases, inl, inr,
  get_key-behind, set_key-behind, eq_iff,
}
use mathlib.Core.Path.{subst}
use carbon_veritas.Api.Metrics.Series.{stored-same, stored-other_key, stored-other_name}
use carbon_veritas.Api.Metrics.{
  HistogramState, MetricsService, no_metrics, default_buckets, fill_buckets, observe,
  observe_series, observe_histogram, label_key, series,
}

-- A call with a name, a label key and a value.
abbrev pub Sample : Type 0
Sample = String × String × ℕ

abbrev pub total : List ℕ → ℕ
total [] = 0
total (v ∷ vs) = total vs + v

-- How many values are at most the bound.
abbrev pub at_most : ℕ → List ℕ → ℕ
at_most b [] = 0
at_most b (v ∷ vs) = if leb v b then at_most b vs + 1 else at_most b vs

abbrev pub table : List ℕ → List ℕ → List (ℕ × ℕ)
table values [] = []
table values (b ∷ bs) = (b, at_most b values) ∷ table values bs

-- The state that the observed values define.
abbrev pub summary : List ℕ → HistogramState
summary values = record {
  sum = total values;
  count = length values;
  buckets = table values default_buckets;
}

-- The values of the calls for one series, the last call first.
abbrev pub values_of : String → String → List Sample → List ℕ → List ℕ
values_of name key [] seen = seen
values_of name key ((n, k, v) ∷ rest) seen =
    values_of name key rest (if str_eq n name && str_eq k key then v ∷ seen else seen)

abbrev pub summary_of : List ℕ → Option HistogramState
summary_of [] = none
summary_of (v ∷ vs) = some (summary (v ∷ vs))

abbrev pub observe_keyed : List Sample → MetricsService → MetricsService
observe_keyed [] m = m
observe_keyed ((n, k, v) ∷ rest) m = observe_keyed rest (observe_series n v k m)

-- The keys of the list are new to the map, and different from each other.
abbrev NewKeys : List (ℕ × ℕ) → List ℕ → Type 0
NewKeys front [] = Unit
NewKeys front (b ∷ bs) =
    (get_key ◌==◌ b front ≡ none) × ((n : ℕ) → NewKeys (front ++ (b, n) ∷ []) bs)

==_refl : (n : ℕ) → (n == n) ≡ true
==_refl n = ground arith

append-cons : {A : Type 0} (xs : List A) (y : A) (zs : List A) → xs ++ y ∷ zs ≡ (xs ++ y ∷ []) ++ zs
append-cons [] y zs = refl
append-cons (x ∷ xs) y zs = ap (λ l. x ∷ l) (append-cons xs y zs)

fill_buckets_lem :
    (value : ℕ) (values : List ℕ) (bs : List ℕ) (front : List (ℕ × ℕ))
    → NewKeys front bs
    → fill_buckets value bs (front ++ table values bs) ≡ front ++ table (value ∷ values) bs
unfolding fill_buckets
fill_buckets_lem value values [] front h = refl
fill_buckets_lem value values (b ∷ bs) front (new, later) =
    let c = at_most b values in
    let rest = table values bs in
    elim (Bool-cases (leb value b)) [
      | inl counted ↦
          rw
            (
              counted,
              get_key-behind ◌==◌ ==_refl b c front rest new,
              set_key-behind ◌==◌ ==_refl b c (c + 1) front rest new,
              append-cons front (b, c + 1) rest,
              append-cons front (b, c + 1) (table (value ∷ values) bs),
            )
            (fill_buckets_lem value values bs (front ++ (b, c + 1) ∷ []) (later (c + 1)))
      | inr large ↦
          rw
            (
              large,
              append-cons front (b, c) rest,
              append-cons front (b, c) (table (value ∷ values) bs),
            )
            (fill_buckets_lem value values bs (front ++ (b, c) ∷ []) (later c))
    ]

default_buckets-NewKeys : NewKeys [] default_buckets
unfolding get_key
default_buckets-NewKeys = (
  refl,
  λ _.
      (refl, λ _. (refl, λ _. (refl, λ _. (refl, λ _. (refl, λ _. (refl, λ _. (refl, λ _. tt))))))),
)

observe-summary :
    (value : ℕ) (values : List ℕ) → observe value (summary values) ≡ summary (value ∷ values)
unfolding observe
observe-summary value values =
    let one : length values + 1 ≡ length (value ∷ values) = omega arith in
    rw (fill_buckets_lem value values default_buckets [] default_buckets-NewKeys, one) refl

observe_series-same :
    (name key : String) (v : ℕ) (seen : List ℕ) (m : MetricsService)
    → series name key m.histograms ≡ summary_of seen
    → series name key (observe_series name v key m).histograms ≡ summary_of (v ∷ seen)
unfolding observe_series
observe_series-same name key v [] m h =
    stored-same name key _ m.histograms ∙ rw h (ap some (observe-summary v []))
observe_series-same name key v (u ∷ us) m h =
    stored-same name key _ m.histograms ∙ rw h (ap some (observe-summary v (u ∷ us)))

observe_series-other :
    (n k name key : String) (v : ℕ) (m : MetricsService)
    → (str_eq n name && str_eq k key) ≡ false
    → series name key (observe_series n v k m).histograms ≡ series name key m.histograms
unfolding observe_series
observe_series-other n k name key v m h = elim (Bool-cases (str_eq n name)) [
  | inr other ↦ stored-other_name n k _ m.histograms name key other
  | inl same ↦
      let other_key : str_eq k key ≡ false = ground arith in
      subst (λ x. series x key (observe_series n v k m).histograms ≡ series x key m.histograms)
        ((eq_iff _ _).0 same) (stored-other_key n k _ m.histograms key other_key)
]

histogram_counts_from :
    (name key : String) (samples : List Sample) (seen : List ℕ) (m : MetricsService)
    → series name key m.histograms ≡ summary_of seen
    → series name key (observe_keyed samples m).histograms
      ≡ summary_of (values_of name key samples seen)
histogram_counts_from name key [] seen m h = h
histogram_counts_from name key ((n, k, v) ∷ rest) seen m h =
    elim (Bool-cases (str_eq n name && str_eq k key)) [
      | inl mine ↦
          let e : n ≡ name = (eq_iff _ _).0 (ground arith) in
          let e' : k ≡ key = (eq_iff _ _).0 (ground arith) in
          rw (mine, e, e')
            (histogram_counts_from name key rest (v ∷ seen) _
              (observe_series-same name key v seen m h))
      | inr other ↦ rw other (
          histogram_counts_from name key rest seen _
            (observe_series-other n k name key v m other ∙ h))
    ]

-- The calls of `observeHistogram`: the name, the labels and the value.
abbrev pub Observation : Type 0
Observation = String × List (String × String) × ℕ

unfoldable pub observe_all :
    (String → String → Bool) → List Observation → MetricsService → MetricsService
observe_all before [] m = m
observe_all before ((n, labels, v) ∷ rest) m =
    observe_all before rest (observe_histogram before n v labels m)

abbrev pub keyed : (String → String → Bool) → List Observation → List Sample
keyed before [] = []
keyed before ((n, labels, v) ∷ rest) = (n, label_key before labels, v) ∷ keyed before rest

observe_all-keyed :
    (before : String → String → Bool) (calls : List Observation) (m : MetricsService)
    → observe_all before calls m ≡ observe_keyed (keyed before calls) m
unfolding observe_all observe_histogram
observe_all-keyed before [] m = refl
observe_all-keyed before ((n, labels, v) ∷ rest) m =
    observe_all-keyed before rest (observe_series n v (label_key before labels) m)

-- After any sequence of calls of `observeHistogram` on fresh metrics, every series of a
-- histogram, by its name and the key of its labels, is the one that its own observations define:
-- their number, their sum and for each bound the number of those at most the bound; a series
-- without observations does not exist.
pub histogram_counts :
    (before : String → String → Bool) (name key : String) (calls : List Observation)
    → series name key (observe_all before calls no_metrics).histograms
      ≡ summary_of (values_of name key (keyed before calls) [])
unfolding get_key
histogram_counts before name key calls =
    rw (observe_all-keyed before calls no_metrics)
      (histogram_counts_from name key (keyed before calls) [] no_metrics refl)
