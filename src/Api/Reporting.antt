-- ===== src/Api/Reporting.antt =====
-- The summary of the scope 3 report, api/src/reporting/reporting.service.ts. A map is the list of
-- its entries in the order of insertion; tonnes are whole numbers.
pub mod Totals
pub mod Csv
use carbon_veritas.Base.{
  ℕ, ◌+◌, String, Bool, true, false, List, [], ◌∷◌, leb, ◌==◌, str_eq, length, if◌then◌else◌,
}

-- The fields of `RetirementRow` that the summary reads; `vintage` is the UTC year of its start.
pub record RetirementRow : Type 0 where
  pub tonnes_retired : ℕ
  pub credit_id : ℕ
  pub methodology : String
  pub geography : String
  pub vintage : ℕ

pub record Group (K : Type 0) : Type 0 where
  pub key : K
  pub tonnes : ℕ
  pub retirements : ℕ

pub record Scope3Summary : Type 0 where
  pub total_tonnes_retired : ℕ
  pub total_retirements : ℕ
  pub total_credits : ℕ
  pub by_methodology : List (Group String)
  pub by_geography : List (Group String)
  pub by_vintage : List (Group ℕ)

-- `text || 'UNKNOWN'`
abbrev pub or_unknown : String → String
or_unknown s = if str_eq s "" then "UNKNOWN" else s

module _ {K : Type 0} (eq : K → K → Bool) where
  unfoldable pub accumulate : List (Group K) → K → ℕ → List (Group K)
  accumulate [] key tonnes = record { key = key; tonnes = tonnes; retirements = 1 } ∷ []
  accumulate (g ∷ gs) key tonnes =
      if eq g.key key
      then record g { tonnes = g.tonnes + tonnes; retirements = g.retirements + 1 } ∷ gs
      else g ∷ accumulate gs key tonnes

  -- The calls of `accumulate` that the loop makes for one of the maps.
  unfoldable pub accumulate_rows :
      (RetirementRow → K) → List (Group K) → List RetirementRow → List (Group K)
  accumulate_rows key_of groups [] = groups
  accumulate_rows key_of groups (row ∷ rows) =
      accumulate_rows key_of (accumulate groups (key_of row) row.tonnes_retired) rows

-- `.sort((a, b) => b.tonnes - a.tonnes)`
module _ {K : Type 0} where
  abbrev pub insert_group : Group K → List (Group K) → List (Group K)
  insert_group g [] = g ∷ []
  insert_group g (h ∷ hs) = if leb h.tonnes g.tonnes then g ∷ h ∷ hs else h ∷ insert_group g hs

  unfoldable pub sort_groups : List (Group K) → List (Group K)
  sort_groups [] = []
  sort_groups (g ∷ gs) = insert_group g (sort_groups gs)

abbrev pub sum_tonnes : List RetirementRow → ℕ
sum_tonnes [] = 0
sum_tonnes (row ∷ rows) = row.tonnes_retired + sum_tonnes rows

abbrev pub has_credit : ℕ → List RetirementRow → Bool
has_credit n [] = false
has_credit n (row ∷ rows) = if row.credit_id == n then true else has_credit n rows

-- The size of `uniqueCredits`.
abbrev pub distinct_credits : List RetirementRow → ℕ
distinct_credits [] = 0
distinct_credits (row ∷ rows) =
    (if has_credit row.credit_id rows then 0 else 1) + distinct_credits rows

unfoldable pub build_summary : List RetirementRow → Scope3Summary
build_summary rows = record {
  total_tonnes_retired = sum_tonnes rows;
  total_retirements = length rows;
  total_credits = distinct_credits rows;
  by_methodology = sort_groups (accumulate_rows str_eq (λ r. or_unknown r.methodology) [] rows);
  by_geography = sort_groups (accumulate_rows str_eq (λ r. or_unknown r.geography) [] rows);
  by_vintage = sort_groups (accumulate_rows (λ a b. a == b) (λ r. r.vintage) [] rows);
}
