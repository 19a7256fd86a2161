-- ===== src/Api/Reporting/Totals.antt =====
-- The breakdowns of the summary agree with its rows.
use carbon_veritas.Base.{
  ℕ, ◌+◌, ◌≤◌, ◌≡◌, refl, sym, ◌∙◌, ap, max, Bool, true, false, List, [], ◌∷◌, arith, str_eq, ◌==◌,
  leb, eq_iff, ==_iff, All, Bool-cases, inl, inr, if◌then◌else◌, ◌↔◌,
}
use carbon_veritas.Api.Reporting.{
  RetirementRow, Group, accumulate, accumulate_rows, insert_group, sort_groups, build_summary,
  or_unknown,
}

module _ {K : Type 0} where
  -- Largest first.
  abbrev pub Descends : List (Group K) → Type 0
  Descends [] = Unit
  Descends (g ∷ gs) = All (λ h. h.tonnes ≤ g.tonnes) gs × Descends gs

module _ {K : Type 0} (eq : K → K → Bool) (k : K) where
  -- Tonnes and retirements of one key, in the groups and in the rows, and the groups it has.
  abbrev pub group_tonnes : List (Group K) → ℕ
  group_tonnes [] = 0
  group_tonnes (g ∷ gs) = (if eq g.key k then g.tonnes else 0) + group_tonnes gs

  abbrev pub group_retirements : List (Group K) → ℕ
  group_retirements [] = 0
  group_retirements (g ∷ gs) = (if eq g.key k then g.retirements else 0) + group_retirements gs

  abbrev pub group_count : List (Group K) → ℕ
  group_count [] = 0
  group_count (g ∷ gs) = (if eq g.key k then 1 else 0) + group_count gs

  abbrev pub row_tonnes : (RetirementRow → K) → List RetirementRow → ℕ
  row_tonnes key_of [] = 0
  row_tonnes key_of (r ∷ rows) =
      (if eq (key_of r) k then r.tonnes_retired else 0) + row_tonnes key_of rows

  abbrev pub row_count : (RetirementRow → K) → List RetirementRow → ℕ
  row_count key_of [] = 0
  row_count key_of (r ∷ rows) = (if eq (key_of r) k then 1 else 0) + row_count key_of rows

-- A breakdown of rows by a key: it has one group for a key that occurs and none for another, with
-- the tonnes and the number of the rows with that key, and the groups with most tonnes come first.
abbrev pub Breakdown :
    {K : Type 0}
    → (K → K → Bool)
    → (RetirementRow → K)
    → List RetirementRow
    → List (Group K)
    → Type 0
Breakdown {K} eq key_of rows groups =
    ((k : K)
      → (group_tonnes eq k groups ≡ row_tonnes eq k key_of rows)
        × (group_retirements eq k groups ≡ row_count eq k key_of rows)
        × (group_count eq k groups ≤ 1))
    × Descends groups

module _ {K : Type 0} (eq : K → K → Bool) (lem : (a b : K) → (eq a b ≡ true) ↔ (a ≡ b)) where
  -- What one key has gains the tonnes of the row, if it is the key of the row.
  accumulate-counts :
      (gs : List (Group K)) (key k : K) (tonnes : ℕ)
      → (group_tonnes eq k (accumulate eq gs key tonnes)
          ≡ group_tonnes eq k gs + (if eq key k then tonnes else 0))
        × (group_retirements eq k (accumulate eq gs key tonnes)
            ≡ group_retirements eq k gs + (if eq key k then 1 else 0))
  unfolding accumulate
  accumulate-counts [] key k tonnes = (omega arith, omega arith)
  accumulate-counts (g ∷ gs) key k tonnes = elim (Bool-cases (eq g.key key)) [
    | inl same ↦
        let e : eq g.key k ≡ eq key k = ap (λ a. eq a k) ((lem g.key key).0 same) in
        (ground arith, ground arith)
    | inr other ↦ (
      ground (arith, accumulate-counts gs key k tonnes),
      ground (arith, accumulate-counts gs key k tonnes),
    )
  ]

  -- Two keys that differ are not both equal to a third.
  not_both : (a b k : K) → eq a b ≡ false → eq b k ≡ true → eq a k ≡ false
  not_both a b k other same = elim (Bool-cases (eq a k)) [
    | inr no' ↦ no'
    | inl both ↦
        let e : a ≡ b = (lem a k).0 both ∙ sym ((lem b k).0 same) in
        let yes' : eq a b ≡ true = (lem a b).1 e in ground arith
  ]

  accumulate-group_count :
      (gs : List (Group K)) (key k : K) (tonnes : ℕ)
      → group_count eq k (accumulate eq gs key tonnes)
        ≡ (if eq key k then max 1 (group_count eq k gs) else group_count eq k gs)
  unfolding accumulate
  accumulate-group_count [] key k tonnes = ground arith
  accumulate-group_count (g ∷ gs) key k tonnes = elim (Bool-cases (eq g.key key)) [
    | inl same ↦
        let e : eq g.key k ≡ eq key k = ap (λ a. eq a k) ((lem g.key key).0 same) in ground arith
    | inr other ↦
        let ih = accumulate-group_count gs key k tonnes in
        elim (Bool-cases (eq key k)) [
          | inl here ↦ let apart = not_both g.key key k other here in ground arith
          | inr there ↦ ground arith
        ]
  ]

  accumulate_rows-counts :
      (key_of : RetirementRow → K) (k : K) (rows : List RetirementRow) (gs : List (Group K))
      → group_count eq k gs ≤ 1
      → (group_tonnes eq k (accumulate_rows eq key_of gs rows)
          ≡ group_tonnes eq k gs + row_tonnes eq k key_of rows)
        × (group_retirements eq k (accumulate_rows eq key_of gs rows)
            ≡ group_retirements eq k gs + row_count eq k key_of rows)
        × (group_count eq k (accumulate_rows eq key_of gs rows) ≤ 1)
  unfolding accumulate_rows
  accumulate_rows-counts key_of k [] gs h = (omega arith, omega arith, h)
  accumulate_rows-counts key_of k (r ∷ rows) gs h =
      let next = accumulate eq gs (key_of r) r.tonnes_retired in
      let one = accumulate-counts gs (key_of r) k r.tonnes_retired in
      let bound : group_count eq k next ≤ 1 =
        ground (arith, accumulate-group_count gs (key_of r) k r.tonnes_retired) in
      let ih = accumulate_rows-counts key_of k rows next bound in (omega arith, omega arith, ih.2)

module _ {K : Type 0} (eq : K → K → Bool) (k : K) where
  insert_group-counts :
      (g : Group K) (gs : List (Group K))
      → (group_tonnes eq k (insert_group g gs) ≡ group_tonnes eq k (g ∷ gs))
        × (group_retirements eq k (insert_group g gs) ≡ group_retirements eq k (g ∷ gs))
        × (group_count eq k (insert_group g gs) ≡ group_count eq k (g ∷ gs))
  insert_group-counts g [] = (refl, refl, refl)
  insert_group-counts g (h ∷ hs) = elim (Bool-cases (leb h.tonnes g.tonnes)) [
    | inl before ↦ rw before (refl, refl, refl)
    | inr after ↦
        let ih = insert_group-counts g hs in rw after (omega arith, omega arith, omega arith)
  ]

  sort_groups-counts :
      (gs : List (Group K))
      → (group_tonnes eq k (sort_groups gs) ≡ group_tonnes eq k gs)
        × (group_retirements eq k (sort_groups gs) ≡ group_retirements eq k gs)
        × (group_count eq k (sort_groups gs) ≡ group_count eq k gs)
  unfolding sort_groups
  sort_groups-counts [] = (refl, refl, refl)
  sort_groups-counts (g ∷ gs) =
      let one = insert_group-counts g (sort_groups gs) in
      let ih = sort_groups-counts gs in (omega arith, omega arith, omega arith)

module _ {K : Type 0} where
  insert_group-All :
      (n : ℕ) (g : Group K) (gs : List (Group K))
      → g.tonnes ≤ n
      → All (λ h. h.tonnes ≤ n) gs
      → All (λ h. h.tonnes ≤ n) (insert_group g gs)
  insert_group-All n g [] le h = (le, tt)
  insert_group-All n g (x ∷ gs) le (h, hs) = elim (Bool-cases (leb x.tonnes g.tonnes)) [
    | inl before ↦ rw before (le, (h, hs))
    | inr after ↦ rw after (h, insert_group-All n g gs le hs)
  ]

  All-below :
      (m n : ℕ) (gs : List (Group K))
      → m ≤ n
      → All (λ h. h.tonnes ≤ m) gs
      → All (λ h. h.tonnes ≤ n) gs
  All-below m n [] le h = tt
  All-below m n (g ∷ gs) le (h, hs) = (omega arith, All-below m n gs le hs)

  insert_group-Descends :
      (g : Group K) (gs : List (Group K)) → Descends gs → Descends (insert_group g gs)
  insert_group-Descends g [] h = (tt, tt)
  insert_group-Descends g (x ∷ gs) (h, hs) = elim (Bool-cases (leb x.tonnes g.tonnes)) [
    | inl before ↦
        let le : x.tonnes ≤ g.tonnes = ground arith in
        rw before ((le, All-below x.tonnes g.tonnes gs le h), (h, hs))
    | inr after ↦
        rw after (insert_group-All x.tonnes g gs (ground arith) h, insert_group-Descends g gs hs)
  ]

  sort_groups-Descends : (gs : List (Group K)) → Descends (sort_groups gs)
  unfolding sort_groups
  sort_groups-Descends [] = tt
  sort_groups-Descends (g ∷ gs) = insert_group-Descends g (sort_groups gs) (sort_groups-Descends gs)

module _ {K : Type 0} (eq : K → K → Bool) (lem : (a b : K) → (eq a b ≡ true) ↔ (a ≡ b)) where
  sorted-Breakdown :
      (key_of : RetirementRow → K) (rows : List RetirementRow)
      → Breakdown eq key_of rows (sort_groups (accumulate_rows eq key_of [] rows))
  sorted-Breakdown key_of rows = (
    (λ k.
        let sorted = sort_groups-counts eq k (accumulate_rows eq key_of [] rows) in
        let counted = accumulate_rows-counts eq lem key_of k rows [] (omega arith) in
        (omega arith, omega arith, omega arith)),
    sort_groups-Descends (accumulate_rows eq key_of [] rows),
  )

-- Each of the three breakdowns of the summary agrees with the rows: for every key the groups of
-- that key hold the tonnes and the number of the rows with it, there is at most one such group,
-- and the groups with more tonnes come first. A missing methodology or geography counts under
-- UNKNOWN.
pub build_summary-Breakdown :
    (rows : List RetirementRow)
    → let s = build_summary rows in
      Breakdown str_eq (λ r. or_unknown r.methodology) rows s.by_methodology
      × Breakdown str_eq (λ r. or_unknown r.geography) rows s.by_geography
      × Breakdown (λ a b. a == b) (λ r. r.vintage) rows s.by_vintage
unfolding build_summary
build_summary-Breakdown rows = (
  sorted-Breakdown str_eq eq_iff (λ r. or_unknown r.methodology) rows,
  sorted-Breakdown str_eq eq_iff (λ r. or_unknown r.geography) rows,
  sorted-Breakdown (λ a b. a == b) ==_iff (λ r. r.vintage) rows,
)
