-- ===== src/Store/ListClient.antt =====
-- A Prisma client over lists: it shows that the interface can be met, and the tests run on it.
use carbon_veritas.Base.{
  ℕ, zero, suc, ◌≤◌, ◌≡◌, refl, ap, String, Bool, false, Option, none, some, List, [], ◌∷◌, ◌++◌,
  arith, All, All-map, length, leb, not, if◌then◌else◌,
}
use carbon_veritas.Store.Rows.{find?, modify, select, find?-holds, find?-Contains, exists?-select}
use carbon_veritas.Store.Prisma.{PrismaClient, Clash}

module _ {A : Type 0} where
  pub find?-none-All :
      (p : A → Bool) (rows : List A) → find? p rows ≡ none → All (λ r. p r ≡ false) rows
  find?-none-All p [] e = tt
  find?-none-All p (x ∷ rows) e = ground (arith, find?-none-All p rows)

  abbrev larger : (A → ℕ) → A → Option A → A
  larger key r none = r
  larger key r (some s) = if leb (key r) (key s) then s else r

  abbrev pub largest : (A → ℕ) → List A → Option A
  largest key [] = none
  largest key (r ∷ rows) = some (larger key r (largest key rows))

  pub largest-none : (key : A → ℕ) (rows : List A) → largest key rows ≡ none → rows ≡ []
  largest-none key [] e = refl
  largest-none key (r ∷ rows) e = cc

  abbrev IsTop : (A → ℕ) → List A → Option A → Type 0
  IsTop key rows none = rows ≡ []
  IsTop key rows (some r) = All (λ s. key s ≤ key r) rows

  larger-IsTop :
      (key : A → ℕ) (r : A) (rows : List A) (o : Option A)
      → IsTop key rows o
      → IsTop key (r ∷ rows) (some (larger key r o))
  larger-IsTop key r rows none e = rw e (omega arith, tt)
  larger-IsTop key r rows (some s) h =
      let bound : (key r ≤ key (larger key r (some s))) × (key s ≤ key (larger key r (some s))) =
        ground arith in
      (bound.0, All-map (λ x. key x ≤ key s) _ rows (λ x k. omega arith) h)

  largest-IsTop : (key : A → ℕ) (rows : List A) → IsTop key rows (largest key rows)
  largest-IsTop key [] = refl
  largest-IsTop key (r ∷ rows) = larger-IsTop key r rows (largest key rows) (largest-IsTop key rows)

  pub largest_max :
      (key : A → ℕ) (rows : List A) (r : A)
      → largest key rows ≡ some r
      → All (λ s. key s ≤ key r) rows
  largest_max key rows r e = rw e at (largest-IsTop key rows)

  abbrev pub insert_row : Clash A → A → List A → Option (List A)
  insert_row clash row rows = elim (find? (clash row) rows) [
    | none ↦ some (rows ++ row ∷ [])
    | some _ ↦ none
  ]

  abbrev pub update_row : (A → Bool) → (A → A) → List A → Option (A × List A)
  update_row p f rows = elim (find? p rows) [ none ↦ none | some r ↦ some (f r, modify p f rows) ]

  abbrev pub upsert_row : (A → Bool) → (A → A) → A → List A → A × List A
  upsert_row p f row rows = elim (find? p rows) [
    | none ↦ (row, rows ++ row ∷ [])
    | some r ↦ (f r, modify p f rows)
  ]

  pub insert_row_new :
      (clash : Clash A) (row : A) (rows : List A)
      → find? (clash row) rows ≡ none
      → insert_row clash row rows ≡ some (rows ++ row ∷ [])
  insert_row_new clash row rows e = rw (insert_row, e)

  pub insert_row_clash :
      (clash : Clash A) (row old : A) (rows : List A)
      → find? (clash row) rows ≡ some old
      → insert_row clash row rows ≡ none
  insert_row_clash clash row old rows e = rw (insert_row, e)

  pub update_row_found :
      (p : A → Bool) (f : A → A) (rows : List A) (r : A)
      → find? p rows ≡ some r
      → update_row p f rows ≡ some (f r, modify p f rows)
  update_row_found p f rows r e = rw (update_row, e)

  pub update_row_missing :
      (p : A → Bool) (f : A → A) (rows : List A) → find? p rows ≡ none → update_row p f rows ≡ none
  update_row_missing p f rows e = rw (update_row, e)

  pub upsert_row_found :
      (p : A → Bool) (f : A → A) (row : A) (rows : List A) (r : A)
      → find? p rows ≡ some r
      → upsert_row p f row rows ≡ (f r, modify p f rows)
  upsert_row_found p f row rows r e = rw (upsert_row, e)

  pub upsert_row_missing :
      (p : A → Bool) (f : A → A) (row : A) (rows : List A)
      → find? p rows ≡ none
      → upsert_row p f row rows ≡ (row, rows ++ row ∷ [])
  upsert_row_missing p f row rows e = rw (upsert_row, e)

module _ {A : Type 0} where
  abbrev pub delete_row : (A → Bool) → List A → Option (List A)
  delete_row p rows = elim (find? p rows) [
    | none ↦ none
    | some _ ↦ some (select (λ s. not (p s)) rows)
  ]

  pub delete_row_found :
      (p : A → Bool) (rows : List A) (r : A)
      → find? p rows ≡ some r
      → delete_row p rows ≡ some (select (λ s. not (p s)) rows)
  delete_row_found p rows r e = rw (delete_row, e)

  pub delete_row_missing :
      (p : A → Bool) (rows : List A) → find? p rows ≡ none → delete_row p rows ≡ none
  delete_row_missing p rows e = rw (delete_row, e)

-- "c" as often as the number says
abbrev pub numbered : ℕ → String
numbered zero = ""
numbered (suc n) = String.◌∷◌ "c" (numbered n)

pub numbered_injective : (m n : ℕ) → numbered m ≡ numbered n → m ≡ n
numbered_injective zero zero e = refl
numbered_injective zero (suc n) e = cc
numbered_injective (suc m) zero e = cc
numbered_injective (suc m) (suc n) e = ap suc (numbered_injective m n (cc))

abbrev pub list_client : PrismaClient
list_client = record {
  find_unique = λ Row p rows. find? p rows;
  find_unique_lem = λ Row p rows. refl;
  find_first = λ Row p rows. find? p rows;
  find_first_holds = λ Row p rows r e. (find?-holds p rows r e, find?-Contains p rows r e);
  find_first_none = λ Row p rows e. find?-none-All p rows e;
  find_last = λ Row key rows. largest key rows;
  find_last_max = λ Row key rows r e. largest_max key rows r e;
  find_last_none = λ Row key rows e. largest-none key rows e;
  count = λ Row p rows. length (select p rows);
  count_lem = λ Row p rows. refl;
  find_many = λ Row p rows. select p rows;
  find_many_lem = λ Row p q rows. exists?-select p q rows;
  create = λ Row clash row rows. insert_row clash row rows;
  create_new = λ Row clash row rows e. insert_row_new clash row rows e;
  create_clash = λ Row clash row old rows e. insert_row_clash clash row old rows e;
  update = λ Row p f rows. update_row p f rows;
  update_found = λ Row p f rows r e. update_row_found p f rows r e;
  update_missing = λ Row p f rows e. update_row_missing p f rows e;
  upsert = λ Row p f row rows. upsert_row p f row rows;
  upsert_found = λ Row p f row rows r e. upsert_row_found p f row rows r e;
  upsert_missing = λ Row p f row rows e. upsert_row_missing p f row rows e;
  delete = λ Row p rows. delete_row p rows;
  delete_found = λ Row p rows r e. delete_row_found p rows r e;
  delete_missing = λ Row p rows e. delete_row_missing p rows e;
  delete_many = λ Row p rows. select (λ r. not (p r)) rows;
  delete_many_lem = λ Row p rows. refl;
  cuid = numbered;
  cuid_injective = numbered_injective;
}
