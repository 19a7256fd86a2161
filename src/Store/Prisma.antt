-- ===== src/Store/Prisma.antt =====
-- The Prisma client (@prisma/client, not part of the repository) as an interface: the operations
-- that the code calls, and what their documentation says of them. A table is the list of its rows.
use carbon_veritas.Base.{
  ℕ, ◌≤◌, ◌≡◌, String, Bool, true, false, Option, none, some, List, [], ◌∷◌, ◌++◌, All, length,
  ◌&&◌, not,
}
use carbon_veritas.Store.Rows.{find?, modify, select, exists?, Contains}

-- Whether a row of the table collides with the new row in a unique column.
abbrev pub Clash : Type 0 → Type 0
Clash Row = Row → Row → Bool

pub record PrismaClient : Type 1 where
  -- `findUnique`: the condition is on a unique column.
  pub find_unique : (Row : Type 0) → (Row → Bool) → List Row → Option Row
  pub find_unique_lem :
      (Row : Type 0) (p : Row → Bool) (rows : List Row) → find_unique Row p rows ≡ find? p rows
  -- `findFirst`, without an order: any row that meets the condition.
  pub find_first : (Row : Type 0) → (Row → Bool) → List Row → Option Row
  pub find_first_holds :
      (Row : Type 0) (p : Row → Bool) (rows : List Row) (r : Row)
      → find_first Row p rows ≡ some r
      → (p r ≡ true) × Contains r rows
  pub find_first_none :
      (Row : Type 0) (p : Row → Bool) (rows : List Row)
      → find_first Row p rows ≡ none
      → All (λ r. p r ≡ false) rows
  -- `findFirst` with `orderBy` a number, descending.
  pub find_last : (Row : Type 0) → (Row → ℕ) → List Row → Option Row
  pub find_last_max :
      (Row : Type 0) (key : Row → ℕ) (rows : List Row) (r : Row)
      → find_last Row key rows ≡ some r
      → All (λ s. key s ≤ key r) rows
  pub find_last_none :
      (Row : Type 0) (key : Row → ℕ) (rows : List Row) → find_last Row key rows ≡ none → rows ≡ []
  pub count : (Row : Type 0) → (Row → Bool) → List Row → ℕ
  pub count_lem :
      (Row : Type 0) (p : Row → Bool) (rows : List Row) → count Row p rows ≡ length (select p rows)
  -- `findMany`, or an included relation: the rows that meet the condition, in some order.
  pub find_many : (Row : Type 0) → (Row → Bool) → List Row → List Row
  pub find_many_lem :
      (Row : Type 0) (p q : Row → Bool) (rows : List Row)
      → exists? q (find_many Row p rows) ≡ exists? (λ r. p r && q r) rows
  -- `create`: `none` is the error P2002 of a unique constraint.
  pub create : (Row : Type 0) → Clash Row → Row → List Row → Option (List Row)
  pub create_new :
      (Row : Type 0) (clash : Clash Row) (row : Row) (rows : List Row)
      → find? (clash row) rows ≡ none
      → create Row clash row rows ≡ some (rows ++ row ∷ [])
  pub create_clash :
      (Row : Type 0) (clash : Clash Row) (row old : Row) (rows : List Row)
      → find? (clash row) rows ≡ some old
      → create Row clash row rows ≡ none
  -- `update`, by a unique column: `none` is the error P2025 of a missing record.
  pub update : (Row : Type 0) → (Row → Bool) → (Row → Row) → List Row → Option (Row × List Row)
  pub update_found :
      (Row : Type 0) (p : Row → Bool) (f : Row → Row) (rows : List Row) (r : Row)
      → find? p rows ≡ some r
      → update Row p f rows ≡ some (f r, modify p f rows)
  pub update_missing :
      (Row : Type 0) (p : Row → Bool) (f : Row → Row) (rows : List Row)
      → find? p rows ≡ none
      → update Row p f rows ≡ none
  -- `upsert`, by a unique column.
  pub upsert : (Row : Type 0) → (Row → Bool) → (Row → Row) → Row → List Row → Row × List Row
  pub upsert_found :
      (Row : Type 0) (p : Row → Bool) (f : Row → Row) (row : Row) (rows : List Row) (r : Row)
      → find? p rows ≡ some r
      → upsert Row p f row rows ≡ (f r, modify p f rows)
  pub upsert_missing :
      (Row : Type 0) (p : Row → Bool) (f : Row → Row) (row : Row) (rows : List Row)
      → find? p rows ≡ none
      → upsert Row p f row rows ≡ (row, rows ++ row ∷ [])
  -- `delete`, by a unique column: `none` is the error P2025 of a missing record.
  pub delete : (Row : Type 0) → (Row → Bool) → List Row → Option (List Row)
  pub delete_found :
      (Row : Type 0) (p : Row → Bool) (rows : List Row) (r : Row)
      → find? p rows ≡ some r
      → delete Row p rows ≡ some (select (λ s. not (p s)) rows)
  pub delete_missing :
      (Row : Type 0) (p : Row → Bool) (rows : List Row)
      → find? p rows ≡ none
      → delete Row p rows ≡ none
  -- `deleteMany`: the rows that are left.
  pub delete_many : (Row : Type 0) → (Row → Bool) → List Row → List Row
  pub delete_many_lem :
      (Row : Type 0) (p : Row → Bool) (rows : List Row)
      → delete_many Row p rows ≡ select (λ r. not (p r)) rows
  -- `@default(cuid())`: the identifier of the row created as number `n`.
  pub cuid : ℕ → String
  pub cuid_injective : (m n : ℕ) → cuid m ≡ cuid n → m ≡ n
