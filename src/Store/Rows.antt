-- ===== src/Store/Rows.antt =====
-- A table as the list of its rows, in the order of creation: the vocabulary in which the
-- behaviour of the Prisma client is stated.
use mathlib.Core.Path.{subst}
use carbon_veritas.Base.{
  ◌+◌, ◌≤◌, ◌≡◌, refl, ◌⊎◌, inl, inr, Bool, true, false, Option, none, some, List, [], ◌∷◌, ◌++◌,
  arith, All, length, if◌then◌else◌, Bool-cases, ◌&&◌,
}

module _ {A : Type 0} where
  -- The first row that meets the condition.
  abbrev pub find? : (A → Bool) → List A → Option A
  find? p [] = none
  find? p (r ∷ rows) = if p r then some r else find? p rows

  -- The first row that meets the condition is changed.
  abbrev pub modify : (A → Bool) → (A → A) → List A → List A
  modify p f [] = []
  modify p f (r ∷ rows) = if p r then f r ∷ rows else r ∷ modify p f rows

  -- All rows that meet the condition.
  abbrev pub select : (A → Bool) → List A → List A
  select p [] = []
  select p (r ∷ rows) = if p r then r ∷ select p rows else select p rows

  abbrev pub Contains : A → List A → Type 0
  Contains a [] = ⊥
  Contains a (r ∷ rows) = (a ≡ r) ⊎ Contains a rows

  pub find?-holds : (p : A → Bool) (rows : List A) (r : A) → find? p rows ≡ some r → p r ≡ true
  find?-holds p [] r e = cc
  find?-holds p (x ∷ rows) r e = ground (arith, find?-holds p rows r)

  pub find?-Contains :
      (p : A → Bool) (rows : List A) (r : A) → find? p rows ≡ some r → Contains r rows
  find?-Contains p [] r e = cc
  find?-Contains p (x ∷ rows) r e = ground (arith, find?-Contains p rows r)

  pub find?-never : (rows : List A) → find? (λ r. false) rows ≡ none
  find?-never [] = refl
  find?-never (x ∷ rows) = find?-never rows

  -- A change that keeps the condition is seen by a later look-up.
  pub find?-modify_self :
      (p : A → Bool) (f : A → A) (rows : List A) (r : A)
      → find? p rows ≡ some r
      → p (f r) ≡ true
      → find? p (modify p f rows) ≡ some (f r)
  find?-modify_self p f [] r e h = cc
  find?-modify_self p f (x ∷ rows) r e h = ground (arith, find?-modify_self p f rows r)

  -- Where no row meets the condition nothing changes.
  pub modify-none :
      (p : A → Bool) (f : A → A) (rows : List A) → find? p rows ≡ none → modify p f rows ≡ rows
  modify-none p f [] e = refl
  modify-none p f (x ∷ rows) e = ground (arith, modify-none p f rows)

  -- A change does not touch a look-up under a condition that it cannot alter.
  pub find?-modify_other :
      (p q : A → Bool) (f : A → A) (rows : List A)
      → ((r : A) → p r ≡ true → q r ≡ false)
      → ((r : A) → p r ≡ true → q (f r) ≡ false)
      → find? q (modify p f rows) ≡ find? q rows
  find?-modify_other p q f [] h k = refl
  find?-modify_other p q f (x ∷ rows) h k =
      ground (arith, h x, k x, find?-modify_other p q f rows h k)

  pub find?-append :
      (p : A → Bool) (rows more : List A) (r : A)
      → find? p rows ≡ some r
      → find? p (rows ++ more) ≡ some r
  find?-append p [] more r e = cc
  find?-append p (x ∷ rows) more r e = ground (arith, find?-append p rows more r)

  pub find?-append_none :
      (p : A → Bool) (rows more : List A)
      → find? p rows ≡ none
      → find? p (rows ++ more) ≡ find? p more
  find?-append_none p [] more e = refl
  find?-append_none p (x ∷ rows) more e = ground (arith, find?-append_none p rows more)

  pub length-modify :
      (p : A → Bool) (f : A → A) (rows : List A) → length (modify p f rows) ≡ length rows
  length-modify p f [] = refl
  length-modify p f (x ∷ rows) = ground (arith, length-modify p f rows)

  pub length-select-append :
      (p : A → Bool) (rows more : List A)
      → length (select p (rows ++ more)) ≡ length (select p rows) + length (select p more)
  length-select-append p [] more = omega arith
  length-select-append p (x ∷ rows) more = ground (arith, length-select-append p rows more)

  -- Whether some row meets the condition.
  abbrev pub exists? : (A → Bool) → List A → Bool
  exists? p [] = false
  exists? p (r ∷ rows) = if p r then true else exists? p rows

  pub exists?-select :
      (p q : A → Bool) (rows : List A) → exists? q (select p rows) ≡ exists? (λ r. p r && q r) rows
  exists?-select p q [] = refl
  exists?-select p q (x ∷ rows) = ground (arith, exists?-select p q rows)

  pub exists?-append :
      (p : A → Bool) (rows more : List A) → exists? p rows ≡ true → exists? p (rows ++ more) ≡ true
  exists?-append p [] more e = cc
  exists?-append p (x ∷ rows) more e = ground (arith, exists?-append p rows more)

  pub exists?-last :
      (p : A → Bool) (rows : List A) (r : A) → p r ≡ true → exists? p (rows ++ r ∷ []) ≡ true
  exists?-last p [] r h = rw h
  exists?-last p (x ∷ rows) r h = ground (arith, exists?-last p rows r h)

  pub exists?-modify :
      (p q : A → Bool) (f : A → A) (rows : List A)
      → ((r : A) → q (f r) ≡ q r)
      → exists? q (modify p f rows) ≡ exists? q rows
  exists?-modify p q f [] h = refl
  exists?-modify p q f (x ∷ rows) h = ground (arith, h x, exists?-modify p q f rows h)

  pub exists?_of_find? :
      (p q : A → Bool) (rows : List A) (r : A)
      → find? p rows ≡ some r
      → q r ≡ true
      → exists? q rows ≡ true
  exists?_of_find? p q [] r e h = cc
  exists?_of_find? p q (x ∷ rows) r e h = ground (arith, exists?_of_find? p q rows r)

  pub exists?_of_Contains :
      (q : A → Bool) (rows : List A) (r : A) → Contains r rows → q r ≡ true → exists? q rows ≡ true
  exists?_of_Contains q [] r e h = elim e [ ]
  exists?_of_Contains q (x ∷ rows) r e h = ground (arith, exists?_of_Contains q rows r)

  pub All-modify :
      (P : A → Type 0) (p : A → Bool) (f : A → A) (rows : List A)
      → ((r : A) → P r → P (f r))
      → All P rows
      → All P (modify p f rows)
  All-modify P p f [] k h = tt
  All-modify P p f (x ∷ rows) k (h, hs) = elim (Bool-cases (p x)) [
    | inl yes' ↦ rw yes' (k x h, hs)
    | inr no' ↦ rw no' (h, All-modify P p f rows k hs)
  ]

  -- Only the row that a look-up finds is changed.
  pub All-modify_found :
      (P : A → Type 0) (p : A → Bool) (f : A → A) (rows : List A) (r : A)
      → find? p rows ≡ some r
      → P (f r)
      → All P rows
      → All P (modify p f rows)
  All-modify_found P p f [] r e k h = tt
  All-modify_found P p f (x ∷ rows) r e k (h, hs) = elim (Bool-cases (p x)) [
    | inl here ↦ let same : r ≡ x = ground arith in rw here (subst (λ y. P (f y)) same k, hs)
    | inr later ↦ rw later (h, All-modify_found P p f rows r (ground arith) k hs)
  ]

  pub length-select-modify_found :
      (p q : A → Bool) (f : A → A) (rows : List A) (r : A)
      → find? p rows ≡ some r
      → (q (f r) ≡ true → q r ≡ true)
      → length (select q (modify p f rows)) ≤ length (select q rows)
  length-select-modify_found p q f [] r e k = omega arith
  length-select-modify_found p q f (x ∷ rows) r e k =
      ground (arith, length-select-modify_found p q f rows r)

  pub length-select-never :
      (q : A → Bool) (rows : List A) → All (λ r. q r ≡ false) rows → length (select q rows) ≡ 0
  length-select-never q [] h = refl
  length-select-never q (x ∷ rows) (h, hs) = ground (arith, length-select-never q rows)

  pub All_of_find? :
      (P : A → Type 0) (p : A → Bool) (rows : List A) (r : A)
      → All P rows
      → find? p rows ≡ some r
      → P r
  All_of_find? P p [] r h e = cc
  All_of_find? P p (x ∷ rows) r (h, hs) e = elim (Bool-cases (p x)) [
    | inl here ↦ let same : x ≡ r = ground arith in subst P same h
    | inr later ↦ All_of_find? P p rows r hs (ground arith)
  ]
