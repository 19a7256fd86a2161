-- ===== src/Api/Requests/Lifecycle.antt =====
-- The life of a credit as an abstract machine, and tables that follow it.
pub mod Refines
use carbon_veritas.Base.{
  ◌≡◌, refl, sym, ◌∙◌, ℕ, Bool, true, some, List, [], ◌∷◌, ◌++◌, arith, All, Bool-cases, inl, inr,
}
use mathlib.Core.Path.{subst}
use carbon_veritas.Store.Rows.{find?, modify}
use carbon_veritas.Store.Schema.{Credit, CreditStatus}

-- The moves of the machine: a credit waits, is minted or refused, and may be retired once minted.
pub data Move : CreditStatus → CreditStatus → Type 0 where
  to_active : Move CreditStatus.pending CreditStatus.active
  to_rejected : Move CreditStatus.pending CreditStatus.rejected
  to_retired : Move CreditStatus.active CreditStatus.retired

pub data Moves (a : CreditStatus) : CreditStatus → Type 0 where
  stay : Moves a a
  then : {b c : CreditStatus} → Moves a b → Move b c → Moves a c

pub Moves-trans : {a b c : CreditStatus} → Moves a b → Moves b c → Moves a c
Moves-trans m stay = m
Moves-trans m (then n step) = then (Moves-trans m n) step

-- Every credit of the first table is in the second, at the same place and under the same keys, with
-- a status that the machine reaches from its old one; the credits behind them are new, with a
-- status that it reaches from the first.
abbrev pub Evolves : List Credit → List Credit → Type 0
Evolves [] new = All (λ c. Moves CreditStatus.pending c.status) new
Evolves (c ∷ cs) [] = ⊥
Evolves (c ∷ cs) (d ∷ ds) =
    (c.id ≡ d.id) × (c.credit_id ≡ d.credit_id) × Moves c.status d.status × Evolves cs ds

pub Evolves-refl : (cs : List Credit) → Evolves cs cs
Evolves-refl [] = tt
Evolves-refl (c ∷ cs) = (refl, refl, stay, Evolves-refl cs)

new-Evolves :
    (new later : List Credit)
    → All (λ c. Moves CreditStatus.pending c.status) new
    → Evolves new later
    → All (λ c. Moves CreditStatus.pending c.status) later
new-Evolves [] later h e = e
new-Evolves (c ∷ cs) [] h e = elim e [ ]
new-Evolves (c ∷ cs) (d ∷ ds) (m, h) (_, _, n, e) = (Moves-trans m n, new-Evolves cs ds h e)

pub Evolves-trans : (xs bs cs : List Credit) → Evolves xs bs → Evolves bs cs → Evolves xs cs
Evolves-trans [] bs cs h e = new-Evolves bs cs h e
Evolves-trans (a ∷ xs) [] cs h e = elim h [ ]
Evolves-trans (a ∷ xs) (b ∷ bs) [] h e = elim e [ ]
Evolves-trans (a ∷ xs) (b ∷ bs) (c ∷ cs) (i, n, m, h) (j, k, l, e) =
    (i ∙ j, n ∙ k, Moves-trans m l, Evolves-trans xs bs cs h e)

pub Evolves-append :
    (cs : List Credit) (c : Credit) → c.status ≡ CreditStatus.pending → Evolves cs (cs ++ c ∷ [])
Evolves-append [] c e = (subst (λ s. Moves CreditStatus.pending s) (sym e) stay, tt)
Evolves-append (x ∷ cs) c e = (refl, refl, stay, Evolves-append cs c e)

-- A change of the row that a look-up finds.
pub Evolves-modify :
    (p : Credit → Bool) (f : Credit → Credit) (cs : List Credit) (c : Credit)
    → find? p cs ≡ some c
    → ((x : Credit) → ((f x).id ≡ x.id) × ((f x).credit_id ≡ x.credit_id))
    → Moves c.status (f c).status
    → Evolves cs (modify p f cs)
Evolves-modify p f [] c found keys m = tt
Evolves-modify p f (x ∷ cs) c found keys m = elim (Bool-cases (p x)) [
  | inl here ↦
      let same : c ≡ x = ground arith in
      rw here (
        sym ((keys x).0),
        sym ((keys x).1),
        subst (λ y. Moves y.status (f y).status) same m,
        Evolves-refl cs,
      )
  | inr later ↦ rw later (refl, refl, stay, Evolves-modify p f cs c (ground arith) keys m)
]
