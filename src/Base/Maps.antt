-- ===== src/Base/Maps.antt =====
-- JavaScript's `Map`: entries in the order in which their keys were first set.
use mathlib.Core.Path.{◌≡◌, refl, ap}
use mathlib.Core.Bool.{Bool, true, false}
use mathlib.Core.Logic.{inl, inr}
use mathlib.Core.Option.{Option, none, some}
use mathlib.Core.List.{List, [], ◌∷◌, ◌++◌}
use native.Mathlib.Omega.{arith}
use carbon_veritas.Base.Tests.{if◌then◌else◌, Bool-cases}

module _ {ℓ κ} {K : Type ℓ} {V : Type κ} (same : K → K → Bool) where
  unfoldable pub get_key : K → List (K × V) → Option V
  get_key k [] = none
  get_key k ((k', v) ∷ m) = let rest = get_key k m in if same k' k then some v else rest

  unfoldable pub set_key : K → V → List (K × V) → List (K × V)
  set_key k v [] = (k, v) ∷ []
  set_key k v ((k', v') ∷ m) =
      let rest = set_key k v m in if same k' k then (k', v) ∷ m else (k', v') ∷ rest

  module _ (same_refl : (k : K) → same k k ≡ true) where
    pub get_key-set_key : (k : K) (v : V) (m : List (K × V)) → get_key k (set_key k v m) ≡ some v
    unfolding get_key set_key
    get_key-set_key k v [] = rw (same_refl k) refl
    get_key-set_key k v ((k', v') ∷ m) = elim (Bool-cases (same k' k)) [
      | inl match ↦ rw (match, match) refl
      | inr differ ↦ rw (differ, differ) (get_key-set_key k v m)
    ]

  -- No key matches both of two different keys.
  pub get_key-set_key-other :
      (k j : K) (v : V) (m : List (K × V))
      → same j k ≡ false
      → ((i : K) → same i j ≡ true → same i k ≡ false)
      → get_key k (set_key j v m) ≡ get_key k m
  unfolding get_key set_key
  get_key-set_key-other k j v [] other agree = rw other refl
  get_key-set_key-other k j v ((i, u) ∷ m) other agree = elim (Bool-cases (same i j)) [
    | inl here ↦ rw (here, agree i here) refl
    | inr differ ↦ elim (Bool-cases (same i k)) [
      | inl found ↦ rw (differ, found) refl
      | inr later ↦ rw (differ, later) (get_key-set_key-other k j v m other agree)
    ]
  ]

  -- An entry behind others with different keys.
  module _ (same_refl : (k : K) → same k k ≡ true) where
    pub get_key-behind :
        (k : K) (v : V) (front rest : List (K × V))
        → get_key k front ≡ none
        → get_key k (front ++ (k, v) ∷ rest) ≡ some v
    unfolding get_key
    get_key-behind k v [] rest h = rw (same_refl k) refl
    get_key-behind k v ((i, u) ∷ front) rest h = elim (Bool-cases (same i k)) [
      | inl match ↦ ground arith
      | inr differ ↦ rw differ (get_key-behind k v front rest (ground arith))
    ]

    pub set_key-behind :
        (k : K) (u v : V) (front rest : List (K × V))
        → get_key k front ≡ none
        → set_key k v (front ++ (k, u) ∷ rest) ≡ front ++ (k, v) ∷ rest
    unfolding get_key set_key
    set_key-behind k u v [] rest h = rw (same_refl k) refl
    set_key-behind k u v ((i, w) ∷ front) rest h = elim (Bool-cases (same i k)) [
      | inl match ↦ ground arith
      | inr differ ↦
          rw differ (ap (λ m. (i, w) ∷ m) (set_key-behind k u v front rest (ground arith)))
    ]
