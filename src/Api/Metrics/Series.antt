-- ===== src/Api/Metrics/Series.antt =====
-- The series of a name and a key after one call has stored a value.
use carbon_veritas.Base.{
  ◌≡◌, refl, sym, String, true, false, some, List, [], str_eq, or_else, get_key, set_key,
  get_key-set_key, get_key-set_key-other, eq_iff, eq_refl,
}
use mathlib.Core.Path.{subst}
use carbon_veritas.Api.Metrics.{series}

module _ {A : Type 0} (n k : String) (a : A) (m : List (String × List (String × A))) where
  abbrev pub stored : List (String × List (String × A))
  stored = set_key str_eq n (set_key str_eq k a (or_else (get_key str_eq n m) [])) m

  different :
      (x y : String) → str_eq x y ≡ false → (z : String) → str_eq z x ≡ true → str_eq z y ≡ false
  different x y h z e = subst (λ w. str_eq w y ≡ false) (sym ((eq_iff _ _).0 e)) h

  pub stored-same : series n k stored ≡ some a
  stored-same =
      rw (get_key-set_key str_eq eq_refl n (set_key str_eq k a (or_else (get_key str_eq n m) [])) m)
        (get_key-set_key str_eq eq_refl k a (or_else (get_key str_eq n m) []))

  pub stored-other_key :
      (key : String) → str_eq k key ≡ false → series n key stored ≡ series n key m
  stored-other_key key h =
      rw (get_key-set_key str_eq eq_refl n (set_key str_eq k a (or_else (get_key str_eq n m) [])) m)
        (get_key-set_key-other str_eq key k a (or_else (get_key str_eq n m) []) h
          (different k key h))

  pub stored-other_name :
      (name key : String) → str_eq n name ≡ false → series name key stored ≡ series name key m
  stored-other_name name key h =
      rw
        (get_key-set_key-other str_eq name n (set_key str_eq k a (or_else (get_key str_eq n m) []))
          m h (different n name h))
        refl
