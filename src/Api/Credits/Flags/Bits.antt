-- ===== src/Api/Credits/Flags/Bits.antt =====
-- Which bits the flags have.
use carbon_veritas.Base.{
  ◌≡◌, refl, ◌∙◌, ℕ, zero, suc, ◌<◌, ◌-◌, not, Bool-cases, inl, inr, ◌+◌, ◌*◌, ◌/◌, ◌%◌, Bool, true,
  false, ◌||◌, List, [], ◌∷◌, ◌==◌, arith, if◌then◌else◌,
}
use carbon_veritas.Store.Rows.{exists?}
use carbon_veritas.Store.Schema.{ℤ, pos, negsuc}
use carbon_veritas.Api.Credits.Flags.{
  set_bit, goal_bit, set_goals, complement, test_bit, int32, compute_sdg_flags,
}

half_odd : (m : ℕ) → (m * 2 + 1) / 2 ≡ m
half_odd m = omega arith

half_digit : (m n : ℕ) → (m * 2 + n % 2) / 2 ≡ m
half_digit m n = omega arith

test_bit-set_bit : (j k n : ℕ) → test_bit j (set_bit k n) ≡ (if k == j then true else test_bit j n)
unfolding test_bit set_bit
test_bit-set_bit zero zero n = ground arith
test_bit-set_bit (suc j) zero n = rw (half_odd (n / 2)) (ground arith)
test_bit-set_bit zero (suc k) n = ground arith
test_bit-set_bit (suc j) (suc k) n =
    rw (half_digit (set_bit k (n / 2)) n) (test_bit-set_bit j k (n / 2) ∙ ground arith)

test_bit-zero : (j : ℕ) → test_bit j 0 ≡ false
unfolding test_bit
test_bit-zero zero = refl
test_bit-zero (suc j) = test_bit-zero j

set_goals-test_bit :
    (j : ℕ) (goals : List ℤ) (acc : ℕ)
    → test_bit j (set_goals acc goals) ≡ exists? (λ g. goal_bit g == j) goals || test_bit j acc
unfolding set_goals
set_goals-test_bit j [] acc = refl
set_goals-test_bit j (g ∷ gs) acc =
    ground (
      arith,
      set_goals-test_bit j gs (set_bit (goal_bit g) acc),
      test_bit-set_bit j (goal_bit g) acc,
    )

test_bit-complement :
    (j width n : ℕ) → j < width → test_bit j (complement width n) ≡ not (test_bit j n)
unfolding test_bit complement
test_bit-complement j zero n less = ground (arith, less)
test_bit-complement zero (suc width) n less = ground arith
test_bit-complement (suc j) (suc width) n less =
    let half : (complement width (n / 2) * 2 + (1 - n % 2)) / 2 ≡ complement width (n / 2) =
      omega arith in
    rw half (test_bit-complement j width (n / 2) (omega (arith, less)))

-- The bit `j` of a whole number, in two's complement.
unfoldable pub int_bit : ℕ → ℤ → Bool
int_bit j (pos n) = test_bit j n
int_bit j (negsuc n) = not (test_bit j n)

int_bit-int32 : (j n : ℕ) → j < 32 → int_bit j (int32 n) ≡ test_bit j n
unfolding int_bit int32
int_bit-int32 j n less = elim (Bool-cases (test_bit 31 n)) [
  | inl negative ↦ rw (negative, test_bit-complement j 32 n less) (ground arith)
  | inr positive ↦ rw positive refl
]

-- Whether a goal is `j + 1` modulo 32.
unfoldable pub is_goal : ℕ → ℤ → Bool
is_goal j (pos g) = g % 32 == (j + 1) % 32
is_goal j (negsuc n) = (n + 1 + (j + 1)) % 32 == 0

goal_bit-is_goal : (j : ℕ) (g : ℤ) → j < 32 → (goal_bit g == j) ≡ is_goal j g
unfolding is_goal
goal_bit-is_goal j (pos g) less = ground arith
goal_bit-is_goal j (negsuc n) less = ground arith

exists?-is_goal :
    (j : ℕ) (goals : List ℤ)
    → j < 32
    → exists? (λ g. goal_bit g == j) goals ≡ exists? (is_goal j) goals
exists?-is_goal j [] less = refl
exists?-is_goal j (g ∷ gs) less = rw (goal_bit-is_goal j g less, exists?-is_goal j gs less) refl

-- For each of the 32 bits, the bit `j` of the SDG flags, a signed number in two's complement, is
-- set exactly when one of the goals, which may be negative, is `j + 1` modulo 32, however often
-- and in whatever order the goals are given.
pub compute_sdg_flags-bits :
    (goals : List ℤ) (j : ℕ)
    → j < 32
    → int_bit j (compute_sdg_flags goals) ≡ exists? (is_goal j) goals
unfolding compute_sdg_flags
compute_sdg_flags-bits goals j less =
    int_bit-int32 j (set_goals 0 goals) less
    ∙ set_goals-test_bit j goals 0
    ∙ rw (exists?-is_goal j goals less) (ground (arith, test_bit-zero j))
