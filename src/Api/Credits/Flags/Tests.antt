-- ===== src/Api/Credits/Flags/Tests.antt =====
-- The flags of three goals, and a prefix.
use carbon_veritas.Base.{◌≡◌, refl, List, [], ◌∷◌, arith}
use carbon_veritas.Store.Rows.{exists?}
use carbon_veritas.Store.Schema.{ℤ, pos, negsuc}
use carbon_veritas.Api.Credits.Flags.{
  test_bit, int32, complement, set_bit, set_goals, compute_sdg_flags, alphanumerics, first_chars,
  generate_serial_prefix,
}
use carbon_veritas.Api.Credits.Flags.Bits.{int_bit, is_goal, compute_sdg_flags-bits}

abbrev goals : List ℤ
goals = pos 1 ∷ pos 13 ∷ pos 13 ∷ []

goals_flagged : compute_sdg_flags goals ≡ pos 4097
unfolding compute_sdg_flags set_goals set_bit int32 test_bit
goals_flagged = refl

-- The goal 0 is the sign.
sign_flagged : compute_sdg_flags (pos 0 ∷ []) ≡ negsuc 2147483647
unfolding compute_sdg_flags set_goals set_bit int32 test_bit complement
sign_flagged = refl

compute_sdg_flags-bits_example : int_bit 12 (compute_sdg_flags goals) ≡ exists? (is_goal 12) goals
compute_sdg_flags-bits_example = compute_sdg_flags-bits goals 12 (omega arith)

prefix_made : generate_serial_prefix (λ s. s) "AMZ" "VM-0007.1" ≡ "AMZ-VM0007-"
unfolding generate_serial_prefix alphanumerics first_chars
prefix_made = refl
