-- ===== src/Api/Credits/Flags.antt =====
-- The serial prefix and the SDG flags of a new credit: `generateSerialPrefix` and
-- `computeSdgFlags` of api/src/credits/credits.service.ts.
mod Tests
pub mod Bits
use Prim.Native.Char.{Char, code}
use carbon_veritas.Store.Schema.{ℤ, pos, negsuc}
use carbon_veritas.Base.{
  ℕ, zero, suc, ◌+◌, ◌-◌, ◌*◌, ◌==◌, ◌/◌, ◌%◌, String, Bool, ◌&&◌, ◌||◌, List, [], ◌∷◌, leb,
  if◌then◌else◌, glue,
}

-- `[A-Za-z0-9]`
abbrev is_alphanumeric : ℕ → Bool
is_alphanumeric n =
    leb b'A' n && leb n b'Z' || (leb b'a' n && leb n b'z' || leb b'0' n && leb n b'9')

-- `methodology.replace(/[^A-Za-z0-9]/g, '')`
unfoldable pub alphanumerics : String → String
alphanumerics String.[] = ""
alphanumerics (String.◌∷◌ c s) =
    let rest = alphanumerics s in if is_alphanumeric (code c) then String.◌∷◌ c rest else rest

-- `text.substring(0, n)`
unfoldable pub first_chars : ℕ → String → String
first_chars zero s = ""
first_chars (suc n) String.[] = ""
first_chars (suc n) (String.◌∷◌ c s) = String.◌∷◌ c (first_chars n s)

-- `upper` is `toUpperCase`.
unfoldable pub generate_serial_prefix : (String → String) → String → String → String
generate_serial_prefix upper project_id methodology =
    glue project_id (glue "-" (glue (upper (first_chars 6 (alphanumerics methodology))) "-"))

-- The number `n` with the bit `k` set: `n | (1 << k)`.
unfoldable pub set_bit : ℕ → ℕ → ℕ
set_bit zero n = n / 2 * 2 + 1
set_bit (suc k) n = set_bit k (n / 2) * 2 + n % 2

-- The bit of a goal, `g - 1` modulo 32: `<<` takes its right operand so.
abbrev pub goal_bit : ℤ → ℕ
goal_bit (pos g) = (g + 31) % 32
goal_bit (negsuc n) = 31 - (n + 1) % 32

-- `goals.reduce((acc, g) => acc | (1 << (g - 1)), acc)`, as the 32 bits of the result.
unfoldable pub set_goals : ℕ → List ℤ → ℕ
set_goals acc [] = acc
set_goals acc (goal ∷ goals) = set_goals (set_bit (goal_bit goal) acc) goals

-- `~n` on `width` bits.
unfoldable pub complement : ℕ → ℕ → ℕ
complement zero n = 0
complement (suc width) n = complement width (n / 2) * 2 + (1 - n % 2)

-- Whether the bit `k` is set.
unfoldable pub test_bit : ℕ → ℕ → Bool
test_bit zero n = n % 2 == 1
test_bit (suc k) n = test_bit k (n / 2)

-- The number that 32 bits are in JavaScript: the last one is its sign.
unfoldable pub int32 : ℕ → ℤ
int32 n = if test_bit 31 n then negsuc (complement 32 n) else pos n

unfoldable pub compute_sdg_flags : List ℤ → ℤ
compute_sdg_flags goals = int32 (set_goals 0 goals)
