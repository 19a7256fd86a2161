-- ===== src/Base/Text.antt =====
-- Texts put together from parts.
use Prim.Native.String.{String, ◌++◌}
use mathlib.Core.List.{List, [], ◌∷◌}

-- `parts.join(separator)`
unfoldable pub join : String → List String → String
join separator [] = ""
join separator (p ∷ []) = p
join separator (p ∷ q ∷ rest) = p ++ (separator ++ join separator (q ∷ rest))
