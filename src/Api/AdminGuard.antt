-- ===== src/Api/AdminGuard.antt =====
-- `AdminGuard`, api/src/admin/admin.guard.ts: which wallets are administrators, from the text of
-- ADMIN_WALLETS. An exception of the guard is `false`.
pub mod Admits
mod Tests
use Prim.Native.Char.{code}
use carbon_veritas.Base.{
  ℕ, String, Bool, true, false, not, ◌&&◌, ◌||◌, Option, none, some, List, [], ◌∷◌, map, leb, ◌==◌,
  str_eq, or_else, if◌then◌else◌,
}
use carbon_veritas.Store.Rows.{select, exists?}

-- The first part of a text that is cut, and the others.
abbrev pub Parts : Type 0
Parts = String × List String

abbrev pub parts : Parts → List String
parts (first, rest) = first ∷ rest

-- `text.split(',')`
unfoldable pub split_comma : String → Parts
split_comma String.[] = ("", [])
split_comma (String.◌∷◌ c s) =
    let (first, rest) = split_comma s in
    if code c == b',' then ("", first ∷ rest) else (String.◌∷◌ c first, rest)

-- White space and line ends of JavaScript.
unfoldable pub is_space : ℕ → Bool
is_space n =
    leb 9 n && leb n 13
    || (n == 32
        || (n == 0xA0
            || (n == 0x1680
                || (leb 0x2000 n && leb n 0x200A
                    || (n == 0x2028
                        || (n == 0x2029
                            || (n == 0x202F || (n == 0x205F || (n == 0x3000 || n == 0xFEFF)))))))))

unfoldable pub trim_start : String → String
trim_start String.[] = ""
trim_start (String.◌∷◌ c s) =
    let rest = trim_start s in if is_space (code c) then rest else String.◌∷◌ c s

unfoldable pub trim_end : String → String
trim_end String.[] = ""
trim_end (String.◌∷◌ c s) =
    let rest = trim_end s in if is_space (code c) && str_eq rest "" then "" else String.◌∷◌ c rest

abbrev pub trim : String → String
trim s = trim_end (trim_start s)

-- `(text ?? '').split(',').map((entry) => entry.trim()).filter(Boolean)`
unfoldable pub admin_wallets : Option String → List String
admin_wallets text =
    select (λ e. not (str_eq e "")) (map trim (parts (split_comma (or_else text ""))))

-- The wallet of the request's user, if there is one.
unfoldable pub can_activate : Option String → Option String → Bool
can_activate config none = false
can_activate config (some wallet) =
    if str_eq wallet "" then false else exists? (λ a. str_eq a wallet) (admin_wallets config)
