-- ===== src/Api/AdminGuard/Admits.antt =====
-- Who is admitted.
use Prim.Native.Char.{code}
use text.Mathlib.TextLemmas.{nil-append, cons-append}
use carbon_veritas.Base.{
  ◌≡◌, refl, ap, ◌∙◌, String, false, not, some, List, [], ◌∷◌, map, ◌==◌, str_eq, join, glue, All,
}
use carbon_veritas.Store.Rows.{select, exists?}
use carbon_veritas.Api.AdminGuard.{
  split_comma, trim, trim_start, trim_end, admin_wallets, can_activate,
}

-- A text without a comma.
unfoldable pub NoComma : String → Type 0
NoComma String.[] = Unit
NoComma (String.◌∷◌ c s) = ((code c == b',') ≡ false) × NoComma s

-- An entry that stands for itself: it has no comma, nothing around it to trim, and is not empty.
abbrev pub IsEntry : String → Type 0
IsEntry e = NoComma e × (trim e ≡ e) × (str_eq e "" ≡ false)

split_one : (e : String) → NoComma e → split_comma e ≡ (e, [])
unfolding split_comma NoComma
split_one String.[] h = refl
split_one (String.◌∷◌ c s) (h, hs) = rw (split_one s hs, h) refl

split_before :
    (e t first : String) (rest : List String)
    → NoComma e
    → split_comma t ≡ (first, rest)
    → split_comma (glue e (String.◌∷◌ "," t)) ≡ (e, first ∷ rest)
unfolding split_comma NoComma
split_before String.[] t first rest h r = rw (nil-append (String.◌∷◌ "," t), r) refl
split_before (String.◌∷◌ c s) t first rest (h, hs) r =
    rw (cons-append c s (String.◌∷◌ "," t), split_before s t first rest hs r, h) refl

one_comma : (x : String) → glue "," x ≡ String.◌∷◌ "," x
one_comma x = cons-append "," "" x ∙ ap (String.◌∷◌ ",") (nil-append x)

split_join :
    (e : String) (es : List String)
    → All NoComma (e ∷ es)
    → split_comma (join "," (e ∷ es)) ≡ (e, es)
unfolding join
split_join e [] (h, hs) = split_one e h
split_join e (d ∷ ds) (h, hs) =
    rw (one_comma (join "," (d ∷ ds)))
      (split_before e (join "," (d ∷ ds)) d ds h (split_join d ds hs))

kept : (es : List String) → All IsEntry es → select (λ e. not (str_eq e "")) (map trim es) ≡ es
kept [] h = refl
kept (e ∷ es) ((_, trimmed, filled), hs) = rw (trimmed, filled) (ap (λ l. e ∷ l) (kept es hs))

no_commas : (es : List String) → All IsEntry es → All NoComma es
no_commas [] h = tt
no_commas (e ∷ es) ((h, _, _), hs) = (h, no_commas es hs)

admin_wallets-join :
    (e : String) (es : List String)
    → All IsEntry (e ∷ es)
    → admin_wallets (some (join "," (e ∷ es))) ≡ e ∷ es
unfolding admin_wallets
admin_wallets-join e es h = rw (split_join e es (no_commas (e ∷ es) h)) (kept (e ∷ es) h)

-- When ADMIN_WALLETS is a list of wallets with commas between them, each without a comma, without
-- blanks around it and not empty, the guard admits a user with a wallet that is not empty exactly
-- when the wallet is in the list; nobody is admitted when the list is empty.
pub can_activate-admits :
    (wallets : List String) (wallet : String)
    → All IsEntry wallets
    → str_eq wallet "" ≡ false
    → can_activate (some (join "," wallets)) (some wallet) ≡ exists? (λ a. str_eq a wallet) wallets
unfolding can_activate admin_wallets split_comma join trim_start trim_end
can_activate-admits [] wallet h filled = rw filled refl
can_activate-admits (e ∷ es) wallet h filled = rw (filled, admin_wallets-join e es h) refl
