-- ===== src/Api/AdminGuard/Tests.antt =====
-- Two administrators, and a text with blanks.
use carbon_veritas.Base.{◌≡◌, refl, String, true, some, List, [], ◌∷◌, str_eq, join}
use carbon_veritas.Store.Rows.{exists?}
use carbon_veritas.Api.AdminGuard.{
  split_comma, is_space, trim_start, trim_end, admin_wallets, can_activate,
}
use carbon_veritas.Api.AdminGuard.Admits.{NoComma, can_activate-admits}

abbrev admins : List String
admins = "GA" ∷ "GB" ∷ []

can_activate-admits_example :
    can_activate (some (join "," admins)) (some "GB") ≡ exists? (λ a. str_eq a "GB") admins
unfolding NoComma is_space trim_start trim_end
can_activate-admits_example =
    can_activate-admits admins "GB"
      (((refl, (refl, tt)), refl, refl), (((refl, (refl, tt)), refl, refl), tt)) refl

blanks_trimmed : can_activate (some " GA , ,GB\n") (some "GB") ≡ true
unfolding can_activate admin_wallets split_comma is_space trim_start trim_end
blanks_trimmed = refl
