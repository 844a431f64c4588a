-- ===== src/Money/Tests.antt =====
-- Amounts and currency codes at the boundary.
use aipms.Prelude.{◌≡◌, ◌≢◌, ◌↔◌, ok, [], ◌∷◌, All, List}
use aipms.Prelude.Text.{Text, units}
use aipms.Money.{normalize_currency_code, assert_single_currency}
use aipms.Money.Laws.{assert_single_currency_iff}

abbrev codes : List Text
codes = units "PHP" ∷ units " php" ∷ []

assert_single_currency_iff_example :
    (assert_single_currency codes ≡ ok (units "PHP"))
    ↔ ((codes ≢ []) × All (λ v. normalize_currency_code v ≡ ok (units "PHP")) codes)
assert_single_currency_iff_example = assert_single_currency_iff codes (units "PHP")
