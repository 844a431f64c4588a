-- ===== src/Money.antt =====
-- Minor units and currency codes at the database's boundary,
-- apps/api/src/shared/money/minor-units.ts.
pub mod Laws
mod Tests
use aipms.Prelude.{
  ℕ, ◌-◌, Bool, true, false, ◌&&◌, ◌||◌, not, String, List, [], ◌∷◌, Result, ok, err, Error, ◌>>=◌,
  ◌>>◌, throw_if, leb, if◌then◌else◌,
}
use aipms.Prelude.Int.{ℤ, pos, negsuc, ltb_ℤ, leb_ℤ}
use aipms.Prelude.Text.{Text, text_eq, trim, to_upper_case, units}

abbrev pub database_int_max : ℕ
database_int_max = 2147483647

abbrev pub is_safe_integer : ℤ → Bool
is_safe_integer v = leb_ℤ (negsuc 9007199254740990) v && leb_ℤ v (pos 9007199254740991)

-- `assertDatabaseInt`; `nonnegative` is the option, true where the caller gives none.
unfoldable pub assert_database_int_from : Bool → ℤ → Result ℤ
assert_database_int_from nonnegative value =
    let minimum = if nonnegative then pos 0 else negsuc database_int_max in
    if not (is_safe_integer value) || ltb_ℤ value minimum || ltb_ℤ (pos database_int_max) value
    then err (Error.bad_request "exceeds the supported signed 32-bit integer range")
    else ok value

unfoldable pub assert_database_int : ℤ → Result ℤ
unfolding assert_database_int_from
assert_database_int value = assert_database_int_from true value

unfoldable pub is_letter : ℕ → Bool
is_letter c = leb b'A' c && leb c b'Z'

-- /^[A-Z]{3}$/
unfoldable pub is_code : Text → Bool
unfolding is_letter
is_code (a ∷ b ∷ c ∷ []) = is_letter a && is_letter b && is_letter c
is_code _ = false

unfoldable pub normalize_currency_code : Text → Result Text
normalize_currency_code value =
    let code = to_upper_case (trim value) in
    if is_code code then ok code else err (Error.bad_request "must be a three-letter code")

abbrev pub includes : List Text → Text → Bool
includes [] t = false
includes (s ∷ ss) t = text_eq s t || includes ss t

-- `new Set(values.map(...))`: the distinct codes; a code that is refused throws.
unfoldable pub currency_set : List Text → Result (List Text)
currency_set [] = ok []
currency_set (value ∷ values) = do
  code ← normalize_currency_code value
  codes ← currency_set values
  ok (if includes codes code then codes else code ∷ codes)

-- The end of `assertSingleCurrency`: a set of one code.
unfoldable pub only_currency : List Text → Result Text
only_currency (currency ∷ []) = ok currency
only_currency _ =
    err (Error.bad_request "must use one currency; currency conversion is not configured")

unfoldable pub assert_single_currency : List Text → Result Text
assert_single_currency values = do currencies ← currency_set values; only_currency currencies
