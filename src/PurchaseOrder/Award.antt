-- ===== src/PurchaseOrder/Award.antt =====
-- The lines of an order from the quote that was awarded, `linesFromAwardedQuote` of
-- apps/api/src/purchase-order/purchase-order.service.ts. A field of a quote's line is what `Number`
-- makes of it, if that is an integer; the text of a description is kept only if it is a text.
pub mod Laws
mod Tests
use aipms.Prelude.{
  ℕ, suc, not, ◌&&◌, Option, none, some, List, [], ◌∷◌, ◌++◌, Error, Result, ok, err, ◌>>=◌, ◌>>◌,
  throw_if, or_throw, if◌then◌else◌,
}
use aipms.Prelude.Int.{ℤ, pos, ◌*ℤ◌, leb_ℤ, ltb_ℤ, eqb_ℤ, sum_of}
use aipms.Prelude.Text.{Text, units, trim}
use aipms.Money.{assert_database_int, is_safe_integer}
use aipms.Policy.Config.{is_blank}
use aipms.Database.{OrderLine, Quote, QuoteLine}
use aipms.DocumentNumber.{to_digits}

-- A supplied quantity and unit price that are safe integers of the right sign, with the amount as
-- their product.
unfoldable pub breakdown : QuoteLine → ℤ → Option (ℤ × ℤ)
breakdown line amount = elim line.quantity [
  | none ↦ none
  | some quantity ↦ elim line.unit_price_minor [
    | none ↦ none
    | some price ↦
        if is_safe_integer quantity
          && ltb_ℤ (pos 0) quantity
          && is_safe_integer price
          && leb_ℤ (pos 0) price
          && eqb_ℤ (quantity *ℤ price) amount
        then some (quantity, price)
        else none
  ]
]

-- One unit at the amount, where the supplied breakdown is not used.
abbrev pub quantity_of : Option (ℤ × ℤ) → ℤ
quantity_of none = pos 1
quantity_of (some (quantity, price)) = quantity

abbrev pub price_of : ℤ → Option (ℤ × ℤ) → ℤ
price_of amount none = amount
price_of amount (some (quantity, price)) = price

unfoldable pub description_of : ℕ → Option Text → Text
description_of n none = units "Awarded quote line " ++ to_digits n
description_of n (some text) =
    if is_blank (trim text) then units "Awarded quote line " ++ to_digits n else trim text

unfoldable pub awarded_line : Text → ℕ → Option QuoteLine → Result OrderLine
awarded_line currency n none = err (Error.bad_request "Accepted quote contains invalid lines")
awarded_line currency n (some line) = do
  given_amount ← or_throw line.amount_minor (Error.bad_request "Accepted quote line amount")
  amount ← assert_database_int given_amount
  ok (record {
    line_no = n;
    sku = line.sku;
    description = description_of n line.description;
    quantity = quantity_of (breakdown line amount);
    unit = units "ea";
    unit_price_minor = price_of amount (breakdown line amount);
    currency_code = currency;
    line_total_minor = amount;
  })

unfoldable pub awarded_lines : Text → ℕ → List (Option QuoteLine) → Result (List OrderLine)
awarded_lines currency n [] = ok []
awarded_lines currency n (line ∷ lines) =
    let rest = awarded_lines currency (suc n) lines in
    awarded_line currency n line >>= λ l. rest >>= λ ls. ok (l ∷ ls)

abbrev pub total_of_lines : List OrderLine → ℤ
total_of_lines lines = sum_of (λ (l : OrderLine). l.line_total_minor) lines

-- The one line of a quote that has no lines.
abbrev pub whole_quote : Quote → Text → ℤ → OrderLine
whole_quote quote currency total = record {
  line_no = 1;
  sku = none;
  description = units "Awarded quote " ++ to_digits quote.id;
  quantity = pos 1;
  unit = units "ea";
  unit_price_minor = total;
  currency_code = currency;
  line_total_minor = total;
}

unfoldable pub quoted_lines : Quote → Text → ℤ → List (Option QuoteLine) → Result (List OrderLine)
quoted_lines quote currency total [] = ok (whole_quote quote currency total ∷ [])
quoted_lines quote currency total (first ∷ others) = do
  lines ← awarded_lines currency 1 (first ∷ others)
  sum ← assert_database_int (total_of_lines lines)
  throw_if (not (eqb_ℤ sum total))
      (Error.bad_request "Accepted quote lines do not equal its commercial total")
  ok lines

unfoldable pub lines_from_awarded_quote : Quote → Text → Result (List OrderLine)
lines_from_awarded_quote quote currency = do
  given_total ← or_throw quote.total_minor (Error.conflict "Accepted quote has no commercial total")
  total ← assert_database_int given_total
  throw_if (leb_ℤ total (pos 0)) (Error.bad_request "Accepted quote total must be positive")
  quoted_lines quote currency total quote.lines
