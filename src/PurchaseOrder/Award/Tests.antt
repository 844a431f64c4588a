-- ===== src/PurchaseOrder/Award/Tests.antt =====
-- The lines of a quote of two rows.
use aipms.Prelude.{◌≡◌, refl, [], ◌∷◌, List, Option, some, none, ok}
use aipms.Prelude.Int.{pos, ◌≤ℤ◌}
use aipms.Prelude.Text.{units}
use aipms.Database.{Quote, QuoteStatus}
use aipms.Database.Samples.{php, pens}
use aipms.PurchaseOrder.Award.{lines_from_awarded_quote, total_of_lines}
use aipms.PurchaseOrder.Award.Laws.{lines_from_awarded_quote_total}

abbrev quote : Quote
quote = record {
  id = 8;
  requisition_id = 4;
  vendor_id = 7;
  status = QuoteStatus.accepted;
  currency_code = php;
  total_minor = some (pos 4000);
  valid_until = none;
  lines =
      some (record {
        sku = none;
        description = some (units " Pens ");
        quantity = some (pos 4);
        unit_price_minor = some (pos 1000);
        amount_minor = some (pos 4000);
      })
      ∷ [];
}

awards : lines_from_awarded_quote quote php ≡ ok (pens ∷ [])
unfolding lines_from_awarded_quote aipms.PurchaseOrder.Award.quoted_lines
    aipms.PurchaseOrder.Award.awarded_lines aipms.PurchaseOrder.Award.awarded_line
    aipms.PurchaseOrder.Award.breakdown aipms.PurchaseOrder.Award.description_of
    aipms.Money.assert_database_int aipms.Money.assert_database_int_from aipms.Prelude.Text.trim
    aipms.Prelude.Text.trim_start aipms.Prelude.Text.is_space aipms.Prelude.Int.sum_of
    aipms.Prelude.Int.◌+ℤ◌ aipms.Prelude.Int.◌*ℤ◌
awards = refl

lines_from_awarded_quote_total_example :
    (quote.total_minor ≡ some (total_of_lines (pens ∷ [])))
    × ¬ (total_of_lines (pens ∷ []) ≤ℤ pos 0)
lines_from_awarded_quote_total_example = lines_from_awarded_quote_total quote php (pens ∷ []) awards
