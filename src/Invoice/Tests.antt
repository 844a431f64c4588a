-- ===== src/Invoice/Tests.antt =====
-- Invoices on sample tables.
use aipms.Prelude.{◌≡◌, refl, Option, none, some, [], ◌∷◌, true, false, ok, err, arith}
use aipms.Prelude.Int.{pos}
use aipms.Prelude.Text.{units}
use aipms.Tax.{TaxClass, ph_default_policy}
use aipms.Database.{Db, PurchaseOrder, Invoice, MatchOutcome, MatchResult}
use aipms.Invoice.Match.{MatchInput, match_against_po}
use aipms.Invoice.Match.Laws.{IsMatchFor, match_against_po-matched}
use aipms.Invoice.Match.Nearest.{nearest_bps, nearest_bps-Rounds}
use aipms.Invoice.Register.{RegisterInvoiceInput, register}
use aipms.Invoice.Rematch.{match_input}
use aipms.Invoice.Coverage.Ledger.{Ledger, IsCovered}
use aipms.Invoice.Coverage.Register.{register-IsCovered}
use aipms.Invoice.Samples.{
  is_ok, went_through, pens_order, pens_tables, waiting, pens_tables-Ledger, pens_tables-IsCovered,
}

waiting-matches :
    (match_against_po nearest_bps (match_input 20 waiting) none pens_tables).outcome
    ≡ MatchOutcome.matched
unfolding match_against_po aipms.Invoice.Match.match_with aipms.Invoice.Match.refusal
    aipms.Prelude.Text.text_eq aipms.Invoice.Match.allows_partial
    aipms.Invoice.Match.receipts_result aipms.Invoice.Match.coverage
    aipms.Invoice.Match.received_value aipms.Prelude.Int.sum_of aipms.Prelude.Int.◌+ℤ◌
    aipms.Invoice.Match.receipt_value aipms.Prelude.Int.◌*ℤ◌ aipms.Invoice.Match.line_at
    aipms.Prelude.Int.◌-ℤ◌ aipms.Invoice.Match.allocated_value aipms.Invoice.Match.exceeds_capacity
waiting-matches = refl

match_against_po-matched_example :
    (po : PurchaseOrder) × IsMatchFor (match_input 20 waiting) none pens_tables po
match_against_po-matched_example =
    match_against_po-matched nearest_bps (match_input 20 waiting) none pens_tables
      nearest_bps-Rounds (omega arith, omega arith) waiting-matches

abbrev bill : RegisterInvoiceInput
bill = record {
  vendor_id = 7;
  number = units "INV-3";
  po_id = some 20;
  currency_code = none;
  lines = record { amount_minor = pos 1000; class = TaxClass.goods; vat_exempt = false } ∷ [];
  received_at = none;
  allow_partial = false;
}

registers : is_ok (register nearest_bps (ok ph_default_policy) bill 12 pens_tables) ≡ true
unfolding register aipms.Invoice.Register.assert_persistable_computation
    aipms.Money.assert_database_int aipms.Tax.compute_tax aipms.Prelude.Int.sum_of
    aipms.Prelude.Int.◌+ℤ◌ aipms.Tax.line_vat aipms.Tax.pct_bps aipms.Tax.line_ewt
    aipms.Prelude.Int.◌-ℤ◌ aipms.Prelude.Text.text_eq aipms.Invoice.Register.register_new
    aipms.Invoice.Register.insert_invoice aipms.Invoice.Register.emit_status_events
    aipms.Invoice.Register.status_for match_against_po aipms.Invoice.Match.match_with
    aipms.Invoice.Match.refusal aipms.Invoice.Match.allocated_value
    aipms.Invoice.Match.allows_partial aipms.Invoice.Match.coverage
    aipms.Invoice.Match.exceeds_capacity aipms.Invoice.Match.line_at
    aipms.Invoice.Match.receipt_value aipms.Invoice.Match.receipts_result
    aipms.Invoice.Match.received_value aipms.Money.assert_database_int_from aipms.Prelude.Int.◌*ℤ◌
    aipms.Tax.line_tax aipms.Tax.line_vatable aipms.Tax.round_minor aipms.Tax.tax_loop
    aipms.Tax.taxable
registers = refl

abbrev registered :
    (given : Invoice × Option MatchResult) × (db : Db) × (register nearest_bps
        (ok ph_default_policy)
        bill
        12
        pens_tables
      ≡ ok (given, db))
registered =
    went_through (register nearest_bps (ok ph_default_policy) bill 12 pens_tables) registers

register-IsCovered_example : Ledger pens_order (registered.1) × IsCovered pens_order (registered.1)
register-IsCovered_example =
    register-IsCovered nearest_bps (ok ph_default_policy) bill 12 pens_order pens_tables
      registered.1 registered.0 nearest_bps-Rounds pens_tables-Ledger pens_tables-IsCovered refl
      registered.2
