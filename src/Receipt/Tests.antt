-- ===== src/Receipt/Tests.antt =====
-- Receipts on sample tables.
use aipms.Prelude.{◌≡◌, refl, Option, none, some, [], ◌∷◌, true, false, ok, err, arith}
use aipms.Prelude.Int.{pos}
use aipms.Prelude.Text.{units}
use aipms.Database.{Db, Receipt}
use aipms.Invoice.Match.Nearest.{nearest_bps, nearest_bps-Rounds}
use aipms.Invoice.Rematch.{RematchSummary}
use aipms.Invoice.Coverage.Ledger.{Ledger, IsCovered}
use aipms.Invoice.Samples.{
  is_ok, went_through, pens_order, pens_tables, delivery, pens_tables-Ledger, pens_tables-IsCovered,
}
use aipms.Receipt.{RecordReceiptInput, record_receipt, cancel}
use aipms.Receipt.Coverage.{record_receipt-IsCovered, cancel-IsCovered}
use aipms.Receipt.Gate.{IsWithinOrder}
use aipms.Receipt.Within.{record_receipt-IsWithinOrder}

abbrev arrival : RecordReceiptInput
arrival = record {
  po_id = 20;
  lines =
      record {
        po_line_id = none;
        line_no = some 1;
        sku = none;
        description = units "Pens";
        quantity = pos 2;
        unit = none;
      }
      ∷ [];
  recorded_by = 1;
}

records : is_ok (record_receipt nearest_bps arrival pens_tables) ≡ true
unfolding record_receipt aipms.Receipt.write_receipt aipms.Receipt.prepare aipms.Receipt.named_line
    aipms.Receipt.take_in aipms.Invoice.Match.line_at aipms.Prelude.Int.◌+ℤ◌ aipms.Receipt.get
    aipms.Receipt.add_receipts aipms.Receipt.add_lines aipms.Receipt.insert_receipt
    aipms.Invoice.Rematch.rematch_open_for_po aipms.Invoice.Rematch.rematch_loop
    aipms.Invoice.Rematch.sort_by aipms.Invoice.Rematch.insert_by aipms.Invoice.Rematch.rematch_one
    aipms.Invoice.Register.emit_status_events aipms.Invoice.Register.status_for
    aipms.DocumentNumber.digits_from aipms.DocumentNumber.latest aipms.DocumentNumber.next
    aipms.DocumentNumber.pad_start aipms.DocumentNumber.parse_digits aipms.DocumentNumber.parse_int
    aipms.DocumentNumber.sequence aipms.DocumentNumber.slice aipms.DocumentNumber.text_lt
    aipms.DocumentNumber.to_digits aipms.DocumentNumber.zeros aipms.Invoice.Match.allocated_value
    aipms.Invoice.Match.allows_partial aipms.Invoice.Match.coverage
    aipms.Invoice.Match.exceeds_capacity aipms.Invoice.Match.match_against_po
    aipms.Invoice.Match.match_with aipms.Invoice.Match.receipt_value
    aipms.Invoice.Match.receipts_result aipms.Invoice.Match.received_value
    aipms.Invoice.Match.refusal aipms.Prelude.Int.sum_of aipms.Prelude.Int.◌*ℤ◌
    aipms.Prelude.Int.◌-ℤ◌ aipms.Prelude.Text.text_eq
records = refl

abbrev recorded :
    (given : Receipt × RematchSummary) × (db : Db) × (record_receipt nearest_bps arrival pens_tables
      ≡ ok (given, db))
recorded = went_through (record_receipt nearest_bps arrival pens_tables) records

record_receipt-IsCovered_example :
    Ledger pens_order (recorded.1) × IsCovered pens_order (recorded.1)
record_receipt-IsCovered_example =
    record_receipt-IsCovered nearest_bps arrival pens_order pens_tables recorded.1 recorded.0
      nearest_bps-Rounds pens_tables-Ledger pens_tables-IsCovered refl recorded.2

cancels : is_ok (cancel nearest_bps 50 pens_tables) ≡ true
unfolding cancel aipms.Receipt.write_cancellation aipms.Invoice.Rematch.reevaluate_matched_for_po
    aipms.Invoice.Rematch.assert_po_correction_allowed aipms.Invoice.Rematch.sort_by
    aipms.Invoice.Rematch.insert_by aipms.Invoice.Rematch.reevaluate_loop
    aipms.Invoice.Rematch.reevaluate_one aipms.Invoice.Rematch.keep_or_demote
    aipms.Invoice.Match.match_against_po aipms.Invoice.Match.match_with aipms.Invoice.Match.refusal
    aipms.Prelude.Text.text_eq aipms.Invoice.Match.allows_partial
    aipms.Invoice.Match.receipts_result aipms.Invoice.Match.coverage
    aipms.Invoice.Match.received_value aipms.Prelude.Int.sum_of
    aipms.Invoice.Register.emit_status_events aipms.Invoice.Register.status_for
cancels = refl

abbrev cancelled :
    (given : Receipt) × (db : Db) × (cancel nearest_bps 50 pens_tables ≡ ok (given, db))
cancelled = went_through (cancel nearest_bps 50 pens_tables) cancels

cancel-IsCovered_example : Ledger pens_order (cancelled.1) × IsCovered pens_order (cancelled.1)
cancel-IsCovered_example =
    cancel-IsCovered nearest_bps 50 pens_order delivery cancelled.0 pens_tables cancelled.1
      nearest_bps-Rounds pens_tables-Ledger refl refl cancelled.2

pens_tables-IsWithinOrder : IsWithinOrder pens_order pens_tables
unfolding aipms.Invoice.Match.line_at aipms.Prelude.Int.sum_of aipms.Prelude.Int.◌+ℤ◌
pens_tables-IsWithinOrder n l there = ground arith

record_receipt-IsWithinOrder_example : IsWithinOrder pens_order (recorded.1)
record_receipt-IsWithinOrder_example =
    record_receipt-IsWithinOrder nearest_bps arrival pens_order pens_tables recorded.1 recorded.0
      refl refl pens_tables-IsWithinOrder recorded.2
