-- ===== src/Payment/Batch/Tests.antt =====
-- A batch of two lines, with texts compared by their length.
use mathlib.Core.List.{Permᴰ}
use aipms.Prelude.{
  ◌≡◌, ◌↔◌, refl, false, none, [], ◌∷◌, ◌++◌, map, any, ok, length, ltb, if◌then◌else◌,
}
use aipms.Prelude.Int.{pos, sum_of}
use aipms.Prelude.Text.{Text, units}
use aipms.Database.Samples.{account, php}
use aipms.Payment.Batch.{
  BatchInput, BatchLine, BatchLineInput, BatchManifest, Comparison, build_payment_batch, credit,
  unusable,
}
use aipms.Payment.Batch.Csv.{csv_escape, read_cell}
use aipms.Payment.Batch.Laws.{build_payment_batch_lem, csv_escape_round_trip}

abbrev by_length : Text → Text → Comparison
by_length s t =
    if ltb (length s) (length t)
    then Comparison.less
    else if ltb (length t) (length s)
    then Comparison.greater
    else Comparison.same

abbrev line : Text → BatchLineInput
line number = record {
  line_id = units "L";
  invoice_id = units "I";
  invoice_number = number;
  vendor_name = units "Acme, Inc.";
  vendor_tax_id = none;
  net_minor = pos 1110;
  currency_code = php;
  bank_account = account;
}

abbrev input : BatchInput
input = record {
  run_number = units "RUN-000001";
  executed_at = units "2026-01-01";
  currency_code = php;
  total_minor = pos 2220;
  lines = line (units "INV-10") ∷ line (units "INV-2") ∷ [];
}

build_payment_batch_lem_example :
    (((m : BatchManifest) × (build_payment_batch by_length input ≡ ok m)) ↔ (
      (any unusable input.lines ≡ false)
      × (sum_of (λ (l : BatchLineInput). l.net_minor) input.lines ≡ input.total_minor)))
    × ((m : BatchManifest)
        → build_payment_batch by_length input ≡ ok m
        → Permᴰ (map credit input.lines) m.credits
          × (sum_of (λ (c : BatchLine). c.amount_minor) m.credits ≡ input.total_minor)
          × (m.total_minor ≡ input.total_minor)
          × (m.line_count ≡ length input.lines))
build_payment_batch_lem_example = build_payment_batch_lem by_length input

csv_escape_round_trip_example :
    read_cell (csv_escape (units "Acme, Inc.") ++ units ",BPI") ≡ (units "Acme, Inc.", units ",BPI")
csv_escape_round_trip_example = csv_escape_round_trip (units "Acme, Inc.") (units ",BPI") refl
