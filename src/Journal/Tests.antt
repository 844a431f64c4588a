-- ===== src/Journal/Tests.antt =====
-- The journal of a run with one invoice.
use aipms.Prelude.{◌≡◌, ◌↔◌, true, none, [], ◌∷◌, arith}
use aipms.Prelude.Int.{pos, sum_of, ◌+ℤ◌, ◌≤ℤ◌}
use aipms.Prelude.Text.{units}
use aipms.Journal.{ManifestInput, ManifestInvoice, build_journal_manifest, verify_balanced}
use aipms.Journal.Laws.{gross_minor, build_journal_manifest_balances}

abbrev input : ManifestInput
input = record {
  run_number = units "RUN-000001";
  executed_at = 1;
  currency_code = units "PHP";
  invoices =
      record {
        invoice_id = 30;
        invoice_number = units "INV-1";
        vendor_name = units "Acme, Inc.";
        vendor_tax_id = none;
        amount_minor = pos 1000;
        vat_minor = pos 120;
        ewt_minor = pos 10;
      }
      ∷ [];
}

build_journal_manifest_balances_example :
    let manifest = build_journal_manifest input in
    let check = verify_balanced manifest in
    (check.debits_minor ≡ sum_of gross_minor input.invoices)
    × (check.credits_minor ≡ sum_of gross_minor input.invoices)
    × ((check.balanced ≡ true) ↔ ¬ (sum_of gross_minor input.invoices ≤ℤ pos 0))
    × (manifest.total_minor +ℤ sum_of (λ (i : ManifestInvoice). i.ewt_minor) input.invoices
        ≡ sum_of gross_minor input.invoices)
build_journal_manifest_balances_example = build_journal_manifest_balances input (omega arith, tt)
