-- ===== src/Payment/Create/Tests.antt =====
-- The plan of a run for the sample invoice.
use aipms.Prelude.{◌≡◌, refl, [], ◌∷◌, ok}
use aipms.Database.{Db, PaymentRunStatus}
use aipms.Database.Samples.{tables, run, snapshot}
use aipms.Prelude.Int.{pos}
use aipms.Payment.Create.{create_attempt, new_lines}
use aipms.Payment.Create.Plans.{AddsRun, create_attempt-AddsRun}

abbrev planned : Db
planned = record tables {
  payment_runs = run 100 PaymentRunStatus.draft ∷ [];
  payment_run_lines =
      new_lines 100 101
        (record { invoice_id = 30; beneficiary_snapshot = snapshot; net_minor = pos 1110 } ∷ []);
  next_id = 102;
}

plans : create_attempt (30 ∷ []) 1 tables ≡ ok (run 100 PaymentRunStatus.draft, planned)
unfolding create_attempt new_lines aipms.Payment.Create.snapshot_lines
    aipms.Payment.Create.snapshot_line aipms.Payment.Create.net_payable
    aipms.Payment.Create.insert_run aipms.Payment.Create.on_live_run aipms.Payment.Create.reserves
    aipms.Payment.Eligibility.assert_live_invoice_purchase_orders
    aipms.Payment.Eligibility.is_eligible aipms.Payment.Eligibility.has_live_order
    aipms.Payment.Beneficiary.freeze_beneficiary aipms.Payment.Beneficiary.parse_beneficiary
    aipms.Payment.Beneficiary.is_verified aipms.Payment.Beneficiary.snapshot_schema
    aipms.Money.assert_database_int aipms.Money.assert_database_int_from aipms.Prelude.Text.trim
    aipms.Prelude.Text.trim_start aipms.Prelude.Text.is_space aipms.Prelude.Text.text_eq
    aipms.Prelude.Int.sum_of aipms.Prelude.Int.◌+ℤ◌ aipms.Prelude.Int.◌-ℤ◌
    aipms.DocumentNumber.digits_from aipms.DocumentNumber.latest aipms.DocumentNumber.next
    aipms.DocumentNumber.pad_start aipms.DocumentNumber.parse_digits aipms.DocumentNumber.parse_int
    aipms.DocumentNumber.sequence aipms.DocumentNumber.slice aipms.DocumentNumber.text_lt
    aipms.DocumentNumber.to_digits aipms.DocumentNumber.zeros
plans = refl

create_attempt-AddsRun_example : AddsRun (30 ∷ []) 1 tables (run 100 PaymentRunStatus.draft) planned
create_attempt-AddsRun_example =
    create_attempt-AddsRun (30 ∷ []) 1 tables planned (run 100 PaymentRunStatus.draft) plans
