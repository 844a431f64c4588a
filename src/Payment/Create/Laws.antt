-- ===== src/Payment/Create/Laws.antt =====
-- What a plan of a payment run has checked, and what it writes.
use aipms.Prelude.{
  ℕ, ◌≡◌, true, false, ◌&&◌, List, inl, inr, arith, Result-cases, any, all, length, ok,
}
use aipms.Prelude.Int.{ℤ, sum_of}
use aipms.Money.{assert_database_int}
use aipms.Database.{Db, Invoice, PaymentRun, PaymentRunLine, is_matched}
use aipms.Payment.Eligibility.{is_eligible, assert_live_invoice_purchase_orders}
use aipms.Payment.Create.{
  mem, invoices_in, is_php, net_payable, PlannedLine, snapshot_lines, reserves, insert_run,
  create_attempt,
}

-- The guards of the transaction, with the values that it goes on with.
pub record Planned (ids : List ℕ) (created_by : ℕ) (db : Db) (run : PaymentRun) (db' : Db)
    : Type 0 where
  pub lines : List PlannedLine
  pub total : ℤ
  pub all_found : length (invoices_in ids db.invoices) ≡ length ids
  pub payable : all (λ (i : Invoice). is_matched i.status) (invoices_in ids db.invoices) ≡ true
  pub eligible :
      all (λ (i : Invoice). is_eligible db.purchase_orders i.po_id) (invoices_in ids db.invoices)
      ≡ true
  pub frozen : snapshot_lines db.vendors (invoices_in ids db.invoices) ≡ ok lines
  pub in_php : all is_php (invoices_in ids db.invoices) ≡ true
  pub summed : assert_database_int (sum_of net_payable (invoices_in ids db.invoices)) ≡ ok total
  pub unreserved :
      any
        (λ (l : PaymentRunLine). mem l.invoice_id ids && reserves db.payment_runs l)
        db.payment_run_lines
      ≡ false
  pub written : insert_run total created_by lines db ≡ ok (run, db')

-- The guards of a plan that goes through.
pub create_attempt-Planned :
    (ids : List ℕ) (created_by : ℕ) (db db' : Db) (run : PaymentRun)
    → create_attempt ids created_by db ≡ ok (run, db')
    → Planned ids created_by db run db'
unfolding create_attempt assert_live_invoice_purchase_orders
create_attempt-Planned ids created_by db db' run h =
    elim (Result-cases (snapshot_lines db.vendors (invoices_in ids db.invoices))) [
      | inl (e, refused) ↦ absurd (ground arith)
      | inr (lines, frozen) ↦
          elim (Result-cases
            (assert_database_int (sum_of net_payable (invoices_in ids db.invoices)))) [
              | inl (e, refused) ↦ absurd (ground arith)
              | inr (total, summed) ↦ record {
                lines = lines;
                total = total;
                all_found = ground arith;
                payable = ground arith;
                eligible = ground arith;
                frozen = frozen;
                in_php = ground arith;
                summed = summed;
                unreserved = ground arith;
                written = ground arith;
              }
            ]
    ]
