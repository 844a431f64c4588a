-- ===== src/Payment/Create.antt =====
-- `create` of `PaymentRunService`, apps/api/src/payment-run/payment-run.service.ts: the plan of a
-- run over invoices that no live run has reserved.
pub mod Laws
pub mod Plans
mod Tests
use aipms.Prelude.{
  ℕ, suc, ◌+◌, Bool, true, false, not, ◌&&◌, ◌||◌, Option, none, some, List, [], ◌∷◌, ◌++◌, map,
  Error, Result, ok, err, ◌==◌, find?, filter, any, all, length, is_some, if◌then◌else◌,
}
use aipms.Prelude.Int.{ℤ, ◌+ℤ◌, ◌-ℤ◌, sum_of}
use aipms.Prelude.Text.{Text, text_eq, units}
use aipms.Money.{assert_database_int}
use aipms.Database.{
  Db, Invoice, Vendor, Snapshot, PaymentRun, PaymentRunLine, PaymentRunStatus, PaymentStatus,
  is_matched, is_planned, is_voided, Tx, ◌>>=◌, ◌>>◌, pure, lift, gets, modify, throw_if,
}
use aipms.DocumentNumber.{next, latest}
use aipms.Payment.Beneficiary.{freeze_beneficiary, is_verified}
use aipms.Payment.Eligibility.{assert_live_invoice_purchase_orders}

abbrev pub mem : ℕ → List ℕ → Bool
mem a [] = false
mem a (b ∷ bs) = a == b || mem a bs

-- `[...new Set(ids)]`
unfoldable pub unique : List ℕ → List ℕ
unique [] = []
unique (a ∷ ids) = a ∷ filter (λ b. not (a == b)) (unique ids)

-- gross + VAT − EWT
unfoldable pub net_payable : Invoice → ℤ
net_payable i = i.amount_minor +ℤ i.vat_minor -ℤ i.ewt_minor

-- `invoice.findMany({ where: { id: { in: ids } } })`
abbrev pub invoices_in : List ℕ → List Invoice → List Invoice
invoices_in ids = filter (λ (i : Invoice). mem i.id ids)

abbrev pub missing_invoices : Error
missing_invoices = Error.not_found "One or more invoices do not exist"

-- The reads before the transaction.
unfoldable pub create_precheck : List ℕ → Tx (Unit {0})
create_precheck ids = do
  throw_if (length ids == 0) (Error.bad_request "A run needs at least one invoice")
  invoices ← gets (λ db. invoices_in (unique ids) db.invoices)
  throw_if (not (length invoices == length (unique ids))) missing_invoices
  vendors ← gets (λ db.
      filter (λ (v : Vendor). any (λ (i : Invoice). i.vendor_id == v.id) invoices) db.vendors)
  throw_if (any (λ (v : Vendor). not (is_some v.bank_account && is_verified v)) vendors)
      (Error.bad_request "Unverified beneficiary accounts")

-- A plain error of the snapshot is a refusal of the request.
abbrev pub refuse {ℓ} : {A : Type ℓ} → Result A → Result A
refuse (ok a) = ok a
refuse (err e) = err (Error.bad_request "Unverified beneficiary account")

-- The line of an invoice, but for its ids: the invoice, its frozen beneficiary and its net amount.
pub record PlannedLine : Type 0 where
  pub invoice_id : ℕ
  pub beneficiary_snapshot : Snapshot
  pub net_minor : ℤ

abbrev pub line_for : Invoice → Snapshot → PlannedLine
line_for invoice snapshot = record {
  invoice_id = invoice.id;
  beneficiary_snapshot = snapshot;
  net_minor = net_payable invoice;
}

unfoldable pub snapshot_line : List Vendor → Invoice → Result PlannedLine
snapshot_line vendors invoice = elim (find? (λ (v : Vendor). v.id == invoice.vendor_id) vendors) [
  | none ↦ err (Error.not_found "Invoice vendor not found")
  | some vendor ↦ elim (refuse (freeze_beneficiary invoice.number vendor)) [
    | ok snapshot ↦ ok (line_for invoice snapshot)
    | err e ↦ err e
  ]
]

-- The snapshots of all invoices, in order; the first that is refused throws.
unfoldable pub snapshot_lines : List Vendor → List Invoice → Result (List PlannedLine)
snapshot_lines vendors [] = ok []
snapshot_lines vendors (invoice ∷ invoices) =
    let rest = snapshot_lines vendors invoices in
    elim (snapshot_line vendors invoice) [
      | err e ↦ err e
      | ok line ↦ elim rest [ err e ↦ err e | ok lines ↦ ok (line ∷ lines) ]
    ]

-- `run: { status: { not: 'voided' } }` of a line.
unfoldable pub on_live_run : List PaymentRun → ℕ → Bool
on_live_run runs run_id = any (λ (r : PaymentRun). r.id == run_id && not (is_voided r.status)) runs

-- A line that reserves its invoice: planned, on a run that is not voided.
unfoldable pub reserves : List PaymentRun → PaymentRunLine → Bool
reserves runs l = is_planned l.status && on_live_run runs l.run_id

-- The rows of the lines of a new run, with ids from `first` on.
unfoldable pub new_lines : ℕ → ℕ → List PlannedLine → List PaymentRunLine
new_lines run_id first [] = []
new_lines run_id first (l ∷ ls) =
    record {
      id = first;
      run_id = run_id;
      invoice_id = l.invoice_id;
      beneficiary_snapshot = l.beneficiary_snapshot;
      net_minor = l.net_minor;
      status = PaymentStatus.planned;
    }
    ∷ new_lines run_id (suc first) ls

abbrev pub new_run : ℕ → Text → ℤ → ℕ → PaymentRun
new_run id number total created_by = record {
  id = id;
  run_number = number;
  status = PaymentRunStatus.draft;
  total_minor = total;
  currency_code = units "PHP";
  created_by = created_by;
  approved_by = none;
  executed_by = none;
  voided_by = none;
  void_reason = none;
}

-- `paymentRun.create` with its lines.
unfoldable pub insert_run : ℤ → ℕ → List PlannedLine → Tx PaymentRun
insert_run total created_by lines db =
    let number =
      next (units "RUN-") (latest (map (λ (r : PaymentRun). r.run_number) db.payment_runs)) in
    let run = new_run db.next_id number total created_by in
    ok (
      run,
      record db {
        payment_runs = db.payment_runs ++ run ∷ [];
        payment_run_lines = db.payment_run_lines ++ new_lines db.next_id (suc db.next_id) lines;
        next_id = suc db.next_id + length lines;
      },
    )

abbrev pub is_php : Invoice → Bool
is_php i = text_eq i.currency_code (units "PHP")

-- The transaction, over the distinct ids.
unfoldable pub create_attempt : List ℕ → ℕ → Tx PaymentRun
create_attempt ids created_by = do
  fresh ← gets (λ db. invoices_in ids db.invoices)
  throw_if (not (length fresh == length ids)) missing_invoices
  throw_if (not (all (λ (i : Invoice). is_matched i.status) fresh))
      (Error.bad_request "Invoice is not payable")
  assert_live_invoice_purchase_orders fresh
  vendors ← gets (λ db. db.vendors)
  lines ← lift (snapshot_lines vendors fresh)
  throw_if (not (all is_php fresh))
      (Error.bad_request "Payment runs currently support PHP invoices only")
  total ← lift (assert_database_int (sum_of net_payable fresh))
  claimed ← gets (λ db.
      any (λ (l : PaymentRunLine). mem l.invoice_id ids && reserves db.payment_runs l)
        db.payment_run_lines)
  throw_if claimed (Error.conflict "One or more invoices are reserved by a live payment run")
  insert_run total created_by lines

unfoldable pub create : List ℕ → ℕ → Tx PaymentRun
create ids created_by = do create_precheck ids; create_attempt (unique ids) created_by
