-- ===== src/Payment/Create/Plans.antt =====
-- The rows that a plan of a payment run adds; `create` of
-- apps/api/src/payment-run/payment-run.service.ts.
use aipms.Prelude.{
  ℕ, suc, ◌≡◌, refl, sym, subst, ◌∙◌, true, false, ◌&&◌, none, some, List, [], ◌∷◌, ◌++◌, inl, inr,
  arith, Option-cases, Result-cases, any, find?, length, is_some, ◌==◌, ok, All, All-imp₂,
}
use aipms.Prelude.Rows.{All-all}
use aipms.Requisition.Lines.{IsInRange}
use aipms.Prelude.Int.{◌+ℤ◌, ◌-ℤ◌, sum_of}
use aipms.Prelude.Text.{Text, text_eq, units}
use aipms.Money.Laws.{assert_database_int_iff}
use aipms.Database.{
  Db, Invoice, Vendor, Snapshot, PaymentRun, PaymentRunLine, PaymentRunStatus, PaymentStatus,
  is_matched,
}
use aipms.Payment.Beneficiary.{parse_beneficiary, account_of, is_verified, freeze_beneficiary}
use aipms.Payment.Eligibility.{is_eligible}
use aipms.Payment.Create.{
  mem, invoices_in, is_php, net_payable, PlannedLine, snapshot_line, snapshot_lines, reserves,
  new_lines, insert_run, create_attempt,
}
use aipms.Payment.Create.Laws.{create_attempt-Planned}

-- A vendor whose account has been verified by someone, with no change of it waiting.
abbrev pub HasVerifiedAccount : Vendor → Type 0
HasVerifiedAccount v =
    (is_some v.bank_account_verified_at ≡ true)
    × (is_some v.bank_account_verified_by ≡ true)
    × (v.bank_account_changed_at ≡ none)
    × (v.bank_account_submitted_by ≡ none)

-- What is frozen of the vendor of an invoice: its verified account, as it is read.
abbrev pub IsPayee : List Vendor → Invoice → Snapshot → Type 0
IsPayee vendors i s =
    (v : Vendor) × (find? (λ (w : Vendor). w.id == i.vendor_id) vendors ≡ some v)
    × HasVerifiedAccount v
    × (parse_beneficiary (account_of v) ≡ some s.bank_account)
    × (s.vendor_id ≡ v.id)
    × (s.invoice_number ≡ i.number)

-- The line of an invoice pays its gross amount and VAT less what is withheld to its payee.
abbrev pub IsRowOf : List Vendor → ℕ → Invoice → PaymentRunLine → Type 0
IsRowOf vendors run_id i l =
    (l.invoice_id ≡ i.id)
    × (l.run_id ≡ run_id)
    × (l.status ≡ PaymentStatus.planned)
    × (l.net_minor ≡ i.amount_minor +ℤ i.vat_minor -ℤ i.ewt_minor)
    × IsPayee vendors i l.beneficiary_snapshot

-- One line for each invoice, in their order.
abbrev pub AreRowsOf : List Vendor → ℕ → List Invoice → List PaymentRunLine → Type 0
AreRowsOf vendors run_id [] [] = Unit
AreRowsOf vendors run_id (i ∷ is) (l ∷ ls) =
    IsRowOf vendors run_id i l × AreRowsOf vendors run_id is ls
AreRowsOf vendors run_id _ _ = ⊥

is_verified-HasVerifiedAccount : (v : Vendor) → is_verified v ≡ true → HasVerifiedAccount v
unfolding is_verified
is_verified-HasVerifiedAccount v h = (ground arith, ground arith, ground arith, ground arith)

freeze_beneficiary-account :
    (number : Text) (v : Vendor) (s : Snapshot)
    → freeze_beneficiary number v ≡ ok s
    → (is_verified v ≡ true)
      × (parse_beneficiary (account_of v) ≡ some s.bank_account)
      × (s.vendor_id ≡ v.id)
      × (s.invoice_number ≡ number)
unfolding freeze_beneficiary
freeze_beneficiary-account number v s h = elim (Option-cases (parse_beneficiary (account_of v))) [
  | inl missing ↦ absurd (ground arith)
  | inr (account, parsed) ↦ (ground arith, ground arith, ground arith, ground arith)
]

-- The planned line of an invoice.
abbrev IsPlanOf : List Vendor → Invoice → PlannedLine → Type 0
IsPlanOf vendors i p =
    (p.invoice_id ≡ i.id)
    × (p.net_minor ≡ i.amount_minor +ℤ i.vat_minor -ℤ i.ewt_minor)
    × IsPayee vendors i p.beneficiary_snapshot

snapshot_line-IsPlanOf :
    (vendors : List Vendor) (i : Invoice) (p : PlannedLine)
    → snapshot_line vendors i ≡ ok p
    → IsPlanOf vendors i p
unfolding snapshot_line net_payable
snapshot_line-IsPlanOf vendors i p h =
    elim (Option-cases (find? (λ (w : Vendor). w.id == i.vendor_id) vendors)) [
      | inl missing ↦ absurd (ground arith)
      | inr (v, found) ↦ elim (Result-cases (freeze_beneficiary i.number v)) [
        | inl (e, refused) ↦ absurd (ground arith)
        | inr (s, frozen) ↦
            let (verified, account, vendor, number) =
              freeze_beneficiary-account i.number v s frozen in
            let same : s ≡ p.beneficiary_snapshot = ground arith in
            (
              ground arith,
              ground arith,
              subst (IsPayee vendors i) same
                  (v, found, is_verified-HasVerifiedAccount v verified, account, vendor, number),
            )
      ]
    ]

snapshot_lines-rows :
    (vendors : List Vendor) (run_id first : ℕ) (is : List Invoice) (ps : List PlannedLine)
    → snapshot_lines vendors is ≡ ok ps
    → AreRowsOf vendors run_id is (new_lines run_id first ps)
unfolding snapshot_lines new_lines
snapshot_lines-rows vendors run_id first [] ps h =
    let none_left : [] ≡ ps = ground arith in
    subst (λ ls. AreRowsOf vendors run_id [] (new_lines run_id first ls)) none_left tt
snapshot_lines-rows vendors run_id first (i ∷ is) ps h =
    elim (Result-cases (snapshot_line vendors i)) [
      | inl (e, refused) ↦ absurd (ground arith)
      | inr (p, one) ↦ elim (Result-cases (snapshot_lines vendors is)) [
        | inl (e, refused) ↦ absurd (ground arith)
        | inr (rest, more) ↦
            let all_of : p ∷ rest ≡ ps = ground arith in
            let (of, net, payee) = snapshot_line-IsPlanOf vendors i p one in
            subst (λ ls. AreRowsOf vendors run_id (i ∷ is) (new_lines run_id first ls)) all_of
              (
                (of, refl, refl, net, payee),
                snapshot_lines-rows vendors run_id (suc first) is rest more,
              )
      ]
    ]

-- What the lines pay sums to the net amounts of the invoices.
AreRowsOf-sum :
    (vendors : List Vendor) (run_id : ℕ) (is : List Invoice) (ls : List PaymentRunLine)
    → AreRowsOf vendors run_id is ls
    → sum_of (λ (l : PaymentRunLine). l.net_minor) ls ≡ sum_of net_payable is
unfolding sum_of net_payable
AreRowsOf-sum vendors run_id [] [] rows = refl
AreRowsOf-sum vendors run_id [] (l ∷ ls) rows = absurd rows
AreRowsOf-sum vendors run_id (i ∷ is) [] rows = absurd rows
AreRowsOf-sum vendors run_id (i ∷ is) (l ∷ ls) rows =
    rw (rows.0.3, AreRowsOf-sum vendors run_id is ls rows.1) refl

-- What a plan that goes through has tested, and the rows that it adds.
pub record AddsRun (ids : List ℕ) (created_by : ℕ) (db : Db) (run : PaymentRun) (db' : Db)
    : Type 0 where
  pub rows : List PaymentRunLine
  pub all_found : length (invoices_in ids db.invoices) ≡ length ids
  pub payable :
      All
        (λ (i : Invoice).
          (is_matched i.status ≡ true)
          × (is_eligible db.purchase_orders i.po_id ≡ true)
          × (text_eq i.currency_code (units "PHP") ≡ true))
        (invoices_in ids db.invoices)
  pub unreserved :
      any
        (λ (l : PaymentRunLine). mem l.invoice_id ids && reserves db.payment_runs l)
        db.payment_run_lines
      ≡ false
  pub run_added : db'.payment_runs ≡ db.payment_runs ++ run ∷ []
  pub rows_added : db'.payment_run_lines ≡ db.payment_run_lines ++ rows
  pub rows_of : AreRowsOf db.vendors run.id (invoices_in ids db.invoices) rows
  pub total : run.total_minor ≡ sum_of (λ (l : PaymentRunLine). l.net_minor) rows
  pub in_range : IsInRange run.total_minor
  pub is_draft : run.status ≡ PaymentRunStatus.draft
  pub maker : run.created_by ≡ created_by
  pub unapproved : run.approved_by ≡ none

-- A plan that goes through finds all the invoices, matched, of live orders or of none, in PHP and
-- not reserved. It adds one draft run of its maker and, for each invoice in turn, one planned line
-- that pays gross plus VAT less what is withheld to the account of the invoice's vendor, which has
-- been verified and has no change waiting; the run's total is the sum of its lines, within 0 and 2
-- ^ 31 - 1.
pub create_attempt-AddsRun :
    (ids : List ℕ) (created_by : ℕ) (db db' : Db) (run : PaymentRun)
    → create_attempt ids created_by db ≡ ok (run, db')
    → AddsRun ids created_by db run db'
unfolding insert_run
create_attempt-AddsRun ids created_by db db' run h =
    let p = create_attempt-Planned ids created_by db db' run h in
    let invoices = invoices_in ids db.invoices in
    let written = p.written in
    let summed = p.summed in
    let rows = new_lines db.next_id (suc db.next_id) p.lines in
    let of = snapshot_lines-rows db.vendors db.next_id (suc db.next_id) invoices p.lines p.frozen in
    let range = (assert_database_int_iff (sum_of net_payable invoices) p.total).0 summed in
    let number : run.id ≡ db.next_id = ground arith in
    let total : run.total_minor ≡ p.total = ground arith in
    let legal : All
        (λ (i : Invoice).
          (is_eligible db.purchase_orders i.po_id ≡ true)
          × (text_eq i.currency_code (units "PHP") ≡ true))
        invoices =
      All-imp₂ (λ i e c. (e, c)) invoices
        (All-all (λ (i : Invoice). is_eligible db.purchase_orders i.po_id) invoices p.eligible)
        (All-all is_php invoices p.in_php) in
    record {
      rows = rows;
      all_found = p.all_found;
      payable =
          All-imp₂ (λ i m e. (m, e.0, e.1)) invoices
            (All-all (λ (i : Invoice). is_matched i.status) invoices p.payable) legal;
      unreserved = p.unreserved;
      run_added = ground arith;
      rows_added = ground arith;
      rows_of = subst (λ k. AreRowsOf db.vendors k invoices rows) (sym number) of;
      total = total ∙ sym range.0 ∙ sym (AreRowsOf-sum db.vendors db.next_id invoices rows of);
      in_range = subst IsInRange (range.0 ∙ sym total) (range.1, range.2);
      is_draft = ground arith;
      maker = ground arith;
      unapproved = ground arith;
    }
