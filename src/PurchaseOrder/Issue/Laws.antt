-- ===== src/PurchaseOrder/Issue/Laws.antt =====
-- What the issue of an order asks for, and what it commits.
use aipms.Prelude.{
  ℕ, ◌≡◌, refl, ◌∙◌, sym, false, Option, none, some, List, [], ◌∷◌, ◌++◌, map, ok, inl, inr, arith,
  subst, Option-cases, Result-cases, any, update_where, ◌==◌,
}
use aipms.Prelude.Int.{◌+ℤ◌, ◌≤ℤ◌}
use aipms.Prelude.Text.{Text}
use aipms.Money.{assert_database_int, assert_single_currency, normalize_currency_code}
use aipms.Policy.Engine.{VendorStatus, evaluate_vendor_gate}
use aipms.Database.{
  Terms, Db, Requisition, OrderLine, Budget, Quote, Vendor, PurchaseOrder, PoStatus, ReqStatus,
}
use aipms.PurchaseOrder.Award.{total_of_lines}
use aipms.Money.Laws.{assert_database_int_iff}
use aipms.PurchaseOrder.Issue.{
  IssueInput, IssueResult, issue, issue_precheck, issue_attempt, find_requisition, find_vendor,
  find_budget, orders, awarded_quote, gate_and_commit, commit_order, insert_order, commit,
  check_quote_currency, check_award, po_lines, ask_vendor_approval,
}

-- The budget has the order's total left, the order is the requisition's, and it is what is added.
abbrev pub Committed : Requisition → ℕ → ℕ → PurchaseOrder → Db → Db → Type 0
Committed r budget_id vendor_id po db db' =
    (budget : Budget) × (find_budget budget_id db ≡ some budget)
    × (budget.committed_minor +ℤ budget.spent_minor +ℤ po.total_minor ≤ℤ budget.limit_minor)
    × (po.total_minor ≡ total_of_lines po.lines)
    × (po.requisition_id ≡ some r.id)
    × (po.vendor_id ≡ vendor_id)
    × (po.status ≡ PoStatus.issued)
    × (db'.purchase_orders ≡ db.purchase_orders ++ po ∷ [])
    × (db'.budgets
        ≡ update_where (λ (b : Budget). b.id == budget_id) (commit po.total_minor) db.budgets)

check_quote_currency-reads :
    (quote : Option Quote) (currency : Text) (db db' : Db)
    → check_quote_currency quote currency db ≡ ok (tt, db')
    → db ≡ db'
unfolding check_quote_currency
check_quote_currency-reads none currency db db' h = ground arith
check_quote_currency-reads (some q) currency db db' h =
    elim (Result-cases (normalize_currency_code q.currency_code)) [
      | inl (e, failed) ↦ absurd (ground arith)
      | inr (code, done) ↦ ground arith
    ]

insert_order-Committed :
    (r : Requisition) (quote : Option Quote) (vendor_id budget_id actor : ℕ) (terms : Option Terms)
    (currency : Text) (lines : List OrderLine) (db db' : Db) (budget : Budget) (po : PurchaseOrder)
    → find_budget budget_id db ≡ some budget
    → budget.committed_minor +ℤ budget.spent_minor +ℤ total_of_lines lines ≤ℤ budget.limit_minor
    → insert_order r quote vendor_id budget_id actor terms currency (total_of_lines lines) lines db
      ≡ ok (IssueResult.issued po, db')
    → Committed r budget_id vendor_id po db db'
unfolding insert_order
insert_order-Committed r quote vendor_id budget_id actor terms currency lines db db' budget po found
      left h =
    let total : total_of_lines lines ≡ po.total_minor = ground arith in
    let kept : lines ≡ po.lines = ground arith in
    (
      budget,
      found,
      subst (λ t. budget.committed_minor +ℤ budget.spent_minor +ℤ t ≤ℤ budget.limit_minor) total
          left,
      sym total ∙ rw kept refl,
      ground arith,
      ground arith,
      ground arith,
      ground arith,
      ground arith,
    )

commit_order-Committed :
    (r : Requisition) (quote : Option Quote) (vendor_id budget_id actor : ℕ) (terms : Option Terms)
    (db db' : Db) (po : PurchaseOrder)
    → commit_order r quote vendor_id budget_id actor terms db ≡ ok (IssueResult.issued po, db')
    → Committed r budget_id vendor_id po db db'
unfolding commit_order
commit_order-Committed r quote vendor_id budget_id actor terms db db' po h =
    elim (Option-cases (find_budget budget_id db)) [
      | inl missing ↦ absurd (ground arith)
      | inr (budget, found) ↦
          elim (Result-cases
            (assert_single_currency (map (λ (l : OrderLine). l.currency_code) r.lines))) [
              | inl (e, failed) ↦ absurd (ground arith)
              | inr (currency, single) ↦
                  elim (Result-cases (check_quote_currency quote currency db)) [
                    | inl (e, failed) ↦ absurd (ground arith)
                    | inr ((unit, read_db), matching) ↦
                        elim (Result-cases (po_lines quote r currency)) [
                          | inl (e, failed) ↦ absurd (ground arith)
                          | inr (lines, ordered) ↦
                              let same =
                                check_quote_currency-reads quote currency db read_db matching in
                              elim (Result-cases (assert_database_int (total_of_lines lines))) [
                                | inl (e, failed) ↦ absurd (ground arith)
                                | inr (total, in_range) ↦
                                    let sum =
                                      (assert_database_int_iff (total_of_lines lines) total).0
                                        in_range in
                                    let left : budget.committed_minor +ℤ budget.spent_minor +ℤ total
                                        ≤ℤ budget.limit_minor =
                                      ground arith in
                                    let written : insert_order r quote vendor_id budget_id actor
                                          terms currency total lines read_db
                                        ≡ ok (IssueResult.issued po, db') =
                                      ground arith in
                                    insert_order-Committed r quote vendor_id budget_id actor terms
                                      currency lines db db' budget po found (rw sum.0 left)
                                      (rw (sum.0, same) written)
                              ]
                        ]
                  ]
            ]
    ]

pub awarded_quote-reads :
    (requisition_id vendor_id now : ℕ) (db db' : Db) (quote : Option Quote)
    → awarded_quote requisition_id vendor_id now db ≡ ok (quote, db')
    → db ≡ db'
unfolding awarded_quote check_award
awarded_quote-reads requisition_id vendor_id now db db' quote h = ground arith

-- A pass of the vendor gate is an active vendor, and its commitment.
gate_and_commit-Committed :
    (r : Requisition) (quote : Option Quote) (vendor : Vendor) (budget_id actor : ℕ)
    (terms : Option Terms) (db db' : Db) (po : PurchaseOrder)
    → gate_and_commit r quote vendor budget_id actor terms db ≡ ok (IssueResult.issued po, db')
    → (vendor.status ≡ VendorStatus.active) × Committed r budget_id vendor.id po db db'
unfolding gate_and_commit evaluate_vendor_gate ask_vendor_approval
gate_and_commit-Committed r quote vendor budget_id actor terms db db' po h =
    let active : vendor.status ≡ VendorStatus.active = ground arith in
    let written : commit_order r quote vendor.id budget_id actor terms db
        ≡ ok (IssueResult.issued po, db') =
      ground arith in
    (active, commit_order-Committed r quote vendor.id budget_id actor terms db db' po written)

-- What an issue has read and written.
abbrev pub Issued : IssueInput → PurchaseOrder → Db → Db → Type 0
Issued input po db db' =
    (r : Requisition) × (vendor : Vendor) × (budget_id : ℕ) × (find_requisition input.requisition_id
        db
      ≡ some r)
    × (r.status ≡ ReqStatus.approved)
    × (r.budget_id ≡ some budget_id)
    × (any (orders r.id) db.purchase_orders ≡ false)
    × (find_vendor input.vendor_id db ≡ some vendor)
    × (vendor.status ≡ VendorStatus.active)
    × Committed r budget_id vendor.id po db db'

attempt-Issued :
    (input : IssueInput) (actor now : ℕ) (db db' : Db) (po : PurchaseOrder)
    → issue_attempt input actor now db ≡ ok (IssueResult.issued po, db')
    → Issued input po db db'
unfolding issue_attempt
attempt-Issued input actor now db db' po h =
    elim (Option-cases (find_requisition input.requisition_id db)) [
      | inl missing ↦ absurd (ground arith)
      | inr (r, found) ↦ elim (Option-cases r.budget_id) [
        | inl missing ↦ absurd (ground arith)
        | inr (budget_id, assigned) ↦
            elim (Result-cases (awarded_quote r.id input.vendor_id now db)) [
              | inl (e, failed) ↦ absurd (ground arith)
              | inr ((quote, read_db), awarded) ↦
                  let same =
                    awarded_quote-reads r.id input.vendor_id now db read_db quote awarded in
                  elim (Option-cases (find_vendor input.vendor_id db)) [
                    | inl missing ↦ absurd (ground (arith, same))
                    | inr (vendor, on_file) ↦
                        let written : gate_and_commit r quote vendor budget_id actor input.terms db
                            ≡ ok (IssueResult.issued po, db') =
                          ground (arith, same) in
                        let (active, committed) =
                          gate_and_commit-Committed r quote vendor budget_id actor input.terms db
                            db' po written in
                        (
                          r,
                          vendor,
                          budget_id,
                          found,
                          ground arith,
                          assigned,
                          ground arith,
                          on_file,
                          active,
                          committed,
                        )
                  ]
            ]
      ]
    ]

pub issue_precheck-reads :
    (input : IssueInput) (db db' : Db) → issue_precheck input db ≡ ok (tt, db') → db ≡ db'
unfolding issue_precheck
issue_precheck-reads input db db' h = ground arith

-- An order is issued only for an approved requisition that has no order but cancelled ones, to an
-- active vendor, and only if the order's total fits what the limit of the requisition's budget
-- leaves beyond committed and spent. The order is the only one added, its total is the sum of its
-- lines, and exactly that total is committed to that budget.
pub issue_lem :
    (input : IssueInput) (actor now : ℕ) (db db' : Db) (po : PurchaseOrder)
    → issue input actor now db ≡ ok (IssueResult.issued po, db')
    → Issued input po db db'
unfolding issue
issue_lem input actor now db db' po h = elim (Result-cases (issue_precheck input db)) [
  | inl (e, failed) ↦ absurd (ground arith)
  | inr ((unit, read_db), checked) ↦
      let same = issue_precheck-reads input db read_db checked in
      let attempted : issue_attempt input actor now db ≡ ok (IssueResult.issued po, db') =
        ground (arith, same) in
      attempt-Issued input actor now db db' po attempted
]
