-- ===== src/PurchaseOrder/Issue/Limits.antt =====
-- What no sequence of issues breaks: budgets stay within their limits, and a requisition has at most
-- one order that is not cancelled.
use aipms.Prelude.{
  ℕ, ◌≡◌, ◌≢◌, ◌≤◌, false, Option, some, List, [], ◌∷◌, ◌++◌, ok, inl, inr, arith, subst,
  Result-cases, Bool-cases, Option-cases, find?, count, any, update_where, ◌==◌, All, All-imp,
  All-of, ==→eq, sym,
}
use aipms.Prelude.Int.{ℤ, ◌+ℤ◌, ◌≤ℤ◌, int_laws}
use aipms.Prelude.Rows.{
  count-append, All-update_where, find?-only, All-any-false, count-zero, count-update_where-le,
}
use aipms.Policy.Engine.{evaluate_vendor_gate}
use aipms.Database.{Terms, Db, Quote, Budget, PurchaseOrder, Requisition, Vendor}
use aipms.PurchaseOrder.Issue.{
  IssueInput, IssueResult, issue, issue_precheck, issue_attempt, find_budget, find_requisition,
  find_vendor, orders, commit, gate_and_commit, commit_order, insert_order, ask_vendor_approval,
  awarded_quote,
}
use aipms.PurchaseOrder.Issue.Laws.{issue_lem, issue_precheck-reads, awarded_quote-reads}

abbrev pub IsWithin : Budget → Type 0
IsWithin b = b.committed_minor +ℤ b.spent_minor ≤ℤ b.limit_minor

-- Ids of budgets are keys; each budget is within its limit; each requisition is ordered once.
pub record IsOrderly (db : Db) : Type 0 where
  pub budget_ids : (i : ℕ) → count (λ (b : Budget). b.id == i) db.budgets ≤ 1
  pub within : All IsWithin db.budgets
  pub ordered_once : (i : ℕ) → count (orders i) db.purchase_orders ≤ 1

commit-IsWithin :
    (budget_id : ℕ) (total : ℤ) (bs : List Budget) (budget : Budget)
    → count (λ (b : Budget). b.id == budget_id) bs ≤ 1
    → find? (λ (b : Budget). b.id == budget_id) bs ≡ some budget
    → budget.committed_minor +ℤ budget.spent_minor +ℤ total ≤ℤ budget.limit_minor
    → All IsWithin bs
    → All IsWithin (update_where (λ (b : Budget). b.id == budget_id) (commit total) bs)
commit-IsWithin budget_id total bs budget unique found left within =
    All-update_where IsWithin (λ b. b.id == budget_id) (commit total) bs within
      (All-imp
        (λ b same hit _. subst (λ (x : Budget). IsWithin (commit total x)) (sym (same hit)) fits) bs
        (find?-only (λ b. b.id == budget_id) bs budget unique found))
  where
    fits : IsWithin (commit total budget)
    fits = omega (int_laws, left)

commit-count :
    (budget_id i : ℕ) (total : ℤ) (bs : List Budget)
    → count (λ (b : Budget). b.id == i) bs ≤ 1
    → count
        (λ (b : Budget). b.id == i)
        (update_where (λ (b : Budget). b.id == budget_id) (commit total) bs)
      ≤ 1
commit-count budget_id i total bs h = omega (
  arith,
  h,
  count-update_where-le (λ (b : Budget). b.id == budget_id) (λ (b : Budget). b.id == i)
      (commit total) bs (All-of (λ b _ k. k) bs),
)

-- The new order is the first of its requisition that is not cancelled.
issued-ordered_once :
    (r i : ℕ) (pos : List PurchaseOrder) (po : PurchaseOrder)
    → po.requisition_id ≡ some r
    → any (orders r) pos ≡ false
    → count (orders i) pos ≤ 1
    → count (orders i) (pos ++ po ∷ []) ≤ 1
issued-ordered_once r i pos po belongs none_before once = elim (Bool-cases (i == r)) [
  | inl same ↦
      let key : i ≡ r = ==→eq i r same in
      let before : count (orders r) pos ≡ 0 =
        count-zero (orders r) pos (All-any-false (orders r) pos none_before) in
      rw (key, count-append (orders r) pos (po ∷ [])) (ground (arith, before))
  | inr other ↦ rw (count-append (orders i) pos (po ∷ [])) (ground arith)
]

-- The tables that an unanswered vendor gate leaves as they were.
abbrev Unordered : Db → Db → Type 0
Unordered db db' = (db'.budgets ≡ db.budgets) × (db'.purchase_orders ≡ db.purchase_orders)

commit_order-issued :
    (r : Requisition) (quote : Option Quote) (vendor_id budget_id actor : ℕ) (terms : Option Terms)
    (v q : ℕ) (db db' : Db)
    → commit_order r quote vendor_id budget_id actor terms db
      ≢ ok (IssueResult.need_approval v q, db')
unfolding commit_order insert_order
commit_order-issued r quote vendor_id budget_id actor terms v q db db' h =
    elim (Option-cases (find_budget budget_id db)) [
      | inl missing ↦ ground arith
      | inr (budget, found) ↦ ground arith
    ]

gate_and_commit-Unordered :
    (r : Requisition) (quote : Option Quote) (vendor : Vendor) (budget_id actor : ℕ)
    (terms : Option Terms) (v q : ℕ) (db db' : Db)
    → gate_and_commit r quote vendor budget_id actor terms db
      ≡ ok (IssueResult.need_approval v q, db')
    → Unordered db db'
unfolding gate_and_commit ask_vendor_approval evaluate_vendor_gate
gate_and_commit-Unordered r quote vendor budget_id actor terms v q db db' h =
    let never = commit_order-issued r quote vendor.id budget_id actor terms v q db db' in
    (ground (arith, never), ground (arith, never))

issue-Unordered :
    (input : IssueInput) (actor now v q : ℕ) (db db' : Db)
    → issue input actor now db ≡ ok (IssueResult.need_approval v q, db')
    → Unordered db db'
unfolding issue issue_attempt
issue-Unordered input actor now v q db db' h = elim (Result-cases (issue_precheck input db)) [
  | inl (e, failed) ↦ absurd (ground arith)
  | inr ((unit, read_db), checked) ↦
      let start = issue_precheck-reads input db read_db checked in
      elim (Option-cases (find_requisition input.requisition_id db)) [
        | inl missing ↦ absurd (ground (arith, start))
        | inr (r, found) ↦ elim (Option-cases r.budget_id) [
          | inl missing ↦ absurd (ground (arith, start))
          | inr (budget_id, assigned) ↦
              elim (Result-cases (awarded_quote r.id input.vendor_id now db)) [
                | inl (e, failed) ↦ absurd (ground (arith, start))
                | inr ((quote, later_db), awarded) ↦
                    let same =
                      awarded_quote-reads r.id input.vendor_id now db later_db quote awarded in
                    elim (Option-cases (find_vendor input.vendor_id db)) [
                      | inl missing ↦ absurd (ground (arith, start, same))
                      | inr (vendor, on_file) ↦
                          gate_and_commit-Unordered r quote vendor budget_id actor input.terms v q
                            db db' (ground (arith, start, same))
                    ]
              ]
        ]
      ]
]

-- From tables in which budget ids are keys, every budget is within its limit and every requisition
-- has at most one order that is not cancelled, every issue that goes through, of an order or of a
-- request for approval, leads to such tables again.
pub issue-IsOrderly :
    (input : IssueInput) (actor now : ℕ) (db db' : Db) (result : IssueResult)
    → IsOrderly db
    → issue input actor now db ≡ ok (result, db')
    → IsOrderly db'
issue-IsOrderly input actor now db db' (IssueResult.need_approval v q) o h =
    let same = issue-Unordered input actor now v q db db' h in
    record {
      budget_ids = λ i. rw same.0 (o.budget_ids i);
      within = rw same.0 o.within;
      ordered_once = λ i. rw same.1 (o.ordered_once i);
    }
issue-IsOrderly input actor now db db' (IssueResult.issued po) o h =
    let (r, vendor, budget_id, found, approved, assigned, first, on_file, active, committed) =
      issue_lem input actor now db db' po h in
    let (budget, budgeted, left, total, belongs, sold, status, orders_after, budgets_after) =
      committed in
    record {
      budget_ids = λ i.
          rw budgets_after (commit-count budget_id i po.total_minor db.budgets (o.budget_ids i));
      within = rw budgets_after (
          commit-IsWithin budget_id po.total_minor db.budgets budget (o.budget_ids budget_id)
            budgeted left o.within);
      ordered_once = λ i.
          rw orders_after
            (issued-ordered_once r.id i db.purchase_orders po belongs first (o.ordered_once i));
    }
