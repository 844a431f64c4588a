-- ===== src/Approval/Effects/Cancellation.antt =====
-- The cancellation of a live order, `decide` of apps/api/src/approval/approval.service.ts.
use aipms.Prelude.{
  ℕ, ◌≡◌, refl, sym, subst, ◌∙◌, false, ◌&&◌, find?, some, inl, inr, arith, Bool-cases, ok,
  Result-cases, any, update_where, ◌==◌,
}
use aipms.Database.{Db, Approval, Budget, Requisition, PurchaseOrder, Invoice, is_invoice_paid}
use aipms.Invoice.Match.{counts_for}
use aipms.Invoice.Rematch.{assert_po_correction_allowed, reevaluate_matched_for_po}
use aipms.Invoice.Coverage.Reevaluate.{
  of_order, assert_po_correction_allowed-unpaid, reevaluate_matched_for_po-Untouched, unpaid-any,
}
use aipms.Approval.Budget.{release_committed_budget, release}
use aipms.Approval.Budget.Laws.{
  Released, release_committed_budget_lem, release_committed_budget-others,
}
use aipms.Approval.Effects.{DecideResult, cancel_rows, set_po_cancelled, cancel_live_order}

-- What a cancelled order leaves: it had neither a paid invoice nor a receipt that counts, its row is cancelled,
-- and the budget of its requisition has its total back.
pub record Cancelled (po : PurchaseOrder) (db db' : Db) : Type 0 where
  pub unpaid :
      any (λ (i : Invoice). of_order po.id i && is_invoice_paid i.status) db.invoices ≡ false
  pub no_receipt : any (counts_for po.id) db.receipts ≡ false
  pub orders :
      db'.purchase_orders
      ≡ update_where (λ (p : PurchaseOrder). p.id == po.id) set_po_cancelled db.purchase_orders
  pub released :
      (requisition_id : ℕ)
      → po.requisition_id ≡ some requisition_id
      → Released requisition_id po.total_minor db db'

-- The release reads budgets and requisitions that the match of invoices has left as they were.
Released-same :
    (po : PurchaseOrder) (requisition_id : ℕ) (db next last db' : Db)
    → next.requisitions ≡ db.requisitions
    → next.budgets ≡ db.budgets
    → db'.budgets ≡ last.budgets
    → Released requisition_id po.total_minor next last
    → Released requisition_id po.total_minor db db'
Released-same po requisition_id db next last db' requisitions budgets budgets' r = record {
  requisition = r.requisition;
  budget_id = r.budget_id;
  budget = r.budget;
  found =
      subst (λ rs. find? (λ (q : Requisition). q.id == requisition_id) rs ≡ some r.requisition)
        requisitions r.found;
  has_budget = r.has_budget;
  before =
      subst (λ bs. find? (λ (b : Budget). b.id == r.budget_id) bs ≡ some r.budget) budgets r.before;
  committed = r.committed;
  after =
      subst
        (λ bs.
          find? (λ (b : Budget). b.id == r.budget_id) bs ≡ some (release po.total_minor r.budget))
        (sym budgets') r.after;
}

pub cancel_live_order-Cancelled :
    (ratio_bps : ℕ → ℕ → ℕ) (updated : Approval) (po : PurchaseOrder) (db db' : Db)
    (r : DecideResult)
    → cancel_live_order ratio_bps updated po db ≡ ok (r, db')
    → Cancelled po db db' × (db'.approvals ≡ db.approvals)
unfolding cancel_live_order
cancel_live_order-Cancelled ratio_bps updated po db db' r h =
    elim (Result-cases (assert_po_correction_allowed po.id db)) [
      | inl (e, thrown) ↦ absurd (ground arith)
      | inr ((invoices, checked), allowed) ↦
          let (unchanged, read, unpaid) =
            assert_po_correction_allowed-unpaid po.id invoices db checked allowed in
          elim (Bool-cases (any (counts_for po.id) db.receipts)) [
            | inl received ↦ absurd (ground arith)
            | inr no_receipt ↦
                elim (Result-cases
                  (reevaluate_matched_for_po ratio_bps po.id (cancel_rows po.id db))) [
                    | inl (e, thrown) ↦ absurd (ground arith)
                    | inr ((summary, next), done) ↦
                        elim (Result-cases (
                          release_committed_budget po.requisition_id po.total_minor po.currency_code
                            next)) [
                              | inl (e, thrown) ↦ absurd (ground arith)
                              | inr ((u, last), released) ↦
                                  let same =
                                    reevaluate_matched_for_po-Untouched ratio_bps po.id summary
                                      (cancel_rows po.id db) next done in
                                  let (approvals, orders, receipts) =
                                    release_committed_budget-others po.requisition_id po.total_minor
                                      po.currency_code next last u released in
                                  let budgets : db'.budgets ≡ last.budgets = ground arith in
                                  let after_orders : db'.purchase_orders ≡ last.purchase_orders =
                                    ground arith in
                                  let after_approvals : db'.approvals ≡ last.approvals =
                                    ground arith in
                                  (
                                    record {
                                      unpaid = unpaid-any po.id db unpaid;
                                      no_receipt = no_receipt;
                                      orders = after_orders ∙ orders ∙ same.orders;
                                      released = λ requisition_id of.
                                          Released-same po requisition_id db next last db'
                                            same.requisitions same.budgets budgets
                                            (release_committed_budget_lem requisition_id
                                              po.total_minor po.currency_code next last u
                                              (subst
                                                (λ q.
                                                  release_committed_budget q po.total_minor
                                                    po.currency_code next
                                                  ≡ ok (u, last))
                                                of released));
                                    },
                                    after_approvals ∙ approvals ∙ same.approvals,
                                  )
                            ]
                  ]
          ]
    ]

-- The same of the tables before a write to others.
pub Cancelled-same :
    (po : PurchaseOrder) (db next db' : Db)
    → next.invoices ≡ db.invoices
    → next.receipts ≡ db.receipts
    → next.purchase_orders ≡ db.purchase_orders
    → next.requisitions ≡ db.requisitions
    → next.budgets ≡ db.budgets
    → Cancelled po next db'
    → Cancelled po db db'
Cancelled-same po db next db' invoices receipts orders requisitions budgets c = record {
  unpaid = rw (← invoices) c.unpaid;
  no_receipt = rw (← receipts) c.no_receipt;
  orders = rw (← orders) c.orders;
  released =
      λ id of. Released-same po id db next db' db' requisitions budgets refl (c.released id of);
}
