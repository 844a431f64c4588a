-- ===== src/Approval/Decide/Cancel.antt =====
-- A decision on the cancellation of an order; `decide` of
-- apps/api/src/approval/approval.service.ts.
use aipms.Prelude.{
  ℕ, ◌≡◌, subst, ◌∙◌, true, false, Option, some, inl, inr, arith, Bool-cases, Option-cases, ok,
  Result-cases, find?, ◌==◌, eq_opt,
}
use aipms.Prelude.Text.{Text}
use aipms.Database.{Db, Approval, ApprovalKind, is_live, is_po_cancelled, PurchaseOrder}
use aipms.Approval.Effects.{
  DecideVerdict, DecideResult, is_reject, cancel_order, cancel_live_order, find_order,
}
use aipms.Approval.Effects.Cancellation.{Cancelled, Cancelled-same, cancel_live_order-Cancelled}
use aipms.Approval.Decide.{find_approval, take_effect, decide}
use aipms.Approval.Decide.Laws.{Decided}
use aipms.Approval.Decide.Outcome.{decide_steps}

-- What becomes of an order whose cancellation is granted: it was cancelled already, or it was live, of the
-- requisition of the approval, and is cancelled.
pub data CancelOutcome (a : Approval) (po : PurchaseOrder) (db db' : Db) : Type 0 where
  was_cancelled : is_po_cancelled po.status ≡ true → CancelOutcome a po db db'
  is_cancelled :
      is_live po.status ≡ true
      → eq_opt a.requisition_id po.requisition_id ≡ true
      → Cancelled po db db'
      → CancelOutcome a po db db'

cancel_order-CancelOutcome :
    (ratio_bps : ℕ → ℕ → ℕ) (a updated : Approval) (db db' : Db) (r : DecideResult)
    → cancel_order ratio_bps a updated db ≡ ok (r, db')
    → (po_id : ℕ) × (po : PurchaseOrder) × (a.po_id ≡ some po_id)
      × (find_order po_id db ≡ some po)
      × CancelOutcome a po db db'
unfolding cancel_order
cancel_order-CancelOutcome ratio_bps a updated db db' r h = elim (Option-cases a.po_id) [
  | inl missing ↦ absurd (ground arith)
  | inr (po_id, of) ↦ elim (Option-cases (find_order po_id db)) [
    | inl missing ↦ absurd (ground arith)
    | inr (po, found) ↦ elim (Bool-cases (is_po_cancelled po.status)) [
      | inl already ↦ (po_id, po, of, found, CancelOutcome.was_cancelled already)
      | inr still ↦ elim (Result-cases (cancel_live_order ratio_bps updated po db)) [
        | inl (e, thrown) ↦ absurd (ground arith)
        | inr ((given, last), done) ↦
            let same : last ≡ db' = ground arith in
            (
              po_id,
              po,
              of,
              found,
              CancelOutcome.is_cancelled (ground arith) (ground arith) (
                  subst (Cancelled po db) same
                    (cancel_live_order-Cancelled ratio_bps updated po db last given done).0),
            )
      ]
    ]
  ]
]

CancelOutcome-same :
    (id : ℕ) (verdict : DecideVerdict) (actor_id : ℕ) (a : Approval) (po : PurchaseOrder)
    (db next db' : Db)
    → Decided id verdict actor_id db next
    → CancelOutcome a po next db'
    → CancelOutcome a po db db'
CancelOutcome-same id verdict actor_id a po db next db' decided
      (CancelOutcome.was_cancelled already) =
    CancelOutcome.was_cancelled already
CancelOutcome-same id verdict actor_id a po db next db' decided
      (CancelOutcome.is_cancelled live of c) =
    CancelOutcome.is_cancelled live of (
      Cancelled-same po db next db' decided.invoices decided.receipts decided.orders
        decided.requisitions decided.budgets c)

take_effect-cancels :
    (ratio_bps : ℕ → ℕ → ℕ) (a updated : Approval) (verdict : DecideVerdict) (now : ℕ) (db : Db)
    → a.kind ≡ ApprovalKind.po_cancellation
    → is_reject verdict ≡ false
    → cancel_order ratio_bps a updated db ≡ take_effect ratio_bps a updated verdict now db
unfolding take_effect
take_effect-cancels ratio_bps a updated verdict now db kind granted = ground arith

-- A decision that grants the cancellation of an order finds the order cancelled already, or live
-- and of the approval's requisition; then no invoice of it is paid and no recorded receipt is for
-- it, its row is cancelled, and where it has a requisition, the budget of that requisition had
-- committed at least its total and has it less committed afterwards.
pub decide-CancelOutcome :
    (ratio_bps : ℕ → ℕ → ℕ) (id : ℕ) (verdict : DecideVerdict) (actor_id : ℕ)
    (evidence : Option Text) (now : ℕ) (db db' : Db) (r : DecideResult) (a : Approval)
    → find_approval id db ≡ some a
    → a.kind ≡ ApprovalKind.po_cancellation
    → is_reject verdict ≡ false
    → decide ratio_bps id verdict actor_id evidence now db ≡ ok (r, db')
    → (po_id : ℕ) × (po : PurchaseOrder) × (a.po_id ≡ some po_id)
      × (find_order po_id db ≡ some po)
      × CancelOutcome a po db db'
decide-CancelOutcome ratio_bps id verdict actor_id evidence now db db' r a there kind granted h =
    let (b, updated, next, found, allowed, decided, effect) =
      decide_steps ratio_bps id verdict actor_id evidence now db db' r h in
    let same : b ≡ a = ground arith in
    let cancels : cancel_order ratio_bps a updated next ≡ ok (r, db') =
      take_effect-cancels ratio_bps a updated verdict now next kind granted
      ∙ subst (λ (c : Approval). take_effect ratio_bps c updated verdict now next ≡ ok (r, db'))
          same effect in
    let (po_id, po, of, order, outcome) =
      cancel_order-CancelOutcome ratio_bps a updated next db' r cancels in
    (
      po_id,
      po,
      of,
      subst (λ ps. find? (λ (p : PurchaseOrder). p.id == po_id) ps ≡ some po) decided.orders order,
      CancelOutcome-same id verdict actor_id a po db next db' decided outcome,
    )
