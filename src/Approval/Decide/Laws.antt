-- ===== src/Approval/Decide/Laws.antt =====
-- Who may decide an approval, and that it is decided once; `decide` of
-- apps/api/src/approval/approval.service.ts.
use aipms.Prelude.{
  ℕ, ◌≡◌, ◌≢◌, true, false, Option, some, inl, inr, arith, Option-cases, ok, Result-cases, find?,
  update_where, ◌==◌,
}
use aipms.Prelude.Text.{Text}
use aipms.Database.{Db, User, Approval, is_pending}
use aipms.Approval.Effects.{
  DecideVerdict, DecideResult, cancel_order, cancel_live_order, find_order, qualify_vendor,
  move_requisition, reject_requisition, advance_requisition,
}
use aipms.Approval.Effects.Cancellation.{cancel_live_order-Cancelled}
use aipms.Approval.Decide.{
  find_approval, find_user, lacks_reason, may_decide, decidable, set_verdict, authorize,
  write_verdict, take_effect,
}

-- What the tests of a decision have found.
pub record IsAuthorized (verdict : DecideVerdict) (actor_id : ℕ) (evidence : Option Text)
    (a : Approval) (db : Db) : Type 0 where
  pub pending : is_pending a.status ≡ true
  pub reason : lacks_reason verdict evidence ≡ false
  pub actor : User
  pub known : find_user actor_id db ≡ some actor
  pub allowed : may_decide actor.role a.route ≡ true
  pub other : a.requested_by ≢ actor_id

pub authorize-IsAuthorized :
    (id : ℕ) (verdict : DecideVerdict) (actor_id : ℕ) (evidence : Option Text) (a : Approval)
    (db db' : Db)
    → authorize id verdict actor_id evidence db ≡ ok (a, db')
    → (db' ≡ db) × (find_approval id db ≡ some a) × IsAuthorized verdict actor_id evidence a db
unfolding authorize
authorize-IsAuthorized id verdict actor_id evidence a db db' h =
    elim (Option-cases (find_approval id db)) [
      | inl missing ↦ absurd (ground arith)
      | inr (approval, found) ↦ elim (Option-cases (find_user actor_id db)) [
        | inl unknown ↦ absurd (ground arith)
        | inr (actor, known) ↦ (
          ground arith,
          ground arith,
          record {
            pending = ground arith;
            reason = ground arith;
            actor = actor;
            known = known;
            allowed = ground arith;
            other = ground arith;
          },
        )
      ]
    ]

-- What the decision writes: the one approval, and an event.
pub record Decided (id : ℕ) (verdict : DecideVerdict) (actor_id : ℕ) (db db' : Db) : Type 0 where
  pub approvals :
      db'.approvals ≡ update_where (decidable id) (set_verdict verdict actor_id) db.approvals
  pub orders : db'.purchase_orders ≡ db.purchase_orders
  pub invoices : db'.invoices ≡ db.invoices
  pub receipts : db'.receipts ≡ db.receipts
  pub budgets : db'.budgets ≡ db.budgets
  pub requisitions : db'.requisitions ≡ db.requisitions

pub write_verdict-Decided :
    (id : ℕ) (verdict : DecideVerdict) (actor_id : ℕ) (updated : Approval) (db db' : Db)
    → write_verdict id verdict actor_id db ≡ ok (updated, db')
    → Decided id verdict actor_id db db'
unfolding write_verdict
write_verdict-Decided id verdict actor_id updated db db' h =
    let after = update_where (decidable id) (set_verdict verdict actor_id) db.approvals in
    elim (Option-cases (find? (λ (a : Approval). a.id == id) after)) [
      | inl missing ↦ absurd (ground arith)
      | inr (a, found) ↦ record {
        approvals = ground arith;
        orders = ground arith;
        invoices = ground arith;
        receipts = ground arith;
        budgets = ground arith;
        requisitions = ground arith;
      }
    ]

cancel_order-approvals :
    (ratio_bps : ℕ → ℕ → ℕ) (a updated : Approval) (db db' : Db) (r : DecideResult)
    → cancel_order ratio_bps a updated db ≡ ok (r, db')
    → db'.approvals ≡ db.approvals
unfolding cancel_order
cancel_order-approvals ratio_bps a updated db db' r h = elim (Option-cases a.po_id) [
  | inl missing ↦ absurd (ground arith)
  | inr (po_id, of) ↦ elim (Option-cases (find_order po_id db)) [
    | inl missing ↦ absurd (ground arith)
    | inr (po, found) ↦ elim (Result-cases (cancel_live_order ratio_bps updated po db)) [
      | inl (e, thrown) ↦ ground arith
      | inr ((given, last), done) ↦
          let same = (cancel_live_order-Cancelled ratio_bps updated po db last given done).1 in
          ground arith
    ]
  ]
]

-- No effect of a decision touches the approvals again.
pub take_effect-approvals :
    (ratio_bps : ℕ → ℕ → ℕ) (a updated : Approval) (verdict : DecideVerdict) (now : ℕ) (db db' : Db)
    (r : DecideResult)
    → take_effect ratio_bps a updated verdict now db ≡ ok (r, db')
    → db'.approvals ≡ db.approvals
unfolding take_effect qualify_vendor move_requisition reject_requisition advance_requisition
take_effect-approvals ratio_bps a updated verdict now db db' r h =
    elim (Result-cases (cancel_order ratio_bps a updated db)) [
      | inl (e, thrown) ↦ ground arith
      | inr ((given, last), done) ↦
          let same = cancel_order-approvals ratio_bps a updated db last given done in ground arith
    ]
