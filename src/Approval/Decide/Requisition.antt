-- ===== src/Approval/Decide/Requisition.antt =====
-- A decision on an approval of a requisition; `decide` of
-- apps/api/src/approval/approval.service.ts.
use aipms.Prelude.{
  ℕ, ◌≡◌, sym, subst, ap, ◌∙◌, false, ◌⊎◌, Option, none, some, inl, inr, arith, ok, Result-cases,
  Bool-cases,
}
use aipms.Prelude.Text.{Text}
use aipms.Database.{Db, Approval, Requisition}
use aipms.Approval.Effects.{
  DecideVerdict, DecideResult, is_reject, cancel_order, cancel_live_order, qualify_vendor,
  reject_requisition, advance_requisition, gathered_status,
}
use aipms.Approval.Budget.{find_requisition}
use aipms.Approval.Decide.{find_approval, take_effect, decide}
use aipms.Approval.Decide.Laws.{take_effect-approvals}
use aipms.Prelude.{count}
use aipms.Database.{ReqStatus}
use aipms.Approval.Effects.{is_pending_for, is_rejected_for}
use aipms.Approval.Decide.Outcome.{decide_steps}
use aipms.Approval.Decide.Moved.{Given, reject_requisition-Given, advance_requisition-Given}

gathered_status-approved :
    (id : ℕ) (db : Db)
    → gathered_status id db ≡ ReqStatus.approved
    → (count (is_pending_for id) db.approvals ≡ 0) × (count (is_rejected_for id) db.approvals ≡ 0)
unfolding gathered_status
gathered_status-approved id db h = (ground arith, ground arith)

cancel_order-status :
    (ratio_bps : ℕ → ℕ → ℕ) (a updated : Approval) (db db' : Db) (r : DecideResult)
    → cancel_order ratio_bps a updated db ≡ ok (r, db')
    → r.requisition_status ≡ none
unfolding cancel_order cancel_live_order
cancel_order-status ratio_bps a updated db db' r h = ground arith

-- A decision that gives a requisition a status has rejected it or gone on with it.
take_effect-runs :
    (ratio_bps : ℕ → ℕ → ℕ) (a updated : Approval) (verdict : DecideVerdict) (now : ℕ) (db db' : Db)
    (r : DecideResult) (id : ℕ) (status : ReqStatus)
    → a.requisition_id ≡ some id
    → r.requisition_status ≡ some status
    → take_effect ratio_bps a updated verdict now db ≡ ok (r, db')
    → (reject_requisition updated id now db ≡ ok (r, db'))
      ⊎ ((is_reject verdict ≡ false)
          × (advance_requisition updated id verdict now db ≡ ok (r, db')))
unfolding take_effect qualify_vendor
take_effect-runs ratio_bps a updated verdict now db db' r id status of given h =
    elim (Result-cases (cancel_order ratio_bps a updated db)) [
      | inl (e, thrown) ↦ elim (Bool-cases (is_reject verdict)) [
        | inl rejects ↦ inl (ground arith)
        | inr grants ↦ inr (grants, ground arith)
      ]
      | inr ((thing, last), done) ↦
          let none_given = cancel_order-status ratio_bps a updated db last thing done in
          elim (Bool-cases (is_reject verdict)) [
            | inl rejects ↦ inl (ground arith)
            | inr grants ↦ inr (grants, ground arith)
          ]
    ]

take_effect-Given :
    (ratio_bps : ℕ → ℕ → ℕ) (a updated : Approval) (verdict : DecideVerdict) (now : ℕ) (db db' : Db)
    (r : DecideResult) (id : ℕ) (status : ReqStatus)
    → a.requisition_id ≡ some id
    → r.requisition_status ≡ some status
    → take_effect ratio_bps a updated verdict now db ≡ ok (r, db')
    → Given verdict id db db' status
take_effect-Given ratio_bps a updated verdict now db db' r id status of given h =
    elim (take_effect-runs ratio_bps a updated verdict now db db' r id status of given h) [
      | inl ran ↦ reject_requisition-Given updated verdict id now db db' r status given ran
      | inr (grants, ran) ↦
          advance_requisition-Given updated verdict id now db db' r status grants given ran
    ]

-- Where a decision that goes through gives a status for the requisition of its approval, the
-- requisition that is found afterwards has that status; it is approved only if the decision is no
-- rejection and, in the tables that it leaves, no approval of the requisition is pending or
-- rejected.
pub decide-approved :
    (ratio_bps : ℕ → ℕ → ℕ) (id : ℕ) (verdict : DecideVerdict) (actor_id : ℕ)
    (evidence : Option Text) (now : ℕ) (db db' : Db) (r : DecideResult) (a : Approval)
    (requisition_id : ℕ) (status : ReqStatus)
    → find_approval id db ≡ some a
    → a.requisition_id ≡ some requisition_id
    → r.requisition_status ≡ some status
    → decide ratio_bps id verdict actor_id evidence now db ≡ ok (r, db')
    → (row : Requisition) × (find_requisition requisition_id db' ≡ some row)
      × (row.status ≡ status)
      × (row.status ≡ ReqStatus.approved
          → (count (is_pending_for requisition_id) db'.approvals ≡ 0)
            × (count (is_rejected_for requisition_id) db'.approvals ≡ 0)
            × (is_reject verdict ≡ false))
decide-approved ratio_bps id verdict actor_id evidence now db db' r a requisition_id status there of
      given h =
    let (b, updated, next, found, allowed, decided, effect) =
      decide_steps ratio_bps id verdict actor_id evidence now db db' r h in
    let same : b ≡ a = ground arith in
    let subject : b.requisition_id ≡ some requisition_id =
      ap (λ (c : Approval). c.requisition_id) same ∙ of in
    let ((row, on_file, moved), if_approved) =
      take_effect-Given ratio_bps b updated verdict now next db' r requisition_id status subject
        given effect in
    let kept = take_effect-approvals ratio_bps b updated verdict now next db' r effect in
    (
      row,
      on_file,
      moved,
      λ approved.
          let (gathered, grants) = if_approved (sym moved ∙ approved) in
          let (no_pending, no_rejected) = gathered_status-approved requisition_id next gathered in
          (
            subst (λ rows. count (is_pending_for requisition_id) rows ≡ 0) (sym kept) no_pending,
            subst (λ rows. count (is_rejected_for requisition_id) rows ≡ 0) (sym kept) no_rejected,
            grants,
          ),
    )
