-- ===== src/Approval/Decide.antt =====
-- `decide` of `ApprovalService`, apps/api/src/approval/approval.service.ts.
pub mod Laws
pub mod Outcome
pub mod Cancel
pub mod Moved
pub mod Requisition
mod Tests
use aipms.Prelude.{
  ℕ, Bool, true, false, not, ◌&&◌, ◌||◌, Option, none, some, List, [], ◌∷◌, Error, find?, count,
  update_where, ◌==◌, if◌then◌else◌,
}
use aipms.Prelude.Text.{Text, units, trim}
use aipms.Money.{includes}
use aipms.Payment.Beneficiary.{is_empty}
use aipms.Database.{
  Db, User, UserRole, Approval, ApprovalStatus, ApprovalKind, EventType, is_admin, is_pending, Tx,
  ◌>>=◌, ◌>>◌, pure, gets, modify, emit, or_throw, throw_if,
}
use aipms.Approval.Effects.{
  DecideVerdict, DecideOutcome, DecideResult, is_reject, outcome_of, result, cancel_order,
  qualify_vendor, reject_requisition, advance_requisition,
}

abbrev pub find_approval : ℕ → Db → Option Approval
find_approval id db = find? (λ (a : Approval). a.id == id) db.approvals

abbrev pub find_user : ℕ → Db → Option User
find_user id db = find? (λ (u : User). u.id == id) db.users

abbrev pub role_text : UserRole → Text
role_text UserRole.admin = units "admin"
role_text UserRole.finance = units "finance"
role_text UserRole.procurement = units "procurement"
role_text UserRole.user = units "user"

-- An override with no reason, or a blank one.
abbrev pub lacks_reason : DecideVerdict → Option Text → Bool
lacks_reason DecideVerdict.override none = true
lacks_reason DecideVerdict.override (some text) = is_empty (trim text)
lacks_reason _ evidence = false

abbrev pub decided_status : DecideVerdict → ApprovalStatus
decided_status DecideVerdict.approve = ApprovalStatus.approved
decided_status DecideVerdict.reject = ApprovalStatus.rejected
decided_status DecideVerdict.override = ApprovalStatus.overridden

-- An administrator, or a role on the route.
abbrev pub may_decide : UserRole → List Text → Bool
may_decide role route = is_admin role || includes route (role_text role)

abbrev pub decidable : ℕ → Approval → Bool
decidable id a = a.id == id && is_pending a.status

abbrev pub set_verdict : DecideVerdict → ℕ → Approval → Approval
set_verdict verdict actor a = record a { status = decided_status verdict; decided_by = some actor }

-- The tests that a decision passes, which read only.
unfoldable pub authorize : ℕ → DecideVerdict → ℕ → Option Text → Tx Approval
authorize id verdict actor_id evidence = do
  found ← gets (find_approval id)
  approval ← or_throw found (Error.not_found "Approval not found")
  throw_if (not (is_pending approval.status)) (Error.conflict "Approval already decided")
  throw_if (lacks_reason verdict evidence)
      (Error.bad_request "An explicit evidence reason is required to override an approval")
  known ← gets (find_user actor_id)
  actor ← or_throw known (Error.forbidden "Principal is not authorized to decide approvals")
  throw_if (not (may_decide actor.role approval.route))
      (Error.forbidden "Role is not on this approval's route")
  throw_if (approval.requested_by == actor_id)
      (Error.forbidden "Approval maker and checker must be different principals")
  pure approval

-- The decision is written and told.
unfoldable pub write_verdict : ℕ → DecideVerdict → ℕ → Tx Approval
write_verdict id verdict actor_id = do
  changed ← gets (λ db. count (decidable id) db.approvals)
  throw_if (not (changed == 1)) (Error.conflict "Approval changed; reload before deciding")
  modify (λ db. record db {
    approvals = update_where (decidable id) (set_verdict verdict actor_id) db.approvals;
  })
  reread ← gets (find_approval id)
  updated ← or_throw reread (Error.not_found "Approval not found")
  emit EventType.approval_decided id
  pure updated

abbrev decide_vendor_gate : Approval → DecideVerdict → ℕ → Tx DecideResult
decide_vendor_gate updated verdict vendor_id =
    if is_reject verdict
    then pure (result updated DecideOutcome.rejected)
    else (do qualify_vendor vendor_id; pure (result updated (outcome_of verdict)))

abbrev decide_requisition : Approval → Option ℕ → DecideVerdict → ℕ → Tx DecideResult
decide_requisition updated none verdict now = pure (result updated DecideOutcome.kept)
decide_requisition updated (some id) verdict now =
    if is_reject verdict
    then reject_requisition updated id now
    else advance_requisition updated id verdict now

abbrev decide_other : Approval → Approval → DecideVerdict → ℕ → Tx DecideResult
decide_other a updated verdict now = elim a.kind [
  | ApprovalKind.vendor_gate ↦ elim a.vendor_id [
    | some vendor_id ↦ decide_vendor_gate updated verdict vendor_id
    | none ↦ decide_requisition updated a.requisition_id verdict now
  ]
  | _ ↦ decide_requisition updated a.requisition_id verdict now
]

module _ (ratio_bps : ℕ → ℕ → ℕ) where
  -- The approval before the decision and after it, by kind.
  unfoldable pub take_effect : Approval → Approval → DecideVerdict → ℕ → Tx DecideResult
  take_effect a updated verdict now = elim a.kind [
    | ApprovalKind.po_cancellation ↦
        if is_reject verdict
        then pure (result updated DecideOutcome.kept)
        else cancel_order ratio_bps a updated
    | _ ↦ decide_other a updated verdict now
  ]

  unfoldable pub decide : ℕ → DecideVerdict → ℕ → Option Text → ℕ → Tx DecideResult
  decide id verdict actor_id evidence now = authorize id verdict actor_id evidence >>= λ approval.
      write_verdict id verdict actor_id >>= λ updated. take_effect approval updated verdict now
