-- ===== src/Requisition.antt =====
-- `create` and `submit` of `RequisitionService`,
-- apps/api/src/requisition/requisition.service.ts. The priority and the note of a requisition,
-- which nothing reads, are left out.
pub mod Steps
pub mod Laws
pub mod Recorded
pub mod Lines
mod Tests
use aipms.Prelude.{
  ℕ, suc, ◌+◌, Bool, true, false, not, ◌&&◌, Option, none, some, List, [], ◌∷◌, ◌++◌, map, Error,
  Result, ok, err, ◌==◌, find?, count, update_where, is_some, is_ref, or_else, if◌then◌else◌,
}
use aipms.Prelude.Int.{ℤ, ◌-ℤ◌, ◌*ℤ◌, sum_of}
use aipms.Prelude.Text.{Text, text_eq, units}
use aipms.Prelude
use aipms.Money.{assert_database_int, assert_single_currency, normalize_currency_code}
use aipms.Policy.Engine.{
  PolicyRow, GateContext, GateDecision, GateOutcome, GateKind, evaluate_threshold_gate,
}
use aipms.Policy.Resolver.{resolve_effective_policy}
use aipms.Database.{
  Db, Requisition, OrderLine, Approval, Budget, ReqStatus, ApprovalKind, ApprovalStatus, EventType,
  is_req_draft, Tx, ◌>>=◌, ◌>>◌, pure, lift, gets, modify, emit, or_throw, throw_if,
}
use aipms.DocumentNumber.{next, latest}

pub record CreateRequisitionLine : Type 0 where
  pub sku : Option Text
  pub description : Text
  pub quantity : ℤ
  pub unit : Option Text
  pub unit_price_minor : ℤ
  pub currency_code : Option Text

pub record CreateRequisition : Type 0 where
  pub requested_by : ℕ
  pub cost_center : Text
  pub budget_id : Option ℕ
  pub lines : List CreateRequisitionLine

-- The line with number `n`.
unfoldable pub checked_line : ℕ → CreateRequisitionLine → Result OrderLine
checked_line n line = Prelude.◌>>=◌ (assert_database_int line.quantity) (λ quantity.
    Prelude.◌>>=◌ (assert_database_int line.unit_price_minor) (λ price.
      Prelude.◌>>=◌ (normalize_currency_code (or_else line.currency_code (units "PHP"))) (λ code.
        Prelude.◌>>=◌ (assert_database_int (line.quantity *ℤ line.unit_price_minor)) (λ total.
          ok (record {
            line_no = n;
            sku = line.sku;
            description = line.description;
            quantity = quantity;
            unit = or_else line.unit (units "ea");
            unit_price_minor = price;
            currency_code = code;
            line_total_minor = total;
          })))))

-- The lines, numbered from `n` on; the first that is refused throws.
unfoldable pub checked_lines : ℕ → List CreateRequisitionLine → Result (List OrderLine)
checked_lines n [] = ok []
checked_lines n (line ∷ lines) =
    let rest = checked_lines (suc n) lines in
    Prelude.◌>>=◌ (checked_line n line) (λ l. Prelude.◌>>=◌ rest (λ ls. ok (l ∷ ls)))

-- The budget's currency is the requisition's.
unfoldable pub assert_budget_currency : Budget → Text → Tx (Unit {0})
assert_budget_currency budget currency = do
  code ← lift (normalize_currency_code budget.currency_code)
  throw_if (not (text_eq code currency))
      (Error.bad_request "Requisition currency must match its budget currency")

unfoldable pub find_budget : ℕ → Db → Option Budget
find_budget id db = find? (λ (b : Budget). b.id == id) db.budgets

-- The check of the budget when a requisition is created.
unfoldable pub check_budget : Option ℕ → Text → Tx (Unit {0})
check_budget none currency = pure tt
check_budget (some id) currency = do
  found ← gets (find_budget id)
  budget ← or_throw found (Error.not_found "Budget not found")
  assert_budget_currency budget currency

-- `requisition.create` with its number.
unfoldable pub insert_requisition : CreateRequisition → List OrderLine → Tx Requisition
insert_requisition input lines db =
    let row : Requisition = record {
      id = db.next_id;
      request_number =
          next (units "REQ-")
            (latest (map (λ (r : Requisition). r.request_number) db.requisitions));
      requested_by = input.requested_by;
      status = ReqStatus.draft;
      cost_center = input.cost_center;
      budget_id = input.budget_id;
      submitted_at = none;
      decided_at = none;
      lines = lines;
    } in
    ok (row, record db { requisitions = db.requisitions ++ row ∷ []; next_id = suc db.next_id })

abbrev has_no_line : List CreateRequisitionLine → Bool
has_no_line [] = true
has_no_line (line ∷ lines) = false

unfoldable pub create : CreateRequisition → Tx Requisition
create input = do
  throw_if (has_no_line input.lines) (Error.bad_request "Requisition needs at least one line")
  lines ← lift (checked_lines 1 input.lines)
  total ← lift (assert_database_int (sum_of (λ (l : OrderLine). l.line_total_minor) lines))
  currency ← lift (assert_single_currency (map (λ (l : OrderLine). l.currency_code) lines))
  check_budget input.budget_id currency
  insert_requisition input lines

-- The requisition that its requester (if one is named) may read.
unfoldable pub find_own : ℕ → Option ℕ → Db → Option Requisition
find_own id none db = find? (λ (r : Requisition). r.id == id) db.requisitions
find_own id (some user) db =
    find? (λ (r : Requisition). r.id == id && r.requested_by == user) db.requisitions

abbrev pub total_of : Requisition → ℤ
total_of r = sum_of (λ (l : OrderLine). l.line_total_minor) r.lines

abbrev pub remaining : Budget → ℤ
remaining b = b.limit_minor -ℤ b.committed_minor -ℤ b.spent_minor

-- What is left of the requisition's budget, if it has one.
unfoldable pub remaining_budget : Option ℕ → Text → Tx (Option ℤ)
remaining_budget none currency = pure none
remaining_budget (some id) currency = do
  found ← gets (find_budget id)
  budget ← or_throw found (Error.not_found "Budget not found")
  assert_budget_currency budget currency
  pure (some (remaining budget))

abbrev pub gate_context : Requisition → Option ℤ → GateContext
gate_context r left = record {
  cost_center = r.cost_center;
  amount_minor = total_of r;
  budget_assigned = is_some r.budget_id;
  budget_remaining_minor = left;
}

abbrev pub approval_kind : GateKind → ApprovalKind
approval_kind GateKind.threshold = ApprovalKind.threshold
approval_kind GateKind.budget_override = ApprovalKind.budget_override
approval_kind GateKind.vendor_gate = ApprovalKind.vendor_gate
approval_kind GateKind.policy_gate = ApprovalKind.policy_gate

abbrev pub moved : ReqStatus → ℕ → Requisition → Requisition
moved ReqStatus.approved now r = record r {
  status = ReqStatus.approved;
  submitted_at = some now;
  decided_at = some now;
}
moved status now r = record r { status = status; submitted_at = some now }

-- The status that a decision leads to.
abbrev pub next_status : GateOutcome → ReqStatus
next_status GateOutcome.pass = ReqStatus.approved
next_status GateOutcome.block = ReqStatus.exception
next_status GateOutcome.need_approval = ReqStatus.submitted

-- The user who stands for the system.
abbrev pub system : ℕ
system = 0

-- The approval that records a decision: passed by the system, or pending with its route.
abbrev pub decision_row : ℕ → Requisition → GateDecision → Approval
decision_row id r d = elim d.outcome [
  | GateOutcome.pass ↦ record {
    id = id;
    requisition_id = some r.id;
    po_id = none;
    vendor_id = none;
    kind = ApprovalKind.threshold;
    gate_outcome = GateOutcome.pass;
    route = [];
    citations = d.citations;
    status = ApprovalStatus.approved;
    requested_by = r.requested_by;
    decided_by = some system;
  }
  | outcome ↦ record {
    id = id;
    requisition_id = some r.id;
    po_id = none;
    vendor_id = none;
    kind = approval_kind d.gate_kind;
    gate_outcome = outcome;
    route = or_else d.approvers [];
    citations = d.citations;
    status = ApprovalStatus.pending;
    requested_by = r.requested_by;
    decided_by = none;
  }
]

abbrev pub decision_event : GateOutcome → EventType
decision_event GateOutcome.pass = EventType.requisition_approved
decision_event _ = EventType.requisition_submitted

abbrev pub submittable : ℕ → Requisition → Bool
submittable id r = r.id == id && is_req_draft r.status

abbrev changed : Error
changed = Error.conflict "Requisition changed; reload and retry"

-- The writes of `submit`, in both branches.
unfoldable pub record_decision : ℕ → ℕ → Requisition → GateDecision → Tx Requisition
record_decision id now r d = do
  updated ← gets (λ db. count (submittable id) db.requisitions)
  throw_if (not (updated == 1)) changed
  modify (λ db. record db {
    requisitions =
        update_where (submittable id) (moved (next_status d.outcome) now) db.requisitions;
  })
  reread ← gets (find_own id none)
  after ← or_throw reread changed
  modify (λ db. record db {
    approvals = db.approvals ++ decision_row db.next_id r d ∷ [];
    next_id = suc db.next_id;
  })
  emit (decision_event d.outcome) id
  pure after

-- The reads of `submit` that lead to the decision.
unfoldable pub decide_submission : Requisition → Tx GateDecision
decide_submission r = do
  currency ← lift (assert_single_currency (map (λ (l : OrderLine). l.currency_code) r.lines))
  policies ← gets (λ db. db.policies)
  policy ← lift (resolve_effective_policy r.cost_center policies)
  left ← remaining_budget r.budget_id currency
  pure (evaluate_threshold_gate policy (gate_context r left))

unfoldable pub submit : ℕ → Option ℕ → ℕ → Tx (Requisition × GateDecision)
submit id requested_by now = do
  found ← gets (find_own id requested_by)
  r ← or_throw found (Error.not_found "Requisition not found")
  throw_if (not (is_req_draft r.status)) (Error.conflict "Only draft requisitions can be submitted")
  decision ← decide_submission r
  after ← record_decision id now r decision
  pure (after, decision)
