-- ===== src/Payment/Run.antt =====
-- `PaymentRunService`, apps/api/src/payment-run/payment-run.service.ts. Each method is one
-- transaction; the reads that `create` makes before it opens one are `create_precheck`. Times are
-- not kept (`approvedAt` and the like are written and never read).
pub mod Lifecycle
pub mod Rivals
pub mod Stale
mod Tests
use aipms.Prelude.{
  ℕ, ◌+◌, ◌-◌, Bool, true, false, not, ◌&&◌, ◌||◌, Option, none, some, List, [], ◌∷◌, ◌++◌, map,
  Error, ok, err, ◌==◌, find?, filter, any, count, update_where, if◌then◌else◌, or_else,
}
use aipms.Prelude.Text.{Text, trim}
use aipms.Database.{
  Db, PaymentRun, PaymentRunLine, PaymentRunStatus, PaymentStatus, is_run_draft, is_run_approved,
  is_executed, is_planned, Tx, ◌>>=◌, ◌>>◌, pure, gets, modify, throw_if, or_throw,
}
use aipms.Payment.Beneficiary.{is_empty}
use aipms.Payment.Settlement.{settle_paid_invoice}

abbrev pub find_run : ℕ → Db → Option PaymentRun
find_run id db = find? (λ (r : PaymentRun). r.id == id) db.payment_runs

abbrev pub run_not_found : Error
run_not_found = Error.not_found "Payment run not found"

-- `updateMany({ where: { id, status: test }, data })`, which gives the number of rows changed.
abbrev pub update_runs : (PaymentRun → Bool) → (PaymentRun → PaymentRun) → Tx ℕ
update_runs test f = do
  changed ← gets (λ db. count test db.payment_runs)
  modify (λ db. record db { payment_runs = update_where test f db.payment_runs })
  pure changed

-- `if (changed.count !== 1) throw`
abbrev pub expect_one : ℕ → Error → Tx (Unit {0})
expect_one changed e = throw_if (not (changed == 1)) e

abbrev pub approvable : ℕ → ℕ → PaymentRun → Bool
approvable id approver r = r.id == id && (is_run_draft r.status && not (r.created_by == approver))

abbrev pub set_approved : ℕ → PaymentRun → PaymentRun
set_approved approver r = record r {
  status = PaymentRunStatus.approved;
  approved_by = some approver;
}

-- The reads and tests of `approve`.
unfoldable pub approve_check : ℕ → ℕ → Tx (Unit {0})
approve_check id approver = do
  run ← or_throw (← gets (find_run id)) run_not_found
  throw_if (not (is_run_draft run.status)) (Error.conflict "Run is not a draft")
  throw_if (run.created_by == approver) (Error.bad_request "Maker and checker must differ")

-- Its conditional write, which may come after writes of others.
unfoldable pub approve_commit : ℕ → ℕ → Tx PaymentRun
approve_commit id approver = do
  changed ← update_runs (approvable id approver) (set_approved approver)
  expect_one changed (Error.conflict "Payment run changed; reload before approving")
  or_throw (← gets (find_run id)) run_not_found

unfoldable pub approve : ℕ → ℕ → Tx PaymentRun
unfolding approve_check approve_commit
approve id approver = do approve_check id approver; approve_commit id approver

abbrev pub executable : ℕ → PaymentRun → Bool
executable id r = r.id == id && is_run_approved r.status

abbrev pub set_executed : ℕ → PaymentRun → PaymentRun
set_executed who r = record r { status = PaymentRunStatus.executed; executed_by = some who }

unfoldable pub execute_check : ℕ → Tx (Unit {0})
execute_check id = do
  run ← or_throw (← gets (find_run id)) run_not_found
  throw_if (not (is_run_approved run.status)) (Error.conflict "Run is not approved")

unfoldable pub execute_commit : ℕ → ℕ → Tx PaymentRun
execute_commit id who = do
  changed ← update_runs (executable id) (set_executed who)
  expect_one changed (Error.conflict "Payment run changed; reload before executing")
  or_throw (← gets (find_run id)) run_not_found

unfoldable pub execute : ℕ → ℕ → Tx PaymentRun
unfolding execute_check execute_commit
execute id who = do execute_check id; execute_commit id who

abbrev pub is_open : PaymentRunStatus → Bool
is_open status = is_run_draft status || is_run_approved status

abbrev pub voidable : ℕ → PaymentRun → Bool
voidable id r = r.id == id && is_open r.status

abbrev pub set_voided : ℕ → Text → PaymentRun → PaymentRun
set_voided who reason r = record r {
  status = PaymentRunStatus.voided;
  voided_by = some who;
  void_reason = some (trim reason);
}

unfoldable pub void_check : ℕ → ℕ → Text → Tx (Unit {0})
void_check id who reason = do
  throw_if (is_empty (trim reason)) (Error.bad_request "A payment-run void reason is required")
  run ← or_throw (← gets (find_run id)) run_not_found
  throw_if (not (is_open run.status)) (Error.conflict "Run is neither draft nor approved")
  throw_if (is_run_approved run.status && run.created_by == who)
      (Error.bad_request "The payment-run maker cannot override an approved run")

unfoldable pub void_commit : ℕ → ℕ → Text → Tx PaymentRun
void_commit id who reason = do
  changed ← update_runs (voidable id) (set_voided who reason)
  expect_one changed (Error.conflict "Payment run changed; reload before voiding")
  or_throw (← gets (find_run id)) run_not_found

-- `voidRun` takes no lock: its tests are on `seen`, the tables as its reads saw them, and its write,
-- which tests the status only, is on the tables as they are by then.
unfoldable pub void_run : Db → ℕ → ℕ → Text → Tx PaymentRun
unfolding void_check void_commit
void_run seen id who reason db = elim (void_check id who reason seen) [
  | err e ↦ err e
  | ok _ ↦ void_commit id who reason db
]

-- The outcomes that the bank reports.
pub data Settlement : Type 0 where
  paid dishonored rejected : Settlement

abbrev pub line_status : Settlement → PaymentStatus
line_status Settlement.paid = PaymentStatus.paid
line_status Settlement.dishonored = PaymentStatus.dishonored
line_status Settlement.rejected = PaymentStatus.rejected

abbrev pub decidable_line : ℕ → PaymentRunLine → Bool
decidable_line line_id l = l.id == line_id && is_planned l.status

abbrev pub set_line : Settlement → PaymentRunLine → PaymentRunLine
set_line s l = record l { status = line_status s }

abbrev pub planned_on : ℕ → PaymentRunLine → Bool
planned_on run_id l = l.run_id == run_id && is_planned l.status

-- `if (status === 'paid') await this.settlePaidInvoice(...)`
unfoldable pub settle : Settlement → ℕ → Tx (Unit {0})
settle Settlement.paid invoice_id = settle_paid_invoice invoice_id
settle Settlement.dishonored invoice_id = pure tt
settle Settlement.rejected invoice_id = pure tt

abbrev pub with_decision : ℕ → Settlement → Db → Db
with_decision line_id status db = record db {
  payment_run_lines = update_where (decidable_line line_id) (set_line status) db.payment_run_lines;
}

-- The write of the line, `planned` → terminal.
unfoldable pub decide_line : ℕ → Settlement → Tx (Unit {0})
decide_line line_id status = do
  decided ← gets (λ db. count (decidable_line line_id) db.payment_run_lines)
  modify (with_decision line_id status)
  expect_one decided (Error.conflict "Line is already reconciled — reload before deciding")

abbrev pub set_reconciled : PaymentRun → PaymentRun
set_reconciled r = record r { status = PaymentRunStatus.reconciled }

abbrev pub with_closed : ℕ → Db → Db
with_closed run_id db = record db {
  payment_runs = update_where (λ (r : PaymentRun). r.id == run_id) set_reconciled db.payment_runs;
}

-- The run closes when no planned line is left on it.
unfoldable pub close_if_done : ℕ → Tx PaymentRunStatus
close_if_done run_id = do
  remaining ← gets (λ db. count (planned_on run_id) db.payment_run_lines)
  if remaining == 0
      then (do modify (with_closed run_id); pure PaymentRunStatus.reconciled)
      else pure PaymentRunStatus.executed

unfoldable pub reconcile : ℕ → ℕ → Settlement → Tx PaymentRunStatus
reconcile run_id line_id status = do
  run ← or_throw (← gets (find_run run_id)) run_not_found
  throw_if (not (is_executed run.status)) (Error.conflict "Run is not executed")
  line ←
      or_throw (← gets (λ db. find? (λ (l : PaymentRunLine). l.id == line_id) db.payment_run_lines))
        (Error.not_found "Line is not on the run")
  throw_if (not (line.run_id == run_id)) (Error.not_found "Line is not on the run")
  decide_line line_id status
  settle status line.invoice_id
  close_if_done run_id
