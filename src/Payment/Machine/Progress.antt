-- ===== src/Payment/Machine/Progress.antt =====
-- An executed run gets done: each reconciliation that goes through decides one planned line, and as many as there are
-- planned lines close the run; apps/api/src/payment-run/payment-run.service.ts.
use aipms.Prelude.{
  ℕ, suc, ◌+◌, ◌≡◌, refl, ap, ◌∙◌, Bool, true, false, List, [], ◌∷◌, arith, ok, count, update_where,
  ◌==◌, ==-refl, if◌then◌else◌, All, All-imp,
}
use aipms.Prelude.Rows.{find?-only}
use aipms.Database.{Db, PaymentRunLine, PaymentRunStatus}
use aipms.Payment.Settlement.{settle_paid_invoice, charge}
use aipms.Payment.Run.{
  Settlement, reconcile, settle, set_line, decidable_line, with_closed, with_decision, planned_on,
  decide_line, close_if_done,
}
use aipms.Payment.Claims.{IsConsistent}
use aipms.Payment.Claims.Reconcile.{reconcile-Reconciled}

-- The rows that an update takes out of a test.
count-update_where :
    (p q : PaymentRunLine → Bool) (f : PaymentRunLine → PaymentRunLine) (xs : List PaymentRunLine)
    → All (λ x. p x ≡ true → q x ≡ true) xs
    → ((x : PaymentRunLine) → q (f x) ≡ false)
    → count q (update_where p f xs) + count p xs ≡ count q xs
count-update_where p q f [] h out = refl
count-update_where p q f (x ∷ xs) h out =
    let k = h.0 in let fails = out x in ground (arith, count-update_where p q f xs h.1 out)

pub settle-lines :
    (s : Settlement) (id : ℕ) (db db' : Db)
    → settle s id db ≡ ok (tt, db')
    → db'.payment_run_lines ≡ db.payment_run_lines
unfolding settle settle_paid_invoice charge
settle-lines s id db db' h = ground arith

reconcile-one :
    (run_id line_id : ℕ) (s : Settlement) (db db' : Db) (st : PaymentRunStatus)
    → reconcile run_id line_id s db ≡ ok (st, db')
    → count (decidable_line line_id) db.payment_run_lines ≡ 1
unfolding reconcile decide_line
reconcile-one run_id line_id s db db' st h = ground arith

reconcile-status :
    (run_id line_id : ℕ) (s : Settlement) (db db' : Db) (st : PaymentRunStatus)
    → reconcile run_id line_id s db ≡ ok (st, db')
    → st ≡ (
        if count (planned_on run_id) db'.payment_run_lines == 0
        then PaymentRunStatus.reconciled
        else PaymentRunStatus.executed)
unfolding reconcile close_if_done
reconcile-status run_id line_id s db db' st h = ground arith

pub closed-lines :
    (run_id : ℕ) (is_closed : Bool) (settled db' : Db)
    → db' ≡ (if is_closed then with_closed run_id settled else settled)
    → db'.payment_run_lines ≡ settled.payment_run_lines
closed-lines run_id true settled db' written = ap (λ (d : Db). d.payment_run_lines) written
closed-lines run_id false settled db' written = ap (λ (d : Db). d.payment_run_lines) written

set_line-decided :
    (run_id : ℕ) (s : Settlement) (x : PaymentRunLine) → planned_on run_id (set_line s x) ≡ false
set_line-decided run_id s x = ground arith

-- The line that is decided is a planned one of the run.
decidable_line-planned :
    (run_id line_id : ℕ) (x line : PaymentRunLine)
    → ((x.id == line_id) ≡ true → x ≡ line)
    → line.run_id ≡ run_id
    → decidable_line line_id x ≡ true
    → planned_on run_id x ≡ true
decidable_line-planned run_id line_id x line only on_run hit =
    let e : x ≡ line = only (ground arith) in
    let own : x.run_id ≡ run_id = ap (λ (l : PaymentRunLine). l.run_id) e ∙ on_run in
    ground (arith, ==-refl run_id)

-- From consistent tables, a reconciliation that goes through leaves exactly one planned line less
-- on the run, and gives the run as reconciled when none is left and as executed otherwise.
pub reconcile_progress :
    (run_id line_id : ℕ) (s : Settlement) (db db' : Db) (st : PaymentRunStatus)
    → IsConsistent db
    → reconcile run_id line_id s db ≡ ok (st, db')
    → (suc (count (planned_on run_id) db'.payment_run_lines)
        ≡ count (planned_on run_id) db.payment_run_lines)
      × (st ≡ (
          if count (planned_on run_id) db'.payment_run_lines == 0
          then PaymentRunStatus.reconciled
          else PaymentRunStatus.executed))
reconcile_progress run_id line_id s db db' st c h =
    let (run, line, settled, found, executed, on_file, on_run, paid, written) =
      reconcile-Reconciled run_id line_id s db db' st h in
    let only =
      find?-only (λ (l : PaymentRunLine). l.id == line_id) db.payment_run_lines line
        (c.line_ids line_id) on_file in
    let lines : db'.payment_run_lines
        ≡ update_where (decidable_line line_id) (set_line s) db.payment_run_lines =
      closed-lines run_id (count (planned_on run_id) settled.payment_run_lines == 0) settled db'
        written
      ∙ settle-lines s line.invoice_id (with_decision line_id s db) settled paid in
    let decided =
      count-update_where (decidable_line line_id) (planned_on run_id) (set_line s)
        db.payment_run_lines
        (All-imp {Q = λ x. decidable_line line_id x ≡ true → planned_on run_id x ≡ true}
          (λ x one hit. decidable_line-planned run_id line_id x line one on_run hit)
          db.payment_run_lines only)
        (λ x. set_line-decided run_id s x) in
    let one = reconcile-one run_id line_id s db db' st h in
    (rw lines (omega (arith, decided, one)), reconcile-status run_id line_id s db db' st h)
