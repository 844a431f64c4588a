-- ===== src/Payment/Claims/Settle.antt =====
-- The steps of a run after its plan keep the tables consistent.
use aipms.Prelude.{
  ℕ, ◌≡◌, refl, Bool, true, false, not, ◌&&◌, List, arith, update_where, All-of, ◌==◌, ok,
}
use aipms.Prelude.Text.{Text}
use aipms.Prelude.Rows.{count-imp, any-update_where-imp}
use aipms.Database.{Db, PaymentRun, PaymentRunLine, is_voided}
use aipms.Payment.Create.{reserves, on_live_run}
use aipms.Payment.Run.{
  approve, execute, void_run, approvable, set_approved, executable, set_executed, voidable,
  set_voided,
}
use aipms.Payment.Claims.{holds, IsConsistent}

pub holds-imp :
    (runs runs' : List PaymentRun) (i : ℕ) (l : PaymentRunLine)
    → (on_live_run runs' l.run_id ≡ true → on_live_run runs l.run_id ≡ true)
    → holds runs' i l ≡ true
    → holds runs i l ≡ true
unfolding holds reserves
holds-imp runs runs' i l h e = ground arith

-- Tables that differ in the runs alone, where no run has come to life.
pub with_runs-IsConsistent :
    (db : Db) (runs : List PaymentRun)
    → ((k : ℕ) → on_live_run runs k ≡ true → on_live_run db.payment_runs k ≡ true)
    → IsConsistent db
    → IsConsistent (record db { payment_runs = runs })
with_runs-IsConsistent db runs h c = record {
  held_once = λ i. omega (
    arith,
    count-imp (holds db.payment_runs i) (holds runs i) db.payment_run_lines
        (All-of (λ l. holds-imp db.payment_runs runs i l (h l.run_id)) db.payment_run_lines),
    c.held_once i,
  );
  paid_recorded = c.paid_recorded;
  invoice_ids = c.invoice_ids;
  line_ids = c.line_ids;
  ids_used = c.ids_used;
}

-- An update of open runs that gives no voided run life.
update_runs-IsConsistent :
    (db : Db) (test : PaymentRun → Bool) (f : PaymentRun → PaymentRun)
    → ((r : PaymentRun) → ((f r).id ≡ r.id) × (test r ≡ true → is_voided r.status ≡ false))
    → IsConsistent db
    → IsConsistent (record db { payment_runs = update_where test f db.payment_runs })
unfolding on_live_run
update_runs-IsConsistent db test f h c =
    with_runs-IsConsistent db (update_where test f db.payment_runs)
      (λ k.
        any-update_where-imp test (λ r. r.id == k && not (is_voided r.status)) f db.payment_runs
          (λ r t e. let (same, alive) = h r in ground (arith, alive t)))
      c

pub approve-commit :
    (id who : ℕ) (db db' : Db) (r : PaymentRun)
    → approve id who db ≡ ok (r, db')
    → db' ≡ record db {
      payment_runs = update_where (approvable id who) (set_approved who) db.payment_runs;
    }
unfolding approve
approve-commit id who db db' r h = ground arith

pub execute-commit :
    (id who : ℕ) (db db' : Db) (r : PaymentRun)
    → execute id who db ≡ ok (r, db')
    → db'
      ≡ record db { payment_runs = update_where (executable id) (set_executed who) db.payment_runs }
unfolding execute
execute-commit id who db db' r h = ground arith

pub void_run-commit :
    (seen : Db) (id who : ℕ) (reason : Text) (db db' : Db) (r : PaymentRun)
    → void_run seen id who reason db ≡ ok (r, db')
    → db' ≡ record db {
      payment_runs = update_where (voidable id) (set_voided who reason) db.payment_runs;
    }
unfolding void_run
void_run-commit seen id who reason db db' r h = ground arith

pub approve-IsConsistent :
    (id who : ℕ) (db db' : Db) (r : PaymentRun)
    → approve id who db ≡ ok (r, db')
    → IsConsistent db
    → IsConsistent db'
approve-IsConsistent id who db db' r h c = rw (approve-commit id who db db' r h) (
    update_runs-IsConsistent db (approvable id who) (set_approved who)
      (λ r'. (refl, λ t. ground arith)) c)

pub execute-IsConsistent :
    (id who : ℕ) (db db' : Db) (r : PaymentRun)
    → execute id who db ≡ ok (r, db')
    → IsConsistent db
    → IsConsistent db'
execute-IsConsistent id who db db' r h c = rw (execute-commit id who db db' r h) (
    update_runs-IsConsistent db (executable id) (set_executed who) (λ r'. (refl, λ t. ground arith))
      c)

pub void_run-IsConsistent :
    (seen : Db) (id who : ℕ) (reason : Text) (db db' : Db) (r : PaymentRun)
    → void_run seen id who reason db ≡ ok (r, db')
    → IsConsistent db
    → IsConsistent db'
void_run-IsConsistent seen id who reason db db' r h c =
    rw (void_run-commit seen id who reason db db' r h) (
      update_runs-IsConsistent db (voidable id) (set_voided who reason)
        (λ r'. (refl, λ t. ground arith)) c)
