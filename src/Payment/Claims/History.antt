-- ===== src/Payment/Claims/History.antt =====
-- Any sequence of commands keeps the tables consistent: an invoice is paid at most once.
use aipms.Prelude.{
  ℕ, ◌≤◌, ◌≡◌, Bool, true, ◌&&◌, List, [], ◌∷◌, inl, inr, arith, Result-cases, count, All, All-of,
  ◌==◌,
}
use aipms.Prelude.Rows.{count-imp}
use aipms.Database.{Db, PaymentRunLine, is_line_paid}
use aipms.Payment.Create.{create}
use aipms.Payment.Run.{approve, execute, void_run, reconcile}
use aipms.Payment.Claims.{holds, all_paid, IsConsistent, Command, run_command, run_commands, kept}
use aipms.Payment.Claims.Plan.{create-IsConsistent}
use aipms.Payment.Claims.Settle.{approve-IsConsistent, execute-IsConsistent, void_run-IsConsistent}
use aipms.Payment.Claims.Reconcile.{reconcile-IsConsistent}

-- Every command, whether it goes through or throws, leaves consistent tables consistent.
pub run_command-IsConsistent :
    (command : Command) (db : Db)
    → IsConsistent db
    → IsConsistent (kept db (run_command command db))
unfolding run_command
run_command-IsConsistent (Command.create_run ids who) db c =
    elim (Result-cases (create ids who db)) [
      | inl (e, failed) ↦ rw (failed, kept) c
      | inr ((run, db'), done) ↦ rw (done, kept) (create-IsConsistent ids who db db' run done c)
    ]
run_command-IsConsistent (Command.approve_run id who) db c =
    elim (Result-cases (approve id who db)) [
      | inl (e, failed) ↦ rw (failed, kept) c
      | inr ((run, db'), done) ↦ rw (done, kept) (approve-IsConsistent id who db db' run done c)
    ]
run_command-IsConsistent (Command.execute_run id who) db c =
    elim (Result-cases (execute id who db)) [
      | inl (e, failed) ↦ rw (failed, kept) c
      | inr ((run, db'), done) ↦ rw (done, kept) (execute-IsConsistent id who db db' run done c)
    ]
run_command-IsConsistent (Command.void seen id who reason) db c =
    elim (Result-cases (void_run seen id who reason db)) [
      | inl (e, failed) ↦ rw (failed, kept) c
      | inr ((run, db'), done) ↦
          rw (done, kept) (void_run-IsConsistent seen id who reason db db' run done c)
    ]
run_command-IsConsistent (Command.reconcile_line run_id line_id s) db c =
    elim (Result-cases (reconcile run_id line_id s db)) [
      | inl (e, failed) ↦ rw (failed, kept) c
      | inr ((st, db'), done) ↦
          rw (done, kept) (reconcile-IsConsistent run_id line_id s db db' st done c)
    ]

run_commands-IsConsistent :
    (commands : List Command) (db : Db) → IsConsistent db → IsConsistent (run_commands commands db)
unfolding run_commands
run_commands-IsConsistent [] db c = c
run_commands-IsConsistent (command ∷ commands) db c =
    run_commands-IsConsistent commands (kept db (run_command command db))
      (run_command-IsConsistent command db c)

abbrev pub has_paid : ℕ → PaymentRunLine → Bool
has_paid invoice_id l = l.invoice_id == invoice_id && is_line_paid l.status

-- After any sequence of commands to the payment runs, from consistent tables, each invoice has at
-- most one line that has paid it or reserves it, at most one line that has paid it, and every row
-- of an invoice that a line has paid is marked as paid.
pub paid_once :
    (commands : List Command) (db : Db) (invoice_id : ℕ)
    → IsConsistent db
    → let db' = run_commands commands db in
      (count (holds db'.payment_runs invoice_id) db'.payment_run_lines ≤ 1)
      × (count (has_paid invoice_id) db'.payment_run_lines ≤ 1)
      × All
          (λ (l : PaymentRunLine).
            is_line_paid l.status ≡ true → all_paid db'.invoices l.invoice_id ≡ true)
          db'.payment_run_lines
paid_once commands db i c =
    let k = run_commands-IsConsistent commands db c in
    (
      k.held_once i,
      omega (
        arith,
        count-imp (holds (run_commands commands db).payment_runs i) (has_paid i)
            (run_commands commands db).payment_run_lines
            (All-of (λ l h. paid-holds (run_commands commands db) i l h)
              (run_commands commands db).payment_run_lines),
        k.held_once i,
      ),
      k.paid_recorded,
    )
  where
    paid-holds :
        (d : Db) (j : ℕ) (l : PaymentRunLine)
        → has_paid j l ≡ true
        → holds d.payment_runs j l ≡ true
    paid-holds d j l h = unfold holds in (ground arith)
