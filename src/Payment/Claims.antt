-- ===== src/Payment/Claims.antt =====
-- Reservations and payments of invoices over any sequence of commands to the payment runs.
pub mod NewLines
pub mod Plan
pub mod Settle
pub mod Invoices
pub mod Reconcile
pub mod History
mod Tests
use aipms.Prelude.{
  ℕ, ◌≤◌, ◌<◌, ◌≡◌, Bool, true, ◌&&◌, ◌||◌, not, List, [], ◌∷◌, Result, ok, err, count, all, All,
  ◌==◌,
}
use aipms.Prelude.Text.{Text}
use aipms.Database.{
  Db, Invoice, PaymentRun, PaymentRunLine, is_line_paid, is_planned, is_invoice_paid, Tx, ◌>>=◌,
  ◌>>◌, pure,
}
use aipms.Payment.Create.{reserves, create}
use aipms.Payment.Run.{Settlement, approve, execute, void_run, reconcile}

-- A line holds its invoice if it has paid it or reserves it.
unfoldable pub holds : List PaymentRun → ℕ → PaymentRunLine → Bool
holds runs invoice_id l = l.invoice_id == invoice_id && (is_line_paid l.status || reserves runs l)

-- Every row of the invoice is paid.
unfoldable pub all_paid : List Invoice → ℕ → Bool
all_paid invoices id = all (λ (i : Invoice). not (i.id == id) || is_invoice_paid i.status) invoices

-- What holds of the tables between two commands.
pub record IsConsistent (db : Db) : Type 0 where
  pub held_once : (i : ℕ) → count (holds db.payment_runs i) db.payment_run_lines ≤ 1
  pub paid_recorded :
      All
        (λ (l : PaymentRunLine).
          is_line_paid l.status ≡ true → all_paid db.invoices l.invoice_id ≡ true)
        db.payment_run_lines
  pub invoice_ids : (i : ℕ) → count (λ (v : Invoice). v.id == i) db.invoices ≤ 1
  pub line_ids : (k : ℕ) → count (λ (l : PaymentRunLine). l.id == k) db.payment_run_lines ≤ 1
  pub ids_used :
      All
        (λ (l : PaymentRunLine). (l.id < db.next_id) × (l.run_id < db.next_id))
        db.payment_run_lines

-- The commands that change payment runs; a void with the tables that its reads saw, which may be any.
pub data Command : Type 0 where
  create_run : List ℕ → ℕ → Command
  approve_run execute_run : ℕ → ℕ → Command
  void : Db → ℕ → ℕ → Text → Command
  reconcile_line : ℕ → ℕ → Settlement → Command

unfoldable pub run_command : Command → Tx (Unit {0})
run_command (Command.create_run ids who) = do run ← create ids who; pure tt
run_command (Command.approve_run id who) = do run ← approve id who; pure tt
run_command (Command.execute_run id who) = do run ← execute id who; pure tt
run_command (Command.void seen id who reason) = do run ← void_run seen id who reason; pure tt
run_command (Command.reconcile_line run_id line_id s) = do
  status ← reconcile run_id line_id s
  pure tt

-- A command that throws leaves the tables as they are.
abbrev pub kept : Db → Result (Unit {0} × Db) → Db
kept db (ok (_, db')) = db'
kept db (err _) = db

unfoldable pub run_commands : List Command → Db → Db
run_commands [] db = db
run_commands (c ∷ cs) db = run_commands cs (kept db (run_command c db))
