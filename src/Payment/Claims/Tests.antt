-- ===== src/Payment/Claims/Tests.antt =====
-- A payment run from its plan to its last line.
use aipms.Prelude.{◌≡◌, ◌≤◌, true, List, [], ◌∷◌, count, All, arith}
use aipms.Database.{PaymentRunLine, is_line_paid}
use aipms.Database.Samples.{tables}
use aipms.Payment.Run.{Settlement}
use aipms.Payment.Claims.{Command, IsConsistent, holds, all_paid, run_commands}
use aipms.Payment.Claims.History.{paid_once, has_paid}

abbrev commands : List Command
commands =
    Command.create_run (30 ∷ []) 1
    ∷ Command.approve_run 100 2
    ∷ Command.execute_run 100 2
    ∷ Command.reconcile_line 100 101 Settlement.paid
    ∷ Command.create_run (30 ∷ []) 1
    ∷ []

tables-IsConsistent : IsConsistent tables
tables-IsConsistent = record {
  held_once = λ i. omega arith;
  paid_recorded = tt;
  invoice_ids = λ i. ground arith;
  line_ids = λ k. omega arith;
  ids_used = tt;
}

paid_once_example :
    let db' = run_commands commands tables in
    (count (holds db'.payment_runs 30) db'.payment_run_lines ≤ 1)
    × (count (has_paid 30) db'.payment_run_lines ≤ 1)
    × All
        (λ (l : PaymentRunLine).
          is_line_paid l.status ≡ true → all_paid db'.invoices l.invoice_id ≡ true)
        db'.payment_run_lines
paid_once_example = paid_once commands tables 30 tables-IsConsistent
