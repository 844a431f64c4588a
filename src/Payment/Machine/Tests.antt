-- ===== src/Payment/Machine/Tests.antt =====
-- The machine on sample tables.
use aipms.Prelude.{
  ℕ, suc, ◌≡◌, refl, true, some, List, [], ◌∷◌, ok, count, length, arith, ◌==◌, if◌then◌else◌,
}
use aipms.Prelude.Int.{pos}
use aipms.Prelude.Text.{units}
use aipms.Database.{Db, PaymentRun, PaymentRunLine, PaymentRunStatus, PaymentStatus}
use aipms.Database.Samples.{run, snapshot, with_runs}
use aipms.Invoice.Samples.{is_ok, went_through}
use aipms.Payment.Run.{Settlement, find_run, reconcile, planned_on, set_reconciled}
use aipms.Payment.Claims.{Command, IsConsistent, run_commands}
use aipms.Payment.Machine.{Steps, IsChecked}
use aipms.Payment.Machine.Refines.{run_commands-Steps, run_commands-IsChecked}
use aipms.Payment.Machine.Progress.{reconcile_progress}
use aipms.Payment.Machine.Closes.{executed_closes}

abbrev drafted : PaymentRun
drafted = run 40 PaymentRunStatus.draft

abbrev voided : PaymentRun
voided = run 40 PaymentRunStatus.voided

abbrev executed : PaymentRun
executed = run 40 PaymentRunStatus.executed

abbrev commands : List Command
commands =
    Command.approve_run 40 1
    ∷ Command.approve_run 40 2
    ∷ Command.execute_run 40 1
    ∷ Command.void (with_runs (drafted ∷ [])) 40 2 (units "late")
    ∷ []

run_commands-Steps_example :
    (s : PaymentRun) × (find_run 40 (run_commands commands (with_runs (drafted ∷ []))) ≡ some s)
    × Steps drafted s
run_commands-Steps_example = run_commands-Steps 40 commands (with_runs (drafted ∷ [])) drafted refl

drafted-IsChecked : IsChecked drafted
drafted-IsChecked past = absurd (ground arith)

run_commands-IsChecked_example :
    (s : PaymentRun) × (find_run 40 (run_commands commands (with_runs (drafted ∷ []))) ≡ some s)
    × IsChecked s
run_commands-IsChecked_example =
    run_commands-IsChecked 40 commands (with_runs (drafted ∷ [])) drafted refl drafted-IsChecked

abbrev line : ℕ → ℕ → PaymentRunLine
line id invoice_id = record {
  id = id;
  run_id = 40;
  invoice_id = invoice_id;
  beneficiary_snapshot = snapshot;
  net_minor = pos 1110;
  status = PaymentStatus.planned;
}

abbrev settling : Db
settling = record (with_runs (executed ∷ [])) { payment_run_lines = line 41 30 ∷ line 42 31 ∷ [] }

settling-IsConsistent : IsConsistent settling
unfolding aipms.Payment.Claims.holds
settling-IsConsistent = record {
  held_once = λ i. ground arith;
  paid_recorded = (λ h. ground arith, (λ h. ground arith, tt));
  invoice_ids = λ i. ground arith;
  line_ids = λ k. ground arith;
  ids_used = ((omega arith, omega arith), ((omega arith, omega arith), tt));
}

reconciles : is_ok (reconcile 40 41 Settlement.paid settling) ≡ true
unfolding reconcile aipms.Payment.Run.decide_line aipms.Payment.Run.settle
    aipms.Payment.Settlement.settle_paid_invoice aipms.Payment.Run.close_if_done
    aipms.Payment.Settlement.charge aipms.Payment.Settlement.charged_budget
reconciles = refl

abbrev reconciled :
    (st : PaymentRunStatus) × (db : Db) × (reconcile 40 41 Settlement.paid settling ≡ ok (st, db))
reconciled = went_through (reconcile 40 41 Settlement.paid settling) reconciles

reconcile_progress_example :
    (suc (count (planned_on 40) (reconciled.1).payment_run_lines)
      ≡ count (planned_on 40) settling.payment_run_lines)
    × (reconciled.0 ≡ (
        if count (planned_on 40) (reconciled.1).payment_run_lines == 0
        then PaymentRunStatus.reconciled
        else PaymentRunStatus.executed))
reconcile_progress_example =
    reconcile_progress 40 41 Settlement.paid settling reconciled.1 reconciled.0
      settling-IsConsistent reconciled.2

executed_closes_example :
    (closing : List Command) × (length closing ≡ count (planned_on 40) settling.payment_run_lines)
    × (find_run 40 (run_commands closing settling) ≡ some (set_reconciled executed))
executed_closes_example =
    executed_closes 40 settling executed settling-IsConsistent refl refl (omega arith)
