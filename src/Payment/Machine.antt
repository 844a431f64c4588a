-- ===== src/Payment/Machine.antt =====
-- A payment run as an abstract machine: the steps that a run may take, and that the service takes no others;
-- apps/api/src/payment-run/payment-run.service.ts.
pub mod Refines
pub mod Progress
pub mod Closes
mod Tests
use aipms.Prelude.{
  ℕ, ◌≡◌, ◌≢◌, refl, sym, subst, ◌∙◌, Bool, true, false, ◌⊎◌, inl, inr, Option, none, some, arith,
}
use aipms.Prelude.Text.{Text, trim}
use aipms.Database.{PaymentRun, PaymentRunStatus, is_voided}
use aipms.Payment.Beneficiary.{is_empty}
use aipms.Payment.Run.{is_open, set_approved, set_executed, set_voided, set_reconciled}

-- One step, with what it asks: a draft is approved by another than its maker, an approved run is executed, an open
-- run is voided, an executed run is closed.
pub data Step : PaymentRun → PaymentRun → Type 0 where
  approves :
      (r : PaymentRun) (who : ℕ)
      → r.status ≡ PaymentRunStatus.draft
      → r.created_by ≢ who
      → Step r (set_approved who r)
  executes :
      (r : PaymentRun) (who : ℕ)
      → r.status ≡ PaymentRunStatus.approved
      → Step r (set_executed who r)
  voids :
      (r : PaymentRun) (who : ℕ) (reason : Text)
      → is_open r.status ≡ true
      → Step r (set_voided who reason r)
  closes : (r : PaymentRun) → r.status ≡ PaymentRunStatus.executed → Step r (set_reconciled r)

pub data Steps : PaymentRun → PaymentRun → Type 0 where
  done : (r : PaymentRun) → Steps r r
  next : {r s t : PaymentRun} → Step r s → Steps s t → Steps r t

pub Steps_trans : {r s t : PaymentRun} → Steps r s → Steps s t → Steps r t
Steps_trans (Steps.done r) more = more
Steps_trans (Steps.next step rest) more = Steps.next step (Steps_trans rest more)

-- The statuses that no step leaves.
abbrev pub is_final : PaymentRunStatus → Bool
is_final PaymentRunStatus.voided = true
is_final PaymentRunStatus.reconciled = true
is_final _ = false

Step-not_final : {r s : PaymentRun} → Step r s → is_final r.status ≡ false
Step-not_final (Step.approves r who draft other) = rw draft refl
Step-not_final (Step.executes r who approved) = rw approved refl
Step-not_final (Step.voids r who reason still) = ground arith
Step-not_final (Step.closes r executed) = rw executed refl

pub Steps-final : {r s : PaymentRun} → Steps r s → is_final r.status ≡ true → s ≡ r
Steps-final (Steps.done r) final = refl
Steps-final (Steps.next step rest) final = let moves = Step-not_final step in absurd (ground arith)

-- Whoever has approved a run that is past its approval is not its maker.
abbrev pub past_approval : PaymentRunStatus → Bool
past_approval PaymentRunStatus.approved = true
past_approval PaymentRunStatus.executed = true
past_approval PaymentRunStatus.reconciled = true
past_approval _ = false

abbrev pub IsChecked : PaymentRun → Type 0
IsChecked r =
    past_approval r.status ≡ true → (who : ℕ) × (r.approved_by ≡ some who) × (r.created_by ≢ who)

Step-IsChecked : {r s : PaymentRun} → Step r s → IsChecked r → IsChecked s
Step-IsChecked (Step.approves r who draft other) checked past = (who, refl, other)
Step-IsChecked (Step.executes r who approved) checked past = checked (rw approved refl)
Step-IsChecked (Step.voids r who reason still) checked past = absurd (ground arith)
Step-IsChecked (Step.closes r executed) checked past = checked (rw executed refl)

pub Steps-IsChecked : {r s : PaymentRun} → Steps r s → IsChecked r → IsChecked s
Steps-IsChecked (Steps.done r) checked = checked
Steps-IsChecked (Steps.next step rest) checked = Steps-IsChecked rest (Step-IsChecked step checked)
