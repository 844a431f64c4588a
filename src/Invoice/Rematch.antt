-- ===== src/Invoice/Rematch.antt =====
-- The matches that are made again when goods arrive or a correction takes cover away, and the test
-- that a correction is allowed; apps/api/src/invoice/invoice.service.ts.
use aipms.Prelude.{
  ℕ, ◌+◌, Bool, true, false, ◌&&◌, ◌||◌, Option, none, some, List, [], ◌∷◌, map, Error, filter, any,
  length, update_where, is_ref, ltb, ◌==◌, if◌then◌else◌,
}
use aipms.Database.{
  Db, Invoice, InvoiceStatus, MatchOutcome, MatchResult, PaymentRunLine, is_invoice_paid,
  is_matched, is_line_paid, Tx, ◌>>=◌, ◌>>◌, pure, gets, modify, throw_if,
}
use aipms.Payment.Create.{mem, reserves}
use aipms.Invoice.Match.{MatchInput, match_against_po}
use aipms.Invoice.Register.{status_for, emit_status_events}

-- A sort by insertion, which keeps the order of what the test does not separate.
unfoldable pub insert_by : (Invoice → Invoice → Bool) → Invoice → List Invoice → List Invoice
insert_by before i [] = i ∷ []
insert_by before i (j ∷ js) = if before j i then j ∷ insert_by before i js else i ∷ j ∷ js

unfoldable pub sort_by : (Invoice → Invoice → Bool) → List Invoice → List Invoice
sort_by before [] = []
sort_by before (i ∷ is) = insert_by before i (sort_by before is)

abbrev pub by_received : Invoice → Invoice → Bool
by_received a b = ltb a.received_at b.received_at

abbrev pub by_received_and_id : Invoice → Invoice → Bool
by_received_and_id a b =
    ltb a.received_at b.received_at || a.received_at == b.received_at && ltb a.id b.id

abbrev pub is_shortfall : Option MatchResult → Bool
is_shortfall none = false
is_shortfall (some result) = elim result.outcome [
  | MatchOutcome.receipt_shortfall ↦ true
  | _ ↦ false
]

abbrev pub waits : Invoice → Bool
waits i = elim i.status [
  | InvoiceStatus.received ↦ true
  | InvoiceStatus.exception ↦ is_shortfall i.match_result
  | _ ↦ false
]

abbrev pub was_partial : Option MatchResult → Bool
was_partial none = false
was_partial (some result) = result.is_partial

abbrev pub match_input : ℕ → Invoice → MatchInput
match_input po_id i = record {
  po_id = po_id;
  vendor_id = i.vendor_id;
  total_minor = i.amount_minor;
  currency_code = i.currency_code;
  allow_partial = was_partial i.match_result;
}

abbrev pub set_match : InvoiceStatus → MatchResult → Invoice → Invoice
set_match status result i = record i { status = status; match_result = some result }

abbrev pub set_match_result : MatchResult → Invoice → Invoice
set_match_result result i = record i { match_result = some result }

abbrev pub is_matched_outcome : MatchOutcome → Bool
is_matched_outcome MatchOutcome.matched = true
is_matched_outcome _ = false

-- `invoice.update({ where: { id }, data })`
abbrev pub update_invoice : ℕ → (Invoice → Invoice) → Db → Db
update_invoice id f db = record db {
  invoices = update_where (λ (i : Invoice). i.id == id) f db.invoices;
}

pub record RematchSummary : Type 0 where
  pub considered : ℕ
  pub matched : ℕ
  pub still_waiting : ℕ
  pub exceptions : ℕ

abbrev pub counted : InvoiceStatus → RematchSummary → RematchSummary
counted InvoiceStatus.matched s = record s { matched = s.matched + 1 }
counted InvoiceStatus.exception s = record s { exceptions = s.exceptions + 1 }
counted _ s = record s { still_waiting = s.still_waiting + 1 }

pub record ReevaluateSummary : Type 0 where
  pub considered : ℕ
  pub kept : ℕ
  pub demoted : ℕ

-- `assertPoCorrectionAllowed`: no invoice of the order is paid, or held by a payment line.
unfoldable pub assert_po_correction_allowed : ℕ → Tx (List Invoice)
assert_po_correction_allowed po_id = do
  invoices ← gets (λ db.
      sort_by by_received_and_id (filter (λ (i : Invoice). is_ref po_id i.po_id) db.invoices))
  throw_if (any (λ (i : Invoice). is_invoice_paid i.status) invoices)
      (Error.conflict "Invoice is paid; a return or refund workflow is required")
  claimed ← gets (λ db.
      any
        (λ (l : PaymentRunLine).
          mem l.invoice_id (map (λ (i : Invoice). i.id) invoices)
          && (is_line_paid l.status || reserves db.payment_runs l))
        db.payment_run_lines)
  throw_if claimed (Error.conflict "Invoice is claimed by a payment run")
  pure invoices

module _ (ratio_bps : ℕ → ℕ → ℕ) where
  unfoldable pub rematch_one : ℕ → Invoice → Tx InvoiceStatus
  rematch_one po_id i = do
    result ← gets (match_against_po ratio_bps (match_input po_id i) none)
    modify (update_invoice i.id (set_match (status_for result.outcome) result))
    emit_status_events i.id (status_for result.outcome)
    pure (status_for result.outcome)

  unfoldable pub rematch_loop : ℕ → List Invoice → RematchSummary → Tx RematchSummary
  rematch_loop po_id [] summary = pure summary
  rematch_loop po_id (i ∷ rest) summary =
      rematch_one po_id i >>= λ status. rematch_loop po_id rest (counted status summary)

  -- `rematchOpenForPo`
  unfoldable pub rematch_open_for_po : ℕ → Tx RematchSummary
  rematch_open_for_po po_id = do
    waiting ← gets (λ db.
        sort_by by_received (filter (λ (i : Invoice). is_ref po_id i.po_id && waits i) db.invoices))
    rematch_loop po_id waiting
        (record { considered = length waiting; matched = 0; still_waiting = 0; exceptions = 0 })

  unfoldable pub keep_or_demote : Invoice → MatchResult → ReevaluateSummary → Tx ReevaluateSummary
  keep_or_demote i result summary =
      if is_matched_outcome result.outcome
      then (do
        modify (update_invoice i.id (set_match_result result))
        pure (record summary { kept = summary.kept + 1 }))
      else (do
        modify (update_invoice i.id (set_match (status_for result.outcome) result))
        emit_status_events i.id (status_for result.outcome)
        pure (record summary { demoted = summary.demoted + 1 }))

  unfoldable pub reevaluate_one : ℕ → Invoice → ReevaluateSummary → Tx ReevaluateSummary
  reevaluate_one po_id i summary = do
    result ← gets (match_against_po ratio_bps (match_input po_id i) (some i.id))
    keep_or_demote i result summary

  unfoldable pub reevaluate_loop : ℕ → List Invoice → ReevaluateSummary → Tx ReevaluateSummary
  reevaluate_loop po_id [] summary = pure summary
  reevaluate_loop po_id (i ∷ rest) summary =
      reevaluate_one po_id i summary >>= λ next. reevaluate_loop po_id rest next

  -- `reevaluateMatchedForPo`
  unfoldable pub reevaluate_matched_for_po : ℕ → Tx ReevaluateSummary
  reevaluate_matched_for_po po_id = do
    invoices ← assert_po_correction_allowed po_id
    let matched = filter (λ (i : Invoice). is_matched i.status) invoices
    reevaluate_loop po_id matched (record { considered = length matched; kept = 0; demoted = 0 })
