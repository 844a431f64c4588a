-- ===== src/Invoice/Register.antt =====
-- `register` of `InvoiceService`, apps/api/src/invoice/invoice.service.ts, with the statuses that a
-- match leads to. What `PolicyService.taxConfig` answers is an argument.
use aipms.Prelude.{
  ℕ, suc, Bool, ◌&&◌, Option, none, some, List, [], ◌∷◌, ◌++◌, Result, ok, find?, ◌==◌, or_else,
}
use aipms.Prelude.Int.{ℤ}
use aipms.Prelude.Text.{Text, text_eq, units}
use aipms.Money.{assert_database_int}
use aipms.Tax.{TaxLine, TaxPolicyConfig, TaxComputation, compute_tax}
use aipms.Database.{
  Db, Invoice, InvoiceStatus, MatchOutcome, MatchResult, EventType, Tx, ◌>>=◌, ◌>>◌, pure, lift,
  gets, emit,
}
use aipms.Invoice.Match.{match_against_po}

pub record RegisterInvoiceInput : Type 0 where
  pub vendor_id : ℕ
  pub number : Text
  pub po_id : Option ℕ
  pub currency_code : Option Text
  pub lines : List TaxLine
  pub received_at : Option ℕ
  pub allow_partial : Bool

-- `assertPersistableComputation`
unfoldable pub assert_persistable_computation : TaxComputation → Tx (Unit {0})
assert_persistable_computation c = do
  gross ← lift (assert_database_int c.gross_minor)
  vat ← lift (assert_database_int c.vat_minor)
  ewt ← lift (assert_database_int c.ewt_minor)
  net ← lift (assert_database_int c.net_payable_minor)
  pure tt

-- `statusFor`
unfoldable pub status_for : MatchOutcome → InvoiceStatus
status_for MatchOutcome.matched = InvoiceStatus.matched
status_for MatchOutcome.awaiting_receipt = InvoiceStatus.received
status_for _ = InvoiceStatus.exception

abbrev pub status_of : Option MatchResult → InvoiceStatus
status_of none = InvoiceStatus.received
status_of (some result) = status_for result.outcome

unfoldable pub emit_status_events : ℕ → InvoiceStatus → Tx (Unit {0})
emit_status_events id InvoiceStatus.matched = emit EventType.invoice_matched id
emit_status_events id InvoiceStatus.exception = emit EventType.invoice_exception id
emit_status_events id _ = pure tt

abbrev pub is_same_invoice : RegisterInvoiceInput → Invoice → Bool
is_same_invoice input i = i.vendor_id == input.vendor_id && text_eq i.number input.number

module _ (ratio_bps : ℕ → ℕ → ℕ) where
  abbrev pub registered_match_for : Option ℕ → RegisterInvoiceInput → ℤ → Db → Option MatchResult
  registered_match_for none input gross db = none
  registered_match_for (some po_id) input gross db = some (
      match_against_po ratio_bps
        (record {
          po_id = po_id;
          vendor_id = input.vendor_id;
          total_minor = gross;
          currency_code = or_else input.currency_code (units "PHP");
          allow_partial = input.allow_partial;
        })
        none db)

  -- An invoice for no order is not matched.
  abbrev pub registered_match : RegisterInvoiceInput → ℤ → Db → Option MatchResult
  registered_match input gross db = registered_match_for input.po_id input gross db

  abbrev pub new_invoice :
      RegisterInvoiceInput → TaxComputation → ℕ → ℕ → Option MatchResult → Invoice
  new_invoice input c now id result = record {
    id = id;
    po_id = input.po_id;
    vendor_id = input.vendor_id;
    number = input.number;
    amount_minor = c.gross_minor;
    vat_minor = c.vat_minor;
    ewt_minor = c.ewt_minor;
    currency_code = or_else input.currency_code (units "PHP");
    received_at = or_else input.received_at now;
    status = status_of result;
    match_result = result;
  }

  -- `invoice.create`
  unfoldable pub insert_invoice :
      RegisterInvoiceInput → TaxComputation → ℕ → Option MatchResult → Tx Invoice
  insert_invoice input c now result db = ok (
    new_invoice input c now db.next_id result,
    record db {
      invoices = db.invoices ++ new_invoice input c now db.next_id result ∷ [];
      next_id = suc db.next_id;
    },
  )

  -- A new invoice with its match and its events.
  unfoldable pub register_new :
      RegisterInvoiceInput → TaxComputation → ℕ → Tx (Invoice × Option MatchResult)
  register_new input c now = do
    result ← gets (registered_match input c.gross_minor)
    invoice ← insert_invoice input c now result
    emit EventType.invoice_received invoice.id
    emit_status_events invoice.id (status_of result)
    pure (invoice, result)

  unfoldable pub register :
      Result TaxPolicyConfig → RegisterInvoiceInput → ℕ → Tx (Invoice × Option MatchResult)
  register tax input now = do
    tax_config ← lift tax
    assert_persistable_computation (compute_tax input.lines tax_config)
    duplicate ← gets (λ db. find? (is_same_invoice input) db.invoices)
    elim duplicate [
      | some invoice ↦ pure (invoice, invoice.match_result)
      | none ↦ register_new input (compute_tax input.lines tax_config) now
    ]
