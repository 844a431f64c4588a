-- ===== src/Invoice/Match.antt =====
-- The three-way match of an invoice with its order and the order's receipts, `matchAgainstPo` of
-- apps/api/src/invoice/invoice.service.ts. The rounded ratio of two amounts in basis points,
-- `Math.round((a / b) * 10_000)` in floating point, is a parameter.
pub mod Laws
pub mod Nearest
use aipms.Prelude.{
  ℕ, ◌+◌, ◌*◌, Bool, true, false, not, ◌&&◌, ◌||◌, Option, none, some, List, [], ◌∷◌, ◌++◌, filter,
  find?, ◌==◌, is_some, is_ref, ltb, leb, if◌then◌else◌,
}
use aipms.Prelude.Int.{ℤ, pos, pos_part, neg_part, ◌+ℤ◌, ◌-ℤ◌, ◌*ℤ◌, leb_ℤ, ltb_ℤ, eqb_ℤ, sum_of}
use aipms.Prelude.Text.{Text, text_eq, units}
use aipms.Database.{
  Db, PurchaseOrder, OrderLine, Receipt, ReceiptLine, Invoice, Terms, MatchOutcome, MatchResult,
  InvoiceStatus, is_live, is_recorded,
}

abbrev pub match_tolerance_bps : ℕ
match_tolerance_bps = 500

pub record MatchInput : Type 0 where
  pub po_id : ℕ
  pub vendor_id : ℕ
  pub total_minor : ℤ
  pub currency_code : Text
  pub allow_partial : Bool

-- The magnitude of an integer.
abbrev pub abs : ℤ → ℕ
abs n = pos_part n + neg_part n

-- `in: ['matched', 'paid']`
abbrev pub holds_value : InvoiceStatus → Bool
holds_value InvoiceStatus.matched = true
holds_value InvoiceStatus.paid = true
holds_value _ = false

abbrev pub is_billed_in_parts : Option Text → Bool
is_billed_in_parts none = false
is_billed_in_parts (some t) = text_eq t (units "milestone") || text_eq t (units "partial")

unfoldable pub allows_partial : Option Terms → Bool
allows_partial none = false
allows_partial (some terms) =
    terms.allow_partial_invoicing
    || is_billed_in_parts terms.billing_type
    || terms.has_milestones
    || terms.has_installments

-- The line of a number: of several, the last, as in a map that is built from the list.
unfoldable pub line_at : ℕ → List OrderLine → Option OrderLine
line_at n [] = none
line_at n (l ∷ ls) = elim (line_at n ls) [
  | some k ↦ some k
  | none ↦ if l.line_no == n then some l else none
]

abbrev pub unit_price_or_zero : Option OrderLine → ℤ
unit_price_or_zero none = pos 0
unit_price_or_zero (some l) = l.unit_price_minor

abbrev pub price_of : List OrderLine → Option ℕ → ℤ
price_of lines none = pos 0
price_of lines (some n) = unit_price_or_zero (line_at n lines)

-- The receipts that count for an order.
abbrev pub counts_for : ℕ → Receipt → Bool
counts_for po_id r = r.po_id == po_id && is_recorded r.status

unfoldable pub receipt_value : List OrderLine → Receipt → ℤ
receipt_value lines r = sum_of (λ (l : ReceiptLine). l.quantity *ℤ price_of lines l.line_no) r.lines

-- `receivedValueForPo`, at the prices of the order's lines.
unfoldable pub received_value : PurchaseOrder → Db → ℤ
received_value po db = sum_of (receipt_value po.lines) (filter (counts_for po.id) db.receipts)

-- An invoice of the order that holds value, other than the one that is left out.
abbrev pub allocates : ℕ → Option ℕ → Invoice → Bool
allocates po_id left_out i =
    is_ref po_id i.po_id && (holds_value i.status && not (is_ref i.id left_out))

-- `allocatedValueForPo`
unfoldable pub allocated_value : ℕ → Option ℕ → Db → ℤ
allocated_value po_id left_out db =
    sum_of (λ (i : Invoice). i.amount_minor) (filter (allocates po_id left_out) db.invoices)

abbrev pub at_least_one : ℕ → ℕ
at_least_one n = if n == 0 then 1 else n

module _ (ratio_bps : ℕ → ℕ → ℕ) where
  -- `exceedsCapacity`
  unfoldable pub exceeds_capacity : ℤ → ℤ → Bool
  exceeds_capacity total capacity =
      not (leb_ℤ total capacity)
      && ltb match_tolerance_bps
          (ratio_bps (abs (total -ℤ capacity)) (at_least_one (pos_part capacity)))

  abbrev pub variance_of : ℤ → ℤ → ℕ
  variance_of total po_total =
      if ltb_ℤ (pos 0) po_total then ratio_bps (abs (total -ℤ po_total)) (pos_part po_total) else 0

  abbrev pub is_full_match : ℤ → ℤ → Bool
  is_full_match total po_total = leb (variance_of total po_total) match_tolerance_bps

  abbrev pub amount_matches : Bool → ℤ → ℤ → Bool
  amount_matches partial total po_total =
      if partial
      then leb_ℤ total po_total || is_full_match total po_total
      else is_full_match total po_total

  -- The outcome of an order that is live, with what it has received and what is allocated.
  unfoldable pub coverage : ℤ → ℤ → ℤ → ℤ → MatchOutcome
  coverage total po_total received allocated =
      if eqb_ℤ received (pos 0)
      then MatchOutcome.awaiting_receipt
      else if leb_ℤ (received -ℤ allocated) (pos 0)
      then MatchOutcome.over_allocated
      else if exceeds_capacity total (received -ℤ allocated)
      then MatchOutcome.receipt_shortfall
      else if exceeds_capacity total (po_total -ℤ allocated)
      then MatchOutcome.over_allocated
      else MatchOutcome.matched

  -- The tests before the receipts are read.
  unfoldable pub refusal : MatchInput → PurchaseOrder → Bool → Option MatchOutcome
  refusal input po partial =
      if not (is_live po.status)
      then some MatchOutcome.po_not_live
      else if not (po.vendor_id == input.vendor_id)
      then some MatchOutcome.vendor_mismatch
      else if not (text_eq po.currency_code input.currency_code)
      then some MatchOutcome.currency_mismatch
      else if not (amount_matches partial input.total_minor po.total_minor)
      then some MatchOutcome.amount_mismatch
      else none

  abbrev pub not_found_result : MatchInput → MatchResult
  not_found_result input = record {
    po_id = input.po_id;
    po_total_minor = none;
    invoice_total_minor = input.total_minor;
    variance_minor = pos 0;
    variance_bps = 0;
    vendor_matched = false;
    amount_matched = false;
    outcome = MatchOutcome.po_not_found;
    is_partial = false;
    po_remaining_minor = none;
    received_value_minor = none;
    allocated_minor = none;
  }

  abbrev pub base_result : MatchInput → PurchaseOrder → Bool → MatchOutcome → MatchResult
  base_result input po partial outcome = record {
    po_id = input.po_id;
    po_total_minor = some po.total_minor;
    invoice_total_minor = input.total_minor;
    variance_minor = input.total_minor -ℤ po.total_minor;
    variance_bps = variance_of input.total_minor po.total_minor;
    vendor_matched = po.vendor_id == input.vendor_id;
    amount_matched = amount_matches partial input.total_minor po.total_minor;
    outcome = outcome;
    is_partial =
        partial
        && not (is_full_match input.total_minor po.total_minor)
        && leb_ℤ input.total_minor po.total_minor;
    po_remaining_minor = none;
    received_value_minor = none;
    allocated_minor = none;
  }

  -- `Math.max(0, n)`
  abbrev pub max_zero : ℤ → ℤ
  max_zero n = pos (pos_part n)

  unfoldable pub receipts_result : MatchInput → PurchaseOrder → Bool → ℤ → ℤ → MatchResult
  receipts_result input po partial received allocated =
      record (base_result input po partial
        (coverage input.total_minor po.total_minor received allocated)) {
          received_value_minor = some received;
          allocated_minor = some allocated;
          po_remaining_minor = some (max_zero (po.total_minor -ℤ allocated -ℤ input.total_minor));
        }

  abbrev pub is_allowed_partial : MatchInput → PurchaseOrder → Bool
  is_allowed_partial input po = input.allow_partial || allows_partial po.terms

  unfoldable pub match_with : MatchInput → PurchaseOrder → Option ℕ → Db → MatchResult
  match_with input po left_out db = elim (refusal input po (is_allowed_partial input po)) [
    | some outcome ↦ base_result input po (is_allowed_partial input po) outcome
    | none ↦
        receipts_result input po (is_allowed_partial input po) (received_value po db)
          (allocated_value po.id left_out db)
  ]

  unfoldable pub match_against_po : MatchInput → Option ℕ → Db → MatchResult
  match_against_po input left_out db =
      elim (find? (λ (p : PurchaseOrder). p.id == input.po_id) db.purchase_orders) [
        | none ↦ not_found_result input
        | some po ↦ match_with input po left_out db
      ]
