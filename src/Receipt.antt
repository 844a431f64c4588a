-- ===== src/Receipt.antt =====
-- Receipts of goods, apps/api/src/receipt/receipt.service.ts. The note of a receipt, which nothing
-- reads, is left out.
pub mod Coverage
pub mod Gate
pub mod Within
mod Tests
use aipms.Prelude.{
  ℕ, suc, Bool, true, false, not, ◌&&◌, ◌||◌, Option, none, some, List, [], ◌∷◌, ◌++◌, map, Error,
  Result, ok, err, filter, find?, count, update_where, is_ref, is_some, or_else, length, ◌==◌,
  if◌then◌else◌,
}
use aipms.Prelude
use aipms.Prelude.Int.{ℤ, pos, ◌+ℤ◌, leb_ℤ, ltb_ℤ}
use aipms.Prelude.Text.{Text, units}
use aipms.Money.{database_int_max, is_safe_integer}
use aipms.Database.{
  Db, OrderLine, PurchaseOrder, Receipt, ReceiptLine, ReceiptStatus, EventType, is_live,
  is_recorded, Tx, ◌>>=◌, ◌>>◌, pure, lift, gets, modify, emit, or_throw, throw_if,
}
use aipms.DocumentNumber.{next, latest}
use aipms.Invoice.Match.{line_at, counts_for}
use aipms.Invoice.Rematch.{
  RematchSummary, ReevaluateSummary, rematch_open_for_po, reevaluate_matched_for_po,
}

pub record RecordReceiptLine : Type 0 where
  pub po_line_id : Option (ℕ × ℕ)
  pub line_no : Option ℕ
  pub sku : Option Text
  pub description : Text
  pub quantity : ℤ
  pub unit : Option Text

pub record RecordReceiptInput : Type 0 where
  pub po_id : ℕ
  pub lines : List RecordReceiptLine
  pub recorded_by : ℕ

-- `runningByLine`: what is received of each line, newest entry first; a line with none has 0.
abbrev pub Running : Type 0
Running = List (ℕ × ℤ)

unfoldable pub get : ℕ → Running → ℤ
get n [] = pos 0
get n ((k, q) ∷ rest) = if k == n then q else get n rest

abbrev pub set : ℕ → ℤ → Running → Running
set n q running = (n, q) ∷ running

unfoldable pub add_lines : List ReceiptLine → Running → Running
add_lines [] running = running
add_lines (l ∷ ls) running = elim l.line_no [
  | none ↦ add_lines ls running
  | some n ↦ add_lines ls (set n (get n running +ℤ l.quantity) running)
]

unfoldable pub add_receipts : List Receipt → Running → Running
add_receipts [] running = running
add_receipts (r ∷ rs) running = add_receipts rs (add_lines r.lines running)

abbrev pub is_bad_quantity : ℤ → Bool
is_bad_quantity q = leb_ℤ q (pos 0) || not (is_safe_integer q) || ltb_ℤ (pos database_int_max) q

abbrev pub conflicts : Option ℕ → ℕ → Bool
conflicts none n = false
conflicts (some m) n = not (m == n)

-- The line of an id, on the order.
abbrev pub line_of_id : PurchaseOrder → ℕ × ℕ → Option OrderLine
line_of_id po (po_id, n) = if po_id == po.id then line_at n po.lines else none

-- The line of the order that an input names.
unfoldable pub named_line : PurchaseOrder → RecordReceiptLine → Result (Option OrderLine)
named_line po line = elim line.po_line_id [
  | some id ↦ elim (line_of_id po id) [
    | none ↦ err (Error.conflict "PO line is not on the PO")
    | some l ↦
        if conflicts line.line_no l.line_no
        then err (Error.conflict "poLineId and lineNo name two lines")
        else ok (some l)
  ]
  | none ↦ elim line.line_no [ none ↦ ok none | some n ↦ ok (line_at n po.lines) ]
]

-- `poLine?.lineNo ?? line.lineNo`
abbrev pub effective_line_no : Option OrderLine → Option ℕ → Option ℕ
effective_line_no none given = given
effective_line_no (some l) given = some l.line_no

-- The over-receipt gate of one line, with the running totals after it.
unfoldable pub take_in : Option OrderLine → ℤ → Running → Result Running
take_in none quantity running = ok running
take_in (some l) quantity running =
    if ltb_ℤ l.quantity (get l.line_no running +ℤ quantity)
    then err (Error.conflict "Over-receipt")
    else ok (set l.line_no (get l.line_no running +ℤ quantity) running)

abbrev pub id_of_line : PurchaseOrder → Option OrderLine → Option (ℕ × ℕ)
id_of_line po none = none
id_of_line po (some l) = some (po.id, l.line_no)

abbrev pub first_some : Option (ℕ × ℕ) → Option (ℕ × ℕ) → Option (ℕ × ℕ)
first_some none other = other
first_some (some a) other = some a

abbrev pub prepared_line : PurchaseOrder → RecordReceiptLine → Option OrderLine → ReceiptLine
prepared_line po line found = record {
  po_line_id = first_some line.po_line_id (id_of_line po found);
  line_no = effective_line_no found line.line_no;
  sku = line.sku;
  description = line.description;
  quantity = line.quantity;
  unit = or_else line.unit (units "ea");
}

-- The lines of the receipt, each against the totals that the ones before it have left.
unfoldable pub prepare :
    PurchaseOrder → List RecordReceiptLine → Running → Result (List ReceiptLine)
prepare po [] running = ok []
prepare po (line ∷ lines) running =
    if is_bad_quantity line.quantity
    then err (Error.conflict "Receipt quantities must be positive integers")
    else Prelude.◌>>=◌ (named_line po line) (λ found.
      Prelude.◌>>=◌ (take_in found line.quantity running) (λ taken.
        Prelude.◌>>=◌ (prepare po lines taken) (λ rest. ok (prepared_line po line found ∷ rest))))

abbrev pub find_order : ℕ → Db → Option PurchaseOrder
find_order id db = find? (λ (p : PurchaseOrder). p.id == id) db.purchase_orders

abbrev pub find_receipt : ℕ → Db → Option Receipt
find_receipt id db = find? (λ (r : Receipt). r.id == id) db.receipts

-- `receipt.create` with its number.
unfoldable pub insert_receipt : PurchaseOrder → ℕ → List ReceiptLine → Tx Receipt
insert_receipt po recorded_by lines db =
    let row : Receipt = record {
      id = db.next_id;
      receipt_number =
          next (units "RCT-") (latest (map (λ (r : Receipt). r.receipt_number) db.receipts));
      po_id = po.id;
      vendor_id = po.vendor_id;
      status = ReceiptStatus.recorded;
      recorded_by = recorded_by;
      lines = lines;
    } in
    ok (row, record db { receipts = db.receipts ++ row ∷ []; next_id = suc db.next_id })

abbrev has_no_line : List RecordReceiptLine → Bool
has_no_line [] = true
has_no_line (line ∷ lines) = false

abbrev pub set_cancelled : Receipt → Receipt
set_cancelled r = record r { status = ReceiptStatus.cancelled }

abbrev pub cancellable : ℕ → Receipt → Bool
cancellable id r = r.id == id && is_recorded r.status

-- The receipt is written, if its lines pass the gate; the order is live.
unfoldable pub write_receipt : RecordReceiptInput → Tx (Receipt × PurchaseOrder)
write_receipt input = do
  throw_if (has_no_line input.lines) (Error.conflict "A receipt must carry at least one line")
  found ← gets (find_order input.po_id)
  po ← or_throw found (Error.not_found "Purchase order not found")
  throw_if (not (is_live po.status))
      (Error.conflict "goods can only be received against an issued or confirmed PO")
  prior ← gets (λ db. filter (counts_for po.id) db.receipts)
  lines ← lift (prepare po input.lines (add_receipts prior []))
  receipt ← insert_receipt po input.recorded_by lines
  emit EventType.receipt_recorded receipt.id
  pure (receipt, po)

-- The status of the receipt is written, if it is recorded.
unfoldable pub write_cancellation : ℕ → Tx Receipt
write_cancellation id = do
  found ← gets (find_receipt id)
  receipt ← or_throw found (Error.not_found "Receipt not found")
  throw_if (not (is_recorded receipt.status)) (Error.conflict "Receipt is already cancelled")
  changed ← gets (λ db. count (cancellable id) db.receipts)
  throw_if (not (changed == 1)) (Error.conflict "Receipt changed; reload before cancelling")
  modify (λ db. record db { receipts = update_where (cancellable id) set_cancelled db.receipts })
  pure receipt

module _ (ratio_bps : ℕ → ℕ → ℕ) where
  -- `record`, a reserved word.
  unfoldable pub record_receipt : RecordReceiptInput → Tx (Receipt × RematchSummary)
  record_receipt input = write_receipt input >>= λ written.
      rematch_open_for_po ratio_bps written.1.id >>= λ rematch. pure (written.0, rematch)

  unfoldable pub cancel : ℕ → Tx Receipt
  cancel id = do
    receipt ← write_cancellation id
    summary ← reevaluate_matched_for_po ratio_bps receipt.po_id
    reread ← gets (find_receipt id)
    or_throw reread (Error.not_found "Receipt not found")
