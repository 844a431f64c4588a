-- ===== src/Receipt/Coverage.antt =====
-- What the receipt service leaves of an order that is covered: goods that arrive add to what is
-- received, and a cancelled receipt makes the matches of its order again.
use aipms.Prelude.{
  ℕ, ◌<◌, ◌≡◌, sym, subst, ap, ◌∙◌, Bool, true, none, some, List, [], ◌∷◌, ◌++◌, inl, inr, arith,
  Bool-cases, Option-cases, ok, Result-cases, filter, find?, update_where, All, All-imp, All-of,
  find?-some-holds, ==→eq,
}
use aipms.Prelude.Int.{ℤ, pos, ◌≤ℤ◌, sum_of, int_laws}
use aipms.Prelude.Rows.{All-append, All-update_where}
use aipms.Database.{Db, PurchaseOrder, Receipt, ReceiptLine, Invoice}
use aipms.Invoice.Match.{received_value, receipt_value, counts_for, allocated_value}
use aipms.Invoice.Match.Laws.{Rounds}
use aipms.Invoice.Coverage.Ledger.{
  Ledger, IsCovered, HasQuantities, receipt_value-nonneg, Covers-mono, has_order_id,
}
use aipms.Invoice.Coverage.Rematch.{rematch_open_for_po-IsCovered}
use aipms.Invoice.Coverage.Reevaluate.{reevaluate_matched_for_po-IsCovered}
use aipms.Invoice.Rematch.{RematchSummary, rematch_open_for_po, reevaluate_matched_for_po}
use aipms.Receipt.{
  RecordReceiptLine, RecordReceiptInput, Running, prepare, named_line, take_in, prepared_line,
  write_receipt, write_cancellation, insert_receipt, record_receipt, cancel, cancellable,
  set_cancelled, find_receipt, find_order, add_receipts,
}

abbrev HasQuantity : ReceiptLine → Type 0
HasQuantity l = pos 0 ≤ℤ l.quantity

-- The lines that pass the gate are for quantities above zero.
prepare-HasQuantity :
    (po : PurchaseOrder) (given : List RecordReceiptLine) (running : Running)
    (lines : List ReceiptLine)
    → prepare po given running ≡ ok lines
    → All HasQuantity lines
unfolding prepare
prepare-HasQuantity po [] running lines h =
    let e : [] ≡ lines = ground arith in subst (All HasQuantity) e tt
prepare-HasQuantity po (line ∷ given) running lines h = elim (Result-cases (named_line po line)) [
  | inl (e, thrown) ↦ absurd (ground arith)
  | inr (found, named) ↦ elim (Result-cases (take_in found line.quantity running)) [
    | inl (e, thrown) ↦ absurd (ground arith)
    | inr (taken, took) ↦ elim (Result-cases (prepare po given taken)) [
      | inl (e, thrown) ↦ absurd (ground arith)
      | inr (rest, prepared) ↦
          let e : prepared_line po line found ∷ rest ≡ lines = ground arith in
          subst (All HasQuantity) e (ground arith, prepare-HasQuantity po given taken rest prepared)
    ]
  ]
]

-- A receipt that is added adds to what is received.
filter_more :
    (f : Receipt → ℤ) (p : Receipt → Bool) (rs : List Receipt) (r : Receipt)
    → pos 0 ≤ℤ f r
    → sum_of f (filter p rs) ≤ℤ sum_of f (filter p (rs ++ r ∷ []))
unfolding sum_of
filter_more f p [] r positive = elim (Bool-cases (p r)) [
  | inl hit ↦ rw hit (omega (int_laws, positive))
  | inr miss ↦ rw miss (omega arith)
]
filter_more f p (s ∷ rs) r positive =
    let rest = filter_more f p rs r positive in
    elim (Bool-cases (p s)) [ inl hit ↦ rw hit (omega (int_laws, rest)) | inr miss ↦ rw miss rest ]

-- What a receipt that is written adds to the tables.
record Recorded (db db' : Db) (row : Receipt) : Type 0 where
  orders : db'.purchase_orders ≡ db.purchase_orders
  invoices : db'.invoices ≡ db.invoices
  receipts : db'.receipts ≡ db.receipts ++ row ∷ []
  next_id : db.next_id < db'.next_id
  quantities : HasQuantities row

write_receipt-Recorded :
    (input : RecordReceiptInput) (row : Receipt) (po : PurchaseOrder) (db db' : Db)
    → write_receipt input db ≡ ok ((row, po), db')
    → (find? (has_order_id input.po_id) db.purchase_orders ≡ some po) × Recorded db db' row
unfolding write_receipt insert_receipt
write_receipt-Recorded input row po db db' h = elim (Option-cases (find_order input.po_id db)) [
  | inl missing ↦ absurd (ground arith)
  | inr (order, found) ↦
      let running = add_receipts (filter (counts_for order.id) db.receipts) [] in
      elim (Result-cases (prepare order input.lines running)) [
        | inl (e, thrown) ↦ absurd (ground arith)
        | inr (lines, prepared) ↦
            let positive = prepare-HasQuantity order input.lines running lines prepared in
            let e : row.lines ≡ lines = ground arith in
            (
              ground arith,
              record {
                orders = ground arith;
                invoices = ground arith;
                receipts = ground arith;
                next_id = ground arith;
                quantities = subst (All HasQuantity) (sym e) positive;
              },
            )
      ]
]

Recorded-Ledger :
    (po : PurchaseOrder) (row : Receipt) (db db' : Db)
    → Recorded db db' row
    → Ledger po db
    → Ledger po db'
Recorded-Ledger po row db db' wrote ledger =
    let later = wrote.next_id in
    record {
      found = rw wrote.orders ledger.found;
      unique = rw wrote.invoices ledger.unique;
      amounts = rw wrote.invoices ledger.amounts;
      fresh = rw wrote.invoices (
          All-imp {Q = λ (i : Invoice). i.id < db'.next_id} (λ i h. omega (arith, h, later))
            db.invoices ledger.fresh);
      prices = ledger.prices;
      quantities = subst (All HasQuantities) (sym wrote.receipts) (
          All-append HasQuantities db.receipts (row ∷ []) ledger.quantities (wrote.quantities, tt));
    }

Recorded-IsCovered :
    (po : PurchaseOrder) (row : Receipt) (db db' : Db)
    → Recorded db db' row
    → Ledger po db
    → IsCovered po db
    → IsCovered po db'
unfolding received_value allocated_value
Recorded-IsCovered po row db db' wrote ledger covered =
    let more =
      filter_more (receipt_value po.lines) (counts_for po.id) db.receipts row
        (receipt_value-nonneg po.lines row ledger.prices wrote.quantities) in
    rw (wrote.invoices, wrote.receipts)
      (Covers-mono (allocated_value po.id none db) (allocated_value po.id none db)
        (sum_of (receipt_value po.lines) (filter (counts_for po.id) db.receipts))
        (sum_of (receipt_value po.lines) (filter (counts_for po.id) (db.receipts ++ row ∷ [])))
        covered (omega arith) more)

-- Given that the rounded ratio is a nearest one, and from tables that hold the order, in which ids
-- of invoices are keys below the next id, amounts are in the column's range, and prices and
-- quantities are not negative: a receipt that is recorded for an order whose matched and paid
-- invoices sum to at most 1.05005 times the value of its receipts leads to such tables again, in
-- which the same holds, the invoices that the receipt lets be matched included.
pub record_receipt-IsCovered :
    (ratio_bps : ℕ → ℕ → ℕ) (input : RecordReceiptInput) (po : PurchaseOrder) (db db' : Db)
    (recorded : Receipt × RematchSummary)
    → Rounds ratio_bps
    → Ledger po db
    → IsCovered po db
    → input.po_id ≡ po.id
    → record_receipt ratio_bps input db ≡ ok (recorded, db')
    → Ledger po db' × IsCovered po db'
unfolding record_receipt
record_receipt-IsCovered ratio_bps input po db db' recorded rounds ledger covered of h =
    elim (Result-cases (write_receipt input db)) [
      | inl (e, thrown) ↦ absurd (ground arith)
      | inr (((row, order), next), written) ↦
          let (found, wrote) = write_receipt-Recorded input row order db next written in
          let key : order.id ≡ input.po_id =
            ==→eq order.id input.po_id
              (find?-some-holds (has_order_id input.po_id) db.purchase_orders order found) in
          elim (Result-cases (rematch_open_for_po ratio_bps order.id next)) [
            | inl (e, thrown) ↦ absurd (ground arith)
            | inr ((summary, after), rematched) ↦
                let e : after ≡ db' = ground arith in
                subst (λ d. Ledger po d × IsCovered po d) e
                  (rematch_open_for_po-IsCovered ratio_bps po summary next after rounds
                    (Recorded-Ledger po row db next wrote ledger)
                    (Recorded-IsCovered po row db next wrote ledger covered)
                    (subst (λ k. rematch_open_for_po ratio_bps k next ≡ ok (summary, after))
                      (key ∙ of) rematched))
          ]
    ]

set_cancelled-HasQuantities :
    (id : ℕ) (rs : List Receipt)
    → All HasQuantities rs
    → All HasQuantities (update_where (cancellable id) set_cancelled rs)
set_cancelled-HasQuantities id rs h =
    All-update_where HasQuantities (cancellable id) set_cancelled rs h (
      All-of {P = λ r. cancellable id r ≡ true → HasQuantities r → HasQuantities (set_cancelled r)}
        (λ r hit k. k) rs)

write_cancellation-Ledger :
    (id : ℕ) (receipt : Receipt) (po : PurchaseOrder) (db db' : Db)
    → write_cancellation id db ≡ ok (receipt, db')
    → Ledger po db
    → (find_receipt id db ≡ some receipt) × Ledger po db'
unfolding write_cancellation
write_cancellation-Ledger id receipt po db db' h ledger =
    let e : record db { receipts = update_where (cancellable id) set_cancelled db.receipts } ≡ db' =
      ground arith in
    (
      ground arith,
      subst (Ledger po) e (record {
        found = ledger.found;
        unique = ledger.unique;
        amounts = ledger.amounts;
        fresh = ledger.fresh;
        prices = ledger.prices;
        quantities = set_cancelled-HasQuantities id db.receipts ledger.quantities;
      }),
    )

-- Given that the rounded ratio is a nearest one, and from tables that hold the order, in which ids
-- of invoices are keys below the next id, amounts are in the column's range, and prices and
-- quantities are not negative: a cancellation of a receipt that goes through leads to such tables
-- again, in which the matched and paid invoices of the receipt's order are at most 1.05005 times
-- the value of the receipts that are left; nothing is asked of what they summed to before.
pub cancel-IsCovered :
    (ratio_bps : ℕ → ℕ → ℕ) (id : ℕ) (po : PurchaseOrder) (receipt reread : Receipt) (db db' : Db)
    → Rounds ratio_bps
    → Ledger po db
    → find_receipt id db ≡ some receipt
    → receipt.po_id ≡ po.id
    → cancel ratio_bps id db ≡ ok (reread, db')
    → Ledger po db' × IsCovered po db'
unfolding cancel
cancel-IsCovered ratio_bps id po receipt reread db db' rounds ledger found of h =
    elim (Result-cases (write_cancellation id db)) [
      | inl (e, thrown) ↦ absurd (ground arith)
      | inr ((cancelled, next), written) ↦
          let (seen, ledger') = write_cancellation-Ledger id cancelled po db next written ledger in
          let same : cancelled ≡ receipt = ground arith in
          elim (Result-cases (reevaluate_matched_for_po ratio_bps cancelled.po_id next)) [
            | inl (e, thrown) ↦ absurd (ground arith)
            | inr ((summary, after), done) ↦
                let e : after ≡ db' = ground arith in
                let key : cancelled.po_id ≡ po.id = ap (λ (r : Receipt). r.po_id) same ∙ of in
                subst (λ d. Ledger po d × IsCovered po d) e
                  (reevaluate_matched_for_po-IsCovered ratio_bps po summary next after rounds
                    ledger'
                    (subst (λ k. reevaluate_matched_for_po ratio_bps k next ≡ ok (summary, after))
                      key done))
          ]
    ]
