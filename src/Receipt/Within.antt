-- ===== src/Receipt/Within.antt =====
-- The over-receipt gate along whole operations of apps/api/src/receipt/receipt.service.ts.
use aipms.Prelude.{
  ℕ, ◌≡◌, refl, sym, subst, Bool, true, false, some, List, [], ◌∷◌, ◌++◌, inl, inr, arith,
  Bool-cases, ok, Result-cases, filter, update_where, ==-refl, is_ref, All, All-imp,
}
use aipms.Prelude.Int.{pos, ◌+ℤ◌, ◌≤ℤ◌, sum_of, sum_of-append, int_laws, sum_of_nonneg}
use aipms.Database.{Db, PurchaseOrder, Receipt, ReceiptLine}
use aipms.Invoice.Match.{counts_for}
use aipms.Invoice.Rematch.{RematchSummary, rematch_open_for_po, reevaluate_matched_for_po}
use aipms.Invoice.Coverage.Ledger.{HasQuantities}
use aipms.Invoice.Coverage.Rematch.{rematch_open_for_po-Untouched}
use aipms.Invoice.Coverage.Reevaluate.{reevaluate_matched_for_po-Untouched}
use aipms.Receipt.{
  RecordReceiptInput, get, add_receipts, prepare, write_receipt, write_cancellation, insert_receipt,
  find_order, cancellable, set_cancelled, record_receipt, cancel,
}
use aipms.Receipt.Gate.{
  quantity_of, recorded_lines, recorded_of, IsWithinOrder, get-add_receipts_nil, prepare-le,
}

filter-snoc :
    (p : Receipt → Bool) (rs : List Receipt) (r : Receipt)
    → p r ≡ true
    → filter p (rs ++ r ∷ []) ≡ filter p rs ++ r ∷ []
filter-snoc p [] r h = rw h refl
filter-snoc p (s ∷ rs) r h = ground (arith, filter-snoc p rs r h)

-- One receipt more.
recorded_of-snoc :
    (po_id n : ℕ) (rs : List Receipt) (row : Receipt)
    → counts_for po_id row ≡ true
    → recorded_of n (filter (counts_for po_id) (rs ++ row ∷ []))
      ≡ recorded_of n (filter (counts_for po_id) rs) +ℤ recorded_lines n row.lines
unfolding sum_of
recorded_of-snoc po_id n rs row h = rw (filter-snoc (counts_for po_id) rs row h) (
    rw
      (sum_of-append (λ (r : Receipt). recorded_lines n r.lines) (filter (counts_for po_id) rs)
        (row ∷ []))
      (omega int_laws))

write_receipt-IsWithinOrder :
    (input : RecordReceiptInput) (po order : PurchaseOrder) (row : Receipt) (db db' : Db)
    → find_order po.id db ≡ some po
    → input.po_id ≡ po.id
    → IsWithinOrder po db
    → write_receipt input db ≡ ok ((row, order), db')
    → IsWithinOrder po db'
unfolding write_receipt insert_receipt
write_receipt-IsWithinOrder input po order row db db' found of within h n l there =
    let known : find_order input.po_id db ≡ some po =
      subst (λ k. find_order k db ≡ some po) (sym of) found in
    let prior = filter (counts_for po.id) db.receipts in
    elim (Result-cases (prepare po input.lines (add_receipts prior []))) [
      | inl (e, thrown) ↦ absurd (ground arith)
      | inr (lines, prepared) ↦
          let running : get n (add_receipts prior []) ≡ recorded_of n prior =
            get-add_receipts_nil n prior in
          let gate =
            prepare-le po input.lines (add_receipts prior []) lines n l prepared there
              (rw running (within n l there)) in
          let wrote : db'.receipts ≡ db.receipts ++ row ∷ [] = ground arith in
          let counts : counts_for po.id row ≡ true = ground (arith, ==-refl po.id) in
          let same : row.lines ≡ lines = ground arith in
          rw (wrote, recorded_of-snoc po.id n db.receipts row counts, same) (rw (← running) gate)
    ]

quantity_of-nonneg : (n : ℕ) (l : ReceiptLine) → pos 0 ≤ℤ l.quantity → pos 0 ≤ℤ quantity_of n l
quantity_of-nonneg n l h = elim (Bool-cases (is_ref n l.line_no)) [
  | inl mine ↦ rw mine h
  | inr other ↦ rw other (omega arith)
]

recorded_lines-nonneg :
    (n : ℕ) (ls : List ReceiptLine)
    → All (λ (l : ReceiptLine). pos 0 ≤ℤ l.quantity) ls
    → pos 0 ≤ℤ recorded_lines n ls
recorded_lines-nonneg n ls h = sum_of_nonneg (quantity_of n) ls (
    All-imp {Q = λ (l : ReceiptLine). pos 0 ≤ℤ quantity_of n l} (λ l k. quantity_of-nonneg n l k) ls
      h)

set_cancelled-counts : (po_id : ℕ) (r : Receipt) → counts_for po_id (set_cancelled r) ≡ false
set_cancelled-counts po_id r = ground arith

-- A cancelled receipt records nothing.
cancelled_less :
    (po_id id n : ℕ) (rs : List Receipt)
    → All HasQuantities rs
    → recorded_of n (filter (counts_for po_id) (update_where (cancellable id) set_cancelled rs))
      ≤ℤ recorded_of n (filter (counts_for po_id) rs)
unfolding sum_of
cancelled_less po_id id n [] h = omega arith
cancelled_less po_id id n (r ∷ rs) h =
    let rest = cancelled_less po_id id n rs h.1 in
    let positive = recorded_lines-nonneg n r.lines h.0 in
    elim (Bool-cases (cancellable id r)) [
      | inl hit ↦ elim (Bool-cases (counts_for po_id r)) [
        | inl counts ↦
            let out : counts_for po_id (set_cancelled r) ≡ false = set_cancelled-counts po_id r in
            rw (hit, counts, out) (omega (int_laws, rest, positive))
        | inr none_counts ↦
            let out : counts_for po_id (set_cancelled r) ≡ false = set_cancelled-counts po_id r in
            rw (hit, none_counts, out) rest
      ]
      | inr miss ↦ elim (Bool-cases (counts_for po_id r)) [
        | inl counts ↦ rw (miss, counts) (omega (int_laws, rest))
        | inr none_counts ↦ rw (miss, none_counts) rest
      ]
    ]

-- Where no line of an order is received beyond its quantity, a receipt that is recorded for the
-- order, however its lines name those of the order and however often, leaves it so.
pub record_receipt-IsWithinOrder :
    (ratio_bps : ℕ → ℕ → ℕ) (input : RecordReceiptInput) (po : PurchaseOrder) (db db' : Db)
    (recorded : Receipt × RematchSummary)
    → find_order po.id db ≡ some po
    → input.po_id ≡ po.id
    → IsWithinOrder po db
    → record_receipt ratio_bps input db ≡ ok (recorded, db')
    → IsWithinOrder po db'
unfolding record_receipt
record_receipt-IsWithinOrder ratio_bps input po db db' recorded found of within h n l there =
    elim (Result-cases (write_receipt input db)) [
      | inl (e, thrown) ↦ absurd (ground arith)
      | inr (((row, order), next), written) ↦
          let after =
            write_receipt-IsWithinOrder input po order row db next found of within written n l
              there in
          elim (Result-cases (rematch_open_for_po ratio_bps order.id next)) [
            | inl (e, thrown) ↦ absurd (ground arith)
            | inr ((summary, last), rematched) ↦
                let same : db'.receipts ≡ next.receipts =
                  let e : last ≡ db' = ground arith in
                  subst (λ (d : Db). d.receipts ≡ next.receipts) e
                    (rematch_open_for_po-Untouched ratio_bps order.id summary next last
                      rematched).receipts in
                rw same after
          ]
    ]

pub cancel-IsWithinOrder :
    (ratio_bps : ℕ → ℕ → ℕ) (id : ℕ) (po : PurchaseOrder) (receipt : Receipt) (db db' : Db)
    → All HasQuantities db.receipts
    → IsWithinOrder po db
    → cancel ratio_bps id db ≡ ok (receipt, db')
    → IsWithinOrder po db'
unfolding cancel write_cancellation
cancel-IsWithinOrder ratio_bps id po receipt db db' quantities within h n l there =
    elim (Result-cases (write_cancellation id db)) [
      | inl (e, thrown) ↦ absurd (ground arith)
      | inr ((cancelled, next), written) ↦
          let wrote : next.receipts ≡ update_where (cancellable id) set_cancelled db.receipts =
            ground arith in
          elim (Result-cases (reevaluate_matched_for_po ratio_bps cancelled.po_id next)) [
            | inl (e, thrown) ↦ absurd (ground arith)
            | inr ((summary, last), done) ↦
                let same : db'.receipts ≡ next.receipts =
                  let e : last ≡ db' = ground arith in
                  subst (λ (d : Db). d.receipts ≡ next.receipts) e
                    (reevaluate_matched_for_po-Untouched ratio_bps cancelled.po_id summary next last
                      done).receipts in
                let less = cancelled_less po.id id n db.receipts quantities in
                let before = within n l there in rw (same, wrote) (omega (arith, less, before))
          ]
    ]
