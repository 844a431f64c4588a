-- ===== src/Receipt/Gate.antt =====
-- The over-receipt gate of `record`, apps/api/src/receipt/receipt.service.ts: of no line of an order is more
-- recorded than is ordered.
use aipms.Prelude.{
  ℕ, ◌≡◌, refl, sym, subst, ap, true, false, Option, none, some, List, [], ◌∷◌, inl, inr, arith,
  Bool-cases, Option-cases, ok, Result-cases, filter, ◌==◌, ==→eq, is_ref, if◌then◌else◌,
}
use aipms.Prelude.Int.{ℤ, pos, ◌+ℤ◌, ◌≤ℤ◌, sum_of, int_laws, +ℤ_assoc}
use aipms.Database.{Db, PurchaseOrder, OrderLine, Receipt, ReceiptLine}
use aipms.Invoice.Match.{line_at, counts_for}
use aipms.Receipt.{
  RecordReceiptLine, Running, get, set, add_lines, add_receipts, prepare, named_line, line_of_id,
  take_in, prepared_line,
}

-- What the lines of receipts record of a line of the order.
abbrev pub quantity_of : ℕ → ReceiptLine → ℤ
quantity_of n l = if is_ref n l.line_no then l.quantity else pos 0

abbrev pub recorded_lines : ℕ → List ReceiptLine → ℤ
recorded_lines n ls = sum_of (quantity_of n) ls

abbrev pub recorded_of : ℕ → List Receipt → ℤ
recorded_of n rs = sum_of (λ (r : Receipt). recorded_lines n r.lines) rs

-- No line of the order is received beyond its quantity.
abbrev pub IsWithinOrder : PurchaseOrder → Db → Type 0
IsWithinOrder po db =
    (n : ℕ) (l : OrderLine)
    → line_at n po.lines ≡ some l
    → recorded_of n (filter (counts_for po.id) db.receipts) ≤ℤ l.quantity

get-set : (n m : ℕ) (q : ℤ) (running : Running) → (n == m) ≡ true → get n (set m q running) ≡ q
unfolding get
get-set n m q running h = ground arith

get-set_other :
    (n m : ℕ) (q : ℤ) (running : Running)
    → (n == m) ≡ false
    → get n (set m q running) ≡ get n running
unfolding get
get-set_other n m q running h = ground arith

get_hit : (n m : ℕ) (running : Running) → (n == m) ≡ true → get m running ≡ get n running
get_hit n m running h = rw (==→eq n m h) refl

-- The running totals are the sums.
get-add_lines :
    (n : ℕ) (ls : List ReceiptLine) (running : Running)
    → get n (add_lines ls running) ≡ get n running +ℤ recorded_lines n ls
unfolding add_lines sum_of
get-add_lines n [] running = omega int_laws
get-add_lines n (l ∷ ls) running = elim (Option-cases l.line_no) [
  | inl unnumbered ↦ rw unnumbered (rw (get-add_lines n ls running) (omega int_laws))
  | inr (m, numbered) ↦
      let next = set m (get m running +ℤ l.quantity) running in
      rw numbered (elim (Bool-cases (n == m)) [
        | inl hit ↦
            rw
              (
                get-add_lines n ls next,
                get-set n m (get m running +ℤ l.quantity) running hit,
                get_hit n m running hit,
                hit,
              )
              (omega int_laws)
        | inr miss ↦
            rw
              (
                get-add_lines n ls next,
                get-set_other n m (get m running +ℤ l.quantity) running miss,
                miss,
              )
              (omega int_laws)
      ])
]

get-add_receipts :
    (n : ℕ) (rs : List Receipt) (running : Running)
    → get n (add_receipts rs running) ≡ get n running +ℤ recorded_of n rs
unfolding add_receipts sum_of
get-add_receipts n [] running = omega int_laws
get-add_receipts n (r ∷ rs) running =
    rw (get-add_receipts n rs (add_lines r.lines running), get-add_lines n r.lines running)
      (omega int_laws)

-- The totals that the gate starts from are what the receipts record.
pub get-add_receipts_nil :
    (n : ℕ) (rs : List Receipt) → get n (add_receipts rs []) ≡ recorded_of n rs
unfolding get
get-add_receipts_nil n rs = rw (get-add_receipts n rs []) (omega int_laws)

-- The line that is found for a number has it.
line_at-line_no :
    (n : ℕ) (lines : List OrderLine) (l : OrderLine) → line_at n lines ≡ some l → l.line_no ≡ n
unfolding line_at
line_at-line_no n [] l e = cc
line_at-line_no n (k ∷ ls) l e = elim (Option-cases (line_at n ls)) [
  | inl none_later ↦ ground arith
  | inr (found, later) ↦ let rest = line_at-line_no n ls found later in ground arith
]

-- The line that an input names is the one that the order has at its number.
named_line-some :
    (po : PurchaseOrder) (line : RecordReceiptLine) (l : OrderLine)
    → named_line po line ≡ ok (some l)
    → line_at l.line_no po.lines ≡ some l
unfolding named_line
named_line-some po line l h = elim (Option-cases line.po_line_id) [
  | inl by_number ↦ elim (Option-cases line.line_no) [
    | inl unnumbered ↦ absurd (ground arith)
    | inr (n, numbered) ↦
        let found : line_at n po.lines ≡ some l = ground arith in
        subst (λ k. line_at k po.lines ≡ some l) (sym (line_at-line_no n po.lines l found)) found
  ]
  | inr ((order, n), by_id) ↦ elim (Option-cases (line_of_id po (order, n))) [
    | inl missing ↦ absurd (ground arith)
    | inr (k, found) ↦
        let at : line_at n po.lines ≡ some l = ground arith in
        subst (λ k. line_at k po.lines ≡ some l) (sym (line_at-line_no n po.lines l at)) at
  ]
]

-- A line that names none of the order's has no number of them.
named_line-none :
    (po : PurchaseOrder) (line : RecordReceiptLine) (n : ℕ) (l : OrderLine)
    → named_line po line ≡ ok none
    → line_at n po.lines ≡ some l
    → is_ref n line.line_no ≡ false
unfolding named_line
named_line-none po line n l h there = elim (Option-cases line.line_no) [
  | inl unnumbered ↦ rw unnumbered refl
  | inr (m, numbered) ↦ elim (Bool-cases (n == m)) [
    | inl hit ↦
        let same : n ≡ m = ==→eq n m hit in
        let at : line_at m po.lines ≡ some l =
          subst (λ k. line_at k po.lines ≡ some l) same there in
        elim (Option-cases line.po_line_id) [
          | inl by_number ↦ absurd (ground arith)
          | inr (id, by_id) ↦ absurd (ground arith)
        ]
    | inr miss ↦ rw (numbered, miss) refl
  ]
]

-- The gate of one line keeps the total of each line of the order within its quantity.
take_in-le :
    (po : PurchaseOrder) (line : RecordReceiptLine) (found : Option OrderLine)
    (running taken : Running) (n : ℕ) (l : OrderLine)
    → named_line po line ≡ ok found
    → take_in found line.quantity running ≡ ok taken
    → line_at n po.lines ≡ some l
    → get n running ≤ℤ l.quantity
    → (get n taken ≤ℤ l.quantity)
      × (get n taken ≡ get n running +ℤ quantity_of n (prepared_line po line found))
unfolding take_in
take_in-le po line none running taken n l named took there within =
    let same : running ≡ taken = ground arith in
    rw (← same, named_line-none po line n l named there) (within, omega int_laws)
take_in-le po line (some k) running taken n l named took there within =
    let at = named_line-some po line k named in
    let total = get k.line_no running +ℤ line.quantity in
    let same : set k.line_no total running ≡ taken = ground arith in
    elim (Bool-cases (n == k.line_no)) [
      | inl hit ↦
          let key : n ≡ k.line_no = ==→eq n k.line_no hit in
          let one : k ≡ l =
            let e = subst (λ m. line_at m po.lines ≡ some k) (sym key) at in ground arith in
          let fits : total ≤ℤ l.quantity = subst (λ m. total ≤ℤ m.quantity) one (ground arith) in
          rw (← same, get-set n k.line_no total running hit, hit)
            (fits, ap (λ m. get m running +ℤ line.quantity) (sym key))
      | inr miss ↦
          rw (← same, get-set_other n k.line_no total running miss, miss) (within, omega int_laws)
    ]

pub prepare-le :
    (po : PurchaseOrder) (given : List RecordReceiptLine) (running : Running)
    (lines : List ReceiptLine) (n : ℕ) (l : OrderLine)
    → prepare po given running ≡ ok lines
    → line_at n po.lines ≡ some l
    → get n running ≤ℤ l.quantity
    → (get n running +ℤ recorded_lines n lines) ≤ℤ l.quantity
unfolding prepare sum_of
prepare-le po [] running lines n l h there within =
    let e : [] ≡ lines = ground arith in rw (← e) (omega (int_laws, within))
prepare-le po (line ∷ given) running lines n l h there within =
    elim (Result-cases (named_line po line)) [
      | inl (e, thrown) ↦ absurd (ground arith)
      | inr (found, named) ↦ elim (Result-cases (take_in found line.quantity running)) [
        | inl (e, thrown) ↦ absurd (ground arith)
        | inr (taken, took) ↦ elim (Result-cases (prepare po given taken)) [
          | inl (e, thrown) ↦ absurd (ground arith)
          | inr (rest, prepared) ↦
              let e : prepared_line po line found ∷ rest ≡ lines = ground arith in
              let (below, total) =
                take_in-le po line found running taken n l named took there within in
              let later = prepare-le po given taken rest n l prepared there below in
              rw (← e) (
                subst (λ q. q ≤ℤ l.quantity)
                  (rw total (
                    +ℤ_assoc (get n running) (quantity_of n (prepared_line po line found))
                      (recorded_lines n rest)))
                  later)
        ]
      ]
    ]
