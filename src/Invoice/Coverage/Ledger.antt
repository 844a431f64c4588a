-- ===== src/Invoice/Coverage/Ledger.antt =====
-- What a well-formed ledger of invoices is, when its order is covered, and what a write to an
-- invoice leaves of both.
use aipms.Prelude.{
  ℕ, ◌<◌, ◌≡◌, Option-cases, refl, sym, subst, ◌∙◌, Bool, Option, none, some, List, [], ◌∷◌, inl,
  inr, arith, Bool-cases, find?, filter, ◌==◌, All, All-imp,
}
use aipms.Prelude.Int.{ℤ, pos, negsuc, ◌*ℤ◌, ◌+ℤ◌, ◌-ℤ◌, ◌≤ℤ◌, int_laws, sum_of_nonneg}
use aipms.Prelude.Rows.{All-filter}
use aipms.Database.{Db, PurchaseOrder, OrderLine, Receipt, ReceiptLine, Invoice}
use aipms.Invoice.Match.{
  line_at, price_of, counts_for, receipt_value, received_value, allocated_value, allocates,
}
use aipms.Invoice.Match.Laws.{Covers, IsAmount}
use aipms.Invoice.Rematch.{update_invoice}
use aipms.Invoice.Coverage.Held.{amount, UniqueIds, NonNegative}

abbrev pub has_order_id : ℕ → PurchaseOrder → Bool
has_order_id id p = p.id == id

abbrev pub HasQuantities : Receipt → Type 0
HasQuantities r = All (λ (l : ReceiptLine). pos 0 ≤ℤ l.quantity) r.lines

-- The tables that a match reads: the order is there, no two invoices have one id, the next id is new, and amounts,
-- prices and quantities are ones that the database keeps.
pub record Ledger (po : PurchaseOrder) (db : Db) : Type 0 where
  pub found : find? (has_order_id po.id) db.purchase_orders ≡ some po
  pub unique : UniqueIds db.invoices
  pub amounts : All (λ (i : Invoice). IsAmount i.amount_minor) db.invoices
  pub fresh : All (λ (i : Invoice). i.id < db.next_id) db.invoices
  pub prices : All (λ (l : OrderLine). pos 0 ≤ℤ l.unit_price_minor) po.lines
  pub quantities : All HasQuantities db.receipts

-- The invoices that are matched or paid do not exceed what is received, up to the tolerance.
abbrev pub IsCovered : PurchaseOrder → Db → Type 0
IsCovered po db = Covers (allocated_value po.id none db) (received_value po db)

-- The other tables may differ.
pub record SameTables (db db' : Db) : Type 0 where
  pub orders : db'.purchase_orders ≡ db.purchase_orders
  pub invoices : db'.invoices ≡ db.invoices
  pub receipts : db'.receipts ≡ db.receipts
  pub next_id : db'.next_id ≡ db.next_id
  pub approvals : db'.approvals ≡ db.approvals
  pub budgets : db'.budgets ≡ db.budgets
  pub requisitions : db'.requisitions ≡ db.requisitions

pub SameTables-refl : (db : Db) → SameTables db db
SameTables-refl db = record {
  orders = refl;
  invoices = refl;
  receipts = refl;
  next_id = refl;
  approvals = refl;
  budgets = refl;
  requisitions = refl;
}

-- Tables that a match never writes.
pub record Untouched (db db' : Db) : Type 0 where
  pub orders : db'.purchase_orders ≡ db.purchase_orders
  pub receipts : db'.receipts ≡ db.receipts
  pub approvals : db'.approvals ≡ db.approvals
  pub budgets : db'.budgets ≡ db.budgets
  pub requisitions : db'.requisitions ≡ db.requisitions

pub Untouched-refl : (db : Db) → Untouched db db
Untouched-refl db = record {
  orders = refl;
  receipts = refl;
  approvals = refl;
  budgets = refl;
  requisitions = refl;
}

-- A write to an invoice, its events, and what follows.
pub Untouched-step :
    (id : ℕ) (f : Invoice → Invoice) (db next db' : Db)
    → SameTables (update_invoice id f db) next
    → Untouched next db'
    → Untouched db db'
Untouched-step id f db next db' same rest = record {
  orders = rest.orders ∙ same.orders;
  receipts = rest.receipts ∙ same.receipts;
  approvals = rest.approvals ∙ same.approvals;
  budgets = rest.budgets ∙ same.budgets;
  requisitions = rest.requisitions ∙ same.requisitions;
}

pub SameTables-received :
    (po : PurchaseOrder) (db db' : Db)
    → SameTables db db'
    → received_value po db' ≡ received_value po db
unfolding received_value
SameTables-received po db db' same = rw same.receipts refl

pub SameTables-allocated :
    (po_id : ℕ) (left_out : Option ℕ) (db db' : Db)
    → SameTables db db'
    → allocated_value po_id left_out db' ≡ allocated_value po_id left_out db
unfolding allocated_value
SameTables-allocated po_id left_out db db' same = rw same.invoices refl

pub SameTables-Ledger :
    (po : PurchaseOrder) (db db' : Db) → SameTables db db' → Ledger po db → Ledger po db'
SameTables-Ledger po db db' same ledger = record {
  found = rw same.orders ledger.found;
  unique = subst UniqueIds (sym same.invoices) ledger.unique;
  amounts =
      subst (All (λ (i : Invoice). IsAmount i.amount_minor)) (sym same.invoices) ledger.amounts;
  fresh = rw (same.invoices, same.next_id) ledger.fresh;
  prices = ledger.prices;
  quantities = subst (All HasQuantities) (sym same.receipts) ledger.quantities;
}

pub SameTables-IsCovered :
    (po : PurchaseOrder) (db db' : Db) → SameTables db db' → IsCovered po db → IsCovered po db'
SameTables-IsCovered po db db' same covered =
    rw (SameTables-received po db db' same, SameTables-allocated po.id none db db' same) covered

pub NonNegative-of :
    (is : List Invoice) → All (λ (i : Invoice). IsAmount i.amount_minor) is → NonNegative is
NonNegative-of is h = All-imp {Q = λ (i : Invoice). pos 0 ≤ℤ i.amount_minor} (λ i k. k.0) is h

-- What is held is not negative.
filter-NonNegative :
    (p : Invoice → Bool) (is : List Invoice) → NonNegative is → NonNegative (filter p is)
filter-NonNegative p [] h = tt
filter-NonNegative p (i ∷ is) h = elim (Bool-cases (p i)) [
  | inl passes ↦ rw passes (h.0, filter-NonNegative p is h.1)
  | inr fails ↦ rw fails (filter-NonNegative p is h.1)
]

pub allocated_value-nonneg :
    (po : PurchaseOrder) (left_out : Option ℕ) (db : Db)
    → Ledger po db
    → pos 0 ≤ℤ allocated_value po.id left_out db
unfolding allocated_value
allocated_value-nonneg po left_out db ledger =
    sum_of_nonneg amount (filter (allocates po.id left_out) db.invoices) (
      filter-NonNegative (allocates po.id left_out) db.invoices
        (NonNegative-of db.invoices ledger.amounts))

-- What is received is not negative.
*ℤ_nonneg : (a b : ℤ) → pos 0 ≤ℤ a → pos 0 ≤ℤ b → pos 0 ≤ℤ (a *ℤ b)
unfolding ◌*ℤ◌
*ℤ_nonneg (pos a) (pos b) h k = ground arith
*ℤ_nonneg (pos a) (negsuc b) h k = absurd (ground arith)
*ℤ_nonneg (negsuc a) b h k = absurd (ground arith)

-- The line that is found is one of the lines.
line_at-some :
    (P : OrderLine → Type 0) (n : ℕ) (lines : List OrderLine) (l : OrderLine)
    → All P lines
    → line_at n lines ≡ some l
    → P l
unfolding line_at
line_at-some P n [] l h e = cc
line_at-some P n (k ∷ ls) l h e = elim (Option-cases (line_at n ls)) [
  | inl none_later ↦ let here : k ≡ l = ground arith in subst P here h.0
  | inr (found, later) ↦
      let same : found ≡ l = ground arith in subst P same (line_at-some P n ls found h.1 later)
]

price_of-nonneg :
    (lines : List OrderLine) (n : Option ℕ)
    → All (λ (l : OrderLine). pos 0 ≤ℤ l.unit_price_minor) lines
    → pos 0 ≤ℤ price_of lines n
price_of-nonneg lines none h = omega arith
price_of-nonneg lines (some n) h = elim (Option-cases (line_at n lines)) [
  | inl missing ↦ rw missing (omega arith)
  | inr (l, found) ↦
      rw found (line_at-some (λ (k : OrderLine). pos 0 ≤ℤ k.unit_price_minor) n lines l h found)
]

pub receipt_value-nonneg :
    (lines : List OrderLine) (r : Receipt)
    → All (λ (l : OrderLine). pos 0 ≤ℤ l.unit_price_minor) lines
    → HasQuantities r
    → pos 0 ≤ℤ receipt_value lines r
unfolding receipt_value
receipt_value-nonneg lines r prices quantities =
    sum_of_nonneg (λ (l : ReceiptLine). l.quantity *ℤ price_of lines l.line_no) r.lines
      (All-imp {Q = λ (l : ReceiptLine). pos 0 ≤ℤ (l.quantity *ℤ price_of lines l.line_no)}
        (λ l k.
          *ℤ_nonneg l.quantity (price_of lines l.line_no) k
            (price_of-nonneg lines l.line_no prices))
        r.lines quantities)

pub received_value-nonneg :
    (po : PurchaseOrder) (db : Db) → Ledger po db → pos 0 ≤ℤ received_value po db
unfolding received_value
received_value-nonneg po db ledger =
    sum_of_nonneg (receipt_value po.lines) (filter (counts_for po.id) db.receipts) (
      All-filter (λ r. pos 0 ≤ℤ receipt_value po.lines r) (counts_for po.id) db.receipts
        (All-imp {Q = λ r. pos 0 ≤ℤ receipt_value po.lines r}
          (λ r k. receipt_value-nonneg po.lines r ledger.prices k) db.receipts ledger.quantities))

-- An amount that the rest covers, on top of what is allocated.
pub Covers-add :
    (total received others allocated : ℤ)
    → Covers total (received -ℤ others)
    → pos 0 ≤ℤ others
    → allocated ≤ℤ others +ℤ total
    → Covers allocated received
Covers-add total received others allocated covers positive le =
    omega (int_laws, covers, positive, le)

pub Covers-mono :
    (allocated allocated' received received' : ℤ)
    → Covers allocated received
    → allocated' ≤ℤ allocated
    → received ≤ℤ received'
    → Covers allocated' received'
Covers-mono allocated allocated' received received' covers less more =
    omega (arith, covers, less, more)
