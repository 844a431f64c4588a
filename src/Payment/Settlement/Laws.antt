-- ===== src/Payment/Settlement/Laws.antt =====
-- What the settlement of an invoice does to its budget.
use aipms.Prelude.{
  ℕ, ◌≡◌, refl, Bool, true, false, Option, none, some, List, [], ◌∷◌, inl, inr, arith, Bool-cases,
  Option-cases, find?, update_where, All, All-imp, is_ref, find?-some-holds, ◌∙◌, ◌==◌, ok,
}
use aipms.Prelude.Int.{ℤ, pos, ◌+ℤ◌, ◌-ℤ◌, ◌≤ℤ◌, ltb_ℤ, int_laws, sum_of}
use aipms.Prelude.Rows.{find?-update_where}
use aipms.Database.{Db, Invoice, Budget, is_invoice_paid}
use aipms.Payment.Settlement.{settle_budget, set_paid, charge, charged_budget, settle_paid_invoice}

-- What a budget has bound: committed and spent.
abbrev pub bound_minor : Budget → ℤ
bound_minor b = b.committed_minor +ℤ b.spent_minor

covered-bound :
    (amount : ℤ) (b : Budget)
    → amount ≤ℤ b.committed_minor
    → bound_minor (settle_budget amount b) ≡ bound_minor b
covered-bound amount b h =
    let enough : ltb_ℤ (b.committed_minor -ℤ amount) (pos 0) ≡ false =
      covers (b.committed_minor -ℤ amount) (omega int_laws) in
    rw enough (omega int_laws)
  where
    covers : (r : ℤ) → pos 0 ≤ℤ r → ltb_ℤ r (pos 0) ≡ false
    covers r k = ground arith

sum_of-update_where :
    (g : Budget → ℤ) (p : Budget → Bool) (f : Budget → Budget) (bs : List Budget)
    → All (λ b. p b ≡ true → g (f b) ≡ g b) bs
    → sum_of g (update_where p f bs) ≡ sum_of g bs
unfolding sum_of
sum_of-update_where g p f [] h = refl
sum_of-update_where g p f (b ∷ bs) h = elim (Bool-cases (p b)) [
  | inl t ↦ rw (t, h.0 t, sum_of-update_where g p f bs h.1)
  | inr t ↦ rw (t, sum_of-update_where g p f bs h.1)
]

charge-bound :
    (budget : Option ℕ) (amount : ℤ) (db : Db)
    → All (λ (b : Budget). is_ref b.id budget ≡ true → amount ≤ℤ b.committed_minor) db.budgets
    → sum_of bound_minor (charge budget amount db).budgets ≡ sum_of bound_minor db.budgets
unfolding charge
charge-bound none amount db h = refl
charge-bound (some id) amount db h =
    sum_of-update_where bound_minor (λ (b : Budget). b.id == id) (settle_budget amount) db.budgets
      (All-imp (λ b k t. covered-bound amount b (k t)) db.budgets h)

-- The settlement of an invoice, where the budget it is charged to has committed at least its
-- amount, keeps the sum over all budgets of what is committed and spent.
pub settle_paid_invoice_conserves :
    (id : ℕ) (db db' : Db) (invoice : Invoice)
    → find? (λ (i : Invoice). i.id == id) db.invoices ≡ some invoice
    → All
        (λ (b : Budget).
          is_ref b.id (charged_budget db invoice) ≡ true
          → invoice.amount_minor ≤ℤ b.committed_minor)
        db.budgets
    → settle_paid_invoice id db ≡ ok (tt, db')
    → sum_of bound_minor db'.budgets ≡ sum_of bound_minor db.budgets
unfolding settle_paid_invoice
settle_paid_invoice_conserves id db db' invoice found covered h =
    elim (Bool-cases (is_invoice_paid invoice.status)) [
      | inl already ↦ let same : db ≡ db' = ground arith in rw (← same)
      | inr first ↦
          let settled : Db = record db {
            invoices = update_where (λ (i : Invoice). i.id == id) set_paid db.invoices;
          } in
          let written : charge (charged_budget db invoice) invoice.amount_minor settled ≡ db' =
            ground arith in
          rw (← written)
            (charge-bound (charged_budget db invoice) invoice.amount_minor settled covered)
    ]

charge-invoices :
    (budget : Option ℕ) (amount : ℤ) (db : Db) → (charge budget amount db).invoices ≡ db.invoices
unfolding charge
charge-invoices none amount db = refl
charge-invoices (some id) amount db = refl

-- A settlement that went through, repeated on the tables it left, goes through and changes
-- nothing.
pub settle_paid_invoice_once :
    (id : ℕ) (db db' : Db)
    → settle_paid_invoice id db ≡ ok (tt, db')
    → settle_paid_invoice id db' ≡ ok (tt, db')
unfolding settle_paid_invoice
settle_paid_invoice_once id db db' h =
    elim (Option-cases (find? (λ (i : Invoice). i.id == id) db.invoices)) [
      | inl missing ↦ absurd (ground arith)
      | inr (invoice, found) ↦ elim (Bool-cases (is_invoice_paid invoice.status)) [
        | inl already ↦ let same : db ≡ db' = ground arith in rw (← same) (rw (found, already))
        | inr first ↦
            let settled : Db = record db {
              invoices = update_where (λ (i : Invoice). i.id == id) set_paid db.invoices;
            } in
            let written : charge (charged_budget db invoice) invoice.amount_minor settled ≡ db' =
              ground arith in
            let invoices : db'.invoices
                ≡ update_where (λ (i : Invoice). i.id == id) set_paid db.invoices =
              rw (← written)
                (charge-invoices (charged_budget db invoice) invoice.amount_minor settled) in
            let next : find? (λ (i : Invoice). i.id == id) db'.invoices ≡ some (set_paid invoice) =
              rw invoices (
                find?-update_where (λ (i : Invoice). i.id == id) (λ (i : Invoice). i.id == id)
                  set_paid db.invoices invoice (λ i. refl) found
                ∙ rw (find?-some-holds (λ (i : Invoice). i.id == id) db.invoices invoice found)) in
            rw next
      ]
    ]
