-- ===== src/Payment/Claims/Invoices.antt =====
-- Which invoices are paid, before and after a settlement.
use aipms.Prelude.{
  ℕ, ◌≤◌, ◌≡◌, refl, subst, Bool, true, false, Option, none, some, List, [], ◌∷◌, inl, inr, arith,
  Bool-cases, Option-cases, find?, count, update_where, All-of, ◌==◌, ok,
}
use aipms.Prelude.Int.{ℤ}
use aipms.Prelude.Rows.{count-update_where-le}
use aipms.Database.{Db, Invoice, is_invoice_paid}
use aipms.Payment.Settlement.{set_paid, charge, charged_budget, settle_paid_invoice}
use aipms.Payment.Run.{Settlement, settle}
use aipms.Payment.Claims.{all_paid}

abbrev has_id : ℕ → Invoice → Bool
has_id k i = i.id == k

all_paid-update :
    (k id : ℕ) (xs : List Invoice)
    → all_paid xs k ≡ true
    → all_paid (update_where (has_id id) set_paid xs) k ≡ true
unfolding all_paid
all_paid-update k id [] h = refl
all_paid-update k id (x ∷ xs) h = ground (arith, all_paid-update k id xs)

all_paid-update_self :
    (k : ℕ) (xs : List Invoice) → all_paid (update_where (has_id k) set_paid xs) k ≡ true
unfolding all_paid
all_paid-update_self k [] = refl
all_paid-update_self k (x ∷ xs) = ground (arith, all_paid-update_self k xs)

all_paid-none : (k : ℕ) (xs : List Invoice) → count (has_id k) xs ≡ 0 → all_paid xs k ≡ true
unfolding all_paid
all_paid-none k [] h = refl
all_paid-none k (x ∷ xs) h = ground (arith, all_paid-none k xs)

-- An id has one row, so the row that is found speaks for the invoice.
all_paid-find? :
    (k : ℕ) (xs : List Invoice) {i : Invoice}
    → count (has_id k) xs ≤ 1
    → find? (has_id k) xs ≡ some i
    → is_invoice_paid i.status ≡ true
    → all_paid xs k ≡ true
unfolding all_paid
all_paid-find? k [] h e p = refl
all_paid-find? k (x ∷ xs) {i = i} h e p =
    ground (arith, all_paid-none k xs, all_paid-find? k xs {i = i})

-- What a settlement leaves alone, and what it makes of the invoices.
pub record Settles (id : ℕ) (paid : Bool) (db db' : Db) : Type 0 where
  pub same_lines : db'.payment_run_lines ≡ db.payment_run_lines
  pub same_runs : db'.payment_runs ≡ db.payment_runs
  pub same_next : db'.next_id ≡ db.next_id
  pub still_paid : (k : ℕ) → all_paid db.invoices k ≡ true → all_paid db'.invoices k ≡ true
  pub now_paid : paid ≡ true → all_paid db'.invoices id ≡ true
  pub invoice_ids : (k : ℕ) → count (has_id k) db'.invoices ≤ count (has_id k) db.invoices

nothing_settled :
    (id : ℕ) (paid : Bool) (db : Db)
    → (paid ≡ true → all_paid db.invoices id ≡ true)
    → Settles id paid db db
nothing_settled id paid db h = record {
  same_lines = refl;
  same_runs = refl;
  same_next = refl;
  still_paid = λ k e. e;
  now_paid = h;
  invoice_ids = λ k. omega arith;
}

charge-Settles :
    (id : ℕ) (budget : Option ℕ) (amount : ℤ) (db : Db)
    → Settles id true db (
        charge budget amount
          (record db { invoices = update_where (has_id id) set_paid db.invoices }))
unfolding charge
charge-Settles id none amount db = record {
  same_lines = refl;
  same_runs = refl;
  same_next = refl;
  still_paid = λ k. all_paid-update k id db.invoices;
  now_paid = λ _. all_paid-update_self id db.invoices;
  invoice_ids = λ k.
      count-update_where-le (has_id id) (has_id k) set_paid db.invoices
        (All-of (λ x p q. q) db.invoices);
}
charge-Settles id (some b) amount db = record {
  same_lines = refl;
  same_runs = refl;
  same_next = refl;
  still_paid = λ k. all_paid-update k id db.invoices;
  now_paid = λ _. all_paid-update_self id db.invoices;
  invoice_ids = λ k.
      count-update_where-le (has_id id) (has_id k) set_paid db.invoices
        (All-of (λ x p q. q) db.invoices);
}

settle_paid-Settles :
    (id : ℕ) (db db' : Db)
    → count (has_id id) db.invoices ≤ 1
    → settle_paid_invoice id db ≡ ok (tt, db')
    → Settles id true db db'
unfolding settle_paid_invoice
settle_paid-Settles id db db' one h = elim (Option-cases (find? (has_id id) db.invoices)) [
  | inl missing ↦ absurd (ground arith)
  | inr (i, found) ↦ elim (Bool-cases (is_invoice_paid i.status)) [
    | inl paid ↦
        let same : db ≡ db' = ground arith in
        subst (λ d. Settles id true db d) same
          (nothing_settled id true db (λ _. all_paid-find? id db.invoices one found paid))
    | inr unpaid ↦
        let eq : charge (charged_budget db i) i.amount_minor
              (record db { invoices = update_where (has_id id) set_paid db.invoices })
            ≡ db' =
          ground arith in
        subst (λ d. Settles id true db d) eq
          (charge-Settles id (charged_budget db i) i.amount_minor db)
  ]
]

abbrev pub pays : Settlement → Bool
pays Settlement.paid = true
pays Settlement.dishonored = false
pays Settlement.rejected = false

pub settle-Settles :
    (s : Settlement) (id : ℕ) (db db' : Db)
    → count (has_id id) db.invoices ≤ 1
    → settle s id db ≡ ok (tt, db')
    → Settles id (pays s) db db'
unfolding settle
settle-Settles Settlement.paid id db db' one h = settle_paid-Settles id db db' one h
settle-Settles Settlement.dishonored id db db' one h =
    let same : db ≡ db' = ground arith in
    subst (λ d. Settles id false db d) same (nothing_settled id false db (λ e. cc))
settle-Settles Settlement.rejected id db db' one h =
    let same : db ≡ db' = ground arith in
    subst (λ d. Settles id false db d) same (nothing_settled id false db (λ e. cc))
