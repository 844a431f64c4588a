-- ===== src/Journal/Laws.antt =====
-- The journal of a payment run balances.
use aipms.Prelude.{
  ◌≡◌, ◌↔◌, refl, true, false, ◌&&◌, List, [], ◌∷◌, inl, inr, arith, Bool-cases, All, ◌∙◌,
}
use aipms.Prelude.Int.{ℤ, pos, ◌+ℤ◌, ◌≤ℤ◌, ltb_ℤ, eqb_ℤ, int_laws, sum_of, sum_of-append}
use aipms.Prelude.Text.{Text}
use aipms.Journal.{
  ManifestInvoice, ManifestInput, net_minor, entries_of, all_entries, build_journal_manifest,
  debit_of, credit_of, verify_balanced,
}

abbrev pub gross_minor : ManifestInvoice → ℤ
gross_minor inv = inv.amount_minor +ℤ inv.vat_minor

entries_of-debit :
    (currency : Text) (inv : ManifestInvoice)
    → sum_of debit_of (entries_of currency inv) ≡ gross_minor inv
unfolding entries_of sum_of
entries_of-debit currency inv = elim (Bool-cases (ltb_ℤ (pos 0) inv.ewt_minor)) [
  | inl withheld ↦ rw withheld (omega int_laws)
  | inr nothing ↦ rw nothing (omega int_laws)
]

entries_of-credit :
    (currency : Text) (inv : ManifestInvoice)
    → pos 0 ≤ℤ inv.ewt_minor
    → sum_of credit_of (entries_of currency inv) ≡ gross_minor inv
unfolding entries_of sum_of net_minor
entries_of-credit currency inv h = elim (Bool-cases (ltb_ℤ (pos 0) inv.ewt_minor)) [
  | inl withheld ↦ rw withheld (omega int_laws)
  | inr nothing ↦
      let zero_ewt : inv.ewt_minor ≡ pos 0 = is_zero inv.ewt_minor nothing h in
      rw nothing (rw zero_ewt (omega int_laws))
]
  where
    is_zero : (e : ℤ) → ltb_ℤ (pos 0) e ≡ false → pos 0 ≤ℤ e → e ≡ pos 0
    is_zero e n k = ground arith

all_entries-debit :
    (currency : Text) (invoices : List ManifestInvoice)
    → sum_of debit_of (all_entries currency invoices) ≡ sum_of gross_minor invoices
unfolding all_entries sum_of
all_entries-debit currency [] = refl
all_entries-debit currency (inv ∷ invoices) =
    sum_of-append debit_of (entries_of currency inv) (all_entries currency invoices)
    ∙ rw (entries_of-debit currency inv, all_entries-debit currency invoices)

all_entries-credit :
    (currency : Text) (invoices : List ManifestInvoice)
    → All (λ (inv : ManifestInvoice). pos 0 ≤ℤ inv.ewt_minor) invoices
    → sum_of credit_of (all_entries currency invoices) ≡ sum_of gross_minor invoices
unfolding all_entries sum_of
all_entries-credit currency [] h = refl
all_entries-credit currency (inv ∷ invoices) h =
    sum_of-append credit_of (entries_of currency inv) (all_entries currency invoices)
    ∙ rw (entries_of-credit currency inv h.0, all_entries-credit currency invoices h.1)

net-gross :
    (invoices : List ManifestInvoice)
    → sum_of net_minor invoices +ℤ sum_of (λ (i : ManifestInvoice). i.ewt_minor) invoices
      ≡ sum_of gross_minor invoices
unfolding sum_of net_minor
net-gross [] = omega int_laws
net-gross (inv ∷ invoices) = rw (← net-gross invoices) (omega int_laws)

-- With no negative withholding, the debits and the credits of a journal are both the sum of gross
-- plus VAT of its invoices; it is found balanced exactly when that sum is positive; and its total
-- is that sum less what is withheld.
pub build_journal_manifest_balances :
    (input : ManifestInput)
    → All (λ (inv : ManifestInvoice). pos 0 ≤ℤ inv.ewt_minor) input.invoices
    → let manifest = build_journal_manifest input in
      let check = verify_balanced manifest in
      (check.debits_minor ≡ sum_of gross_minor input.invoices)
      × (check.credits_minor ≡ sum_of gross_minor input.invoices)
      × ((check.balanced ≡ true) ↔ ¬ (sum_of gross_minor input.invoices ≤ℤ pos 0))
      × (manifest.total_minor +ℤ sum_of (λ (i : ManifestInvoice). i.ewt_minor) input.invoices
          ≡ sum_of gross_minor input.invoices)
unfolding build_journal_manifest verify_balanced
build_journal_manifest_balances input h =
    let d = all_entries-debit input.currency_code input.invoices in
    let c = all_entries-credit input.currency_code input.invoices h in
    (d, c, rw (d, c) (balance (sum_of gross_minor input.invoices)), net-gross input.invoices)
  where
    balance : (s : ℤ) → ((eqb_ℤ s s && ltb_ℤ (pos 0) s) ≡ true) ↔ ¬ (s ≤ℤ pos 0)
    balance s = (λ h. ground arith, λ h. ground arith)
