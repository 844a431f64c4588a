-- ===== src/Payment/Settlement/Tests.antt =====
-- The settlement of the sample invoice.
use aipms.Prelude.{◌≡◌, refl, [], ◌∷◌, ok, arith}
use aipms.Prelude.Int.{pos, sum_of, ◌-ℤ◌, ◌+ℤ◌}
use aipms.Database.{Db}
use aipms.Database.Samples.{tables, invoice, budget}
use aipms.Payment.Settlement.{settle_paid_invoice, set_paid, charged_budget, charge}
use aipms.Payment.Settlement.Laws.{
  bound_minor, settle_paid_invoice_conserves, settle_paid_invoice_once,
}

abbrev settled : Db
settled = record tables {
  invoices = set_paid invoice ∷ [];
  budgets = record budget { committed_minor = pos 2000; spent_minor = pos 1000 } ∷ [];
}

settles : settle_paid_invoice 30 tables ≡ ok (tt, settled)
unfolding settle_paid_invoice charged_budget charge ◌-ℤ◌ ◌+ℤ◌
settles = refl

settle_paid_invoice_conserves_example :
    sum_of bound_minor settled.budgets ≡ sum_of bound_minor tables.budgets
settle_paid_invoice_conserves_example =
    settle_paid_invoice_conserves 30 tables settled invoice refl (λ _. omega arith, tt) settles

settle_paid_invoice_once_example : settle_paid_invoice 30 settled ≡ ok (tt, settled)
settle_paid_invoice_once_example = settle_paid_invoice_once 30 tables settled settles
