-- ===== src/Journal.antt =====
-- The journal export, apps/api/src/erp/journal.ts: the entries of a payment run, and the check that
-- they balance. The texts of memo, hash and CSV are not kept.
pub mod Laws
mod Tests
use aipms.Prelude.{Bool, true, false, ◌&&◌, Option, List, [], ◌∷◌, ◌++◌, if◌then◌else◌, ℕ}
use aipms.Prelude.Int.{ℤ, pos, ◌+ℤ◌, ◌-ℤ◌, ltb_ℤ, eqb_ℤ, sum_of}
use aipms.Prelude.Text.{Text}

pub data Account : Type 0 where
  accounts_payable ewt_withholding_payable cash_clearing : Account

pub data Side : Type 0 where
  debit credit : Side

pub record ManifestInvoice : Type 0 where
  pub invoice_id : ℕ
  pub invoice_number : Text
  pub vendor_name : Text
  pub vendor_tax_id : Option Text
  pub amount_minor : ℤ
  pub vat_minor : ℤ
  pub ewt_minor : ℤ

pub record ManifestInput : Type 0 where
  pub run_number : Text
  pub executed_at : ℕ
  pub currency_code : Text
  pub invoices : List ManifestInvoice

pub record JournalEntry : Type 0 where
  pub invoice_id : ℕ
  pub invoice_number : Text
  pub vendor_name : Text
  pub vendor_tax_id : Option Text
  pub account : Account
  pub side : Side
  pub amount_minor : ℤ
  pub currency_code : Text

pub record JournalManifest : Type 0 where
  pub run_number : Text
  pub executed_at : ℕ
  pub currency_code : Text
  pub total_minor : ℤ
  pub entries : List JournalEntry

unfoldable pub net_minor : ManifestInvoice → ℤ
net_minor inv = inv.amount_minor +ℤ inv.vat_minor -ℤ inv.ewt_minor

abbrev entry : Text → ManifestInvoice → Account → Side → ℤ → JournalEntry
entry currency inv account side amount = record {
  invoice_id = inv.invoice_id;
  invoice_number = inv.invoice_number;
  vendor_name = inv.vendor_name;
  vendor_tax_id = inv.vendor_tax_id;
  account = account;
  side = side;
  amount_minor = amount;
  currency_code = currency;
}

-- The body of the loop over the invoices.
unfoldable pub entries_of : Text → ManifestInvoice → List JournalEntry
entries_of currency inv =
    let payment = entry currency inv Account.cash_clearing Side.credit (net_minor inv) ∷ [] in
    entry currency inv Account.accounts_payable Side.debit (inv.amount_minor +ℤ inv.vat_minor)
    ∷ (if ltb_ℤ (pos 0) inv.ewt_minor
        then entry currency inv Account.ewt_withholding_payable Side.credit inv.ewt_minor ∷ payment
        else payment)

unfoldable pub all_entries : Text → List ManifestInvoice → List JournalEntry
all_entries currency [] = []
all_entries currency (inv ∷ invoices) = entries_of currency inv ++ all_entries currency invoices

unfoldable pub build_journal_manifest : ManifestInput → JournalManifest
build_journal_manifest input = record {
  run_number = input.run_number;
  executed_at = input.executed_at;
  currency_code = input.currency_code;
  total_minor = sum_of net_minor input.invoices;
  entries = all_entries input.currency_code input.invoices;
}

abbrev pub debit_of : JournalEntry → ℤ
debit_of e = elim e.side [ Side.debit ↦ e.amount_minor | Side.credit ↦ pos 0 ]

abbrev pub credit_of : JournalEntry → ℤ
credit_of e = elim e.side [ Side.debit ↦ pos 0 | Side.credit ↦ e.amount_minor ]

pub record Balance : Type 0 where
  pub balanced : Bool
  pub debits_minor : ℤ
  pub credits_minor : ℤ

-- The loop keeps one sum for each side.
unfoldable pub verify_balanced : JournalManifest → Balance
verify_balanced manifest =
    let debits = sum_of debit_of manifest.entries in
    let credits = sum_of credit_of manifest.entries in
    record {
      balanced = eqb_ℤ debits credits && ltb_ℤ (pos 0) credits;
      debits_minor = debits;
      credits_minor = credits;
    }
