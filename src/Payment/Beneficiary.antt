-- ===== src/Payment/Beneficiary.antt =====
-- Beneficiary accounts: `parseBeneficiary` of payment-run/batch.ts and
-- payment-run/beneficiary-snapshot.ts, with the check of its schema written out.
use aipms.Prelude.{
  Bool, true, false, not, ◌&&◌, ◌||◌, Option, none, some, [], ◌∷◌, Result, ok, err, Error, is_some,
  or_else, if◌then◌else◌,
}
use aipms.Prelude.Text.{Text, trim}
use aipms.Database.{RawAccount, BatchBeneficiary, Vendor, Snapshot}

abbrev pub is_empty : Text → Bool
is_empty [] = true
is_empty (c ∷ s) = false

-- `typeof value === 'string' ? value.trim() : ''`
abbrev pub trimmed : Option Text → Text
trimmed none = []
trimmed (some s) = trim s

unfoldable pub parse_beneficiary : RawAccount → Option BatchBeneficiary
parse_beneficiary RawAccount.no_object = none
parse_beneficiary (RawAccount.object bank account_number account_no holder) =
    let number = if is_some account_number then trimmed account_number else trimmed account_no in
    if is_empty (trimmed bank) || is_empty number || is_empty (trimmed holder)
    then none
    else some (record { bank = trimmed bank; account_number = number; holder = trimmed holder })

-- A column that is null is no object.
abbrev pub account_of : Vendor → RawAccount
account_of vendor = or_else vendor.bank_account RawAccount.no_object

-- `vendor.bankAccountVerifiedAt`, `...By` set, and no change pending.
unfoldable pub is_verified : Vendor → Bool
is_verified vendor =
    is_some vendor.bank_account_verified_at
    && is_some vendor.bank_account_verified_by
    && not (is_some vendor.bank_account_changed_at)
    && not (is_some vendor.bank_account_submitted_by)

-- `z.string().min(1)` on the parts that are not ids.
unfoldable pub snapshot_schema : Snapshot → Bool
snapshot_schema s =
    not (is_empty s.invoice_number)
    && not (is_empty s.vendor_name)
    && not (is_empty s.bank_account.bank)
    && not (is_empty s.bank_account.account_number)
    && not (is_empty s.bank_account.holder)

abbrev snapshot_of : Text → Vendor → BatchBeneficiary → Snapshot
snapshot_of invoice_number vendor account = record {
  invoice_number = invoice_number;
  vendor_id = vendor.id;
  vendor_name = vendor.name;
  vendor_tax_id = vendor.tax_id;
  bank_account = account;
}

abbrev checked : Snapshot → Result Snapshot
checked s =
    if snapshot_schema s then ok s else err (Error.plain_error "Invalid beneficiary snapshot")

unfoldable pub freeze_beneficiary : Text → Vendor → Result Snapshot
freeze_beneficiary invoice_number vendor = elim (parse_beneficiary (account_of vendor)) [
  | none ↦ err (Error.plain_error "Unverified beneficiary account")
  | some account ↦
      if is_verified vendor
      then checked (snapshot_of invoice_number vendor account)
      else err (Error.plain_error "Unverified beneficiary account")
]
