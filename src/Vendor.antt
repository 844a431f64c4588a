-- ===== src/Vendor.antt =====
-- Vendors, apps/api/src/vendor/vendor.service.ts: the control of bank accounts by two users. A JSON account has each
-- field's text where the field is there and not null (`String(account.bank ?? '')`).
pub mod Accounts
mod Tests
use aipms.Prelude.{
  ℕ, Bool, true, false, not, ◌&&◌, ◌||◌, Option, none, some, List, [], ◌∷◌, Error, Result, ok, err,
  find?, update_where, eq_opt, is_some, or_else, ◌==◌, if◌then◌else◌,
}
use aipms.Prelude.Text.{Text, text_eq, trim}
use aipms.Payment.Beneficiary.{is_empty}
use aipms.Database.{
  Db, Vendor, RawAccount, BatchBeneficiary, Tx, ◌>>=◌, ◌>>◌, pure, lift, gets, modify, or_throw,
  throw_if,
}

abbrev pub first_text : Option Text → Option Text → Option Text
first_text none other = other
first_text (some t) other = some t

-- `normalizeBankAccount`
unfoldable pub normalize_bank_account : RawAccount → BatchBeneficiary
normalize_bank_account RawAccount.no_object = record { bank = []; account_number = []; holder = [] }
normalize_bank_account (RawAccount.object bank account_number account_no holder) = record {
  bank = trim (or_else bank []);
  account_number = trim (or_else (first_text account_number account_no) []);
  holder = trim (or_else holder []);
}

-- Equality of the texts that `JSON.stringify` makes of two normalized accounts.
abbrev pub is_same_account : BatchBeneficiary → BatchBeneficiary → Bool
is_same_account a b =
    text_eq a.bank b.bank && text_eq a.account_number b.account_number && text_eq a.holder b.holder

abbrev pub is_previous : Option RawAccount → BatchBeneficiary → Bool
is_previous none next = false
is_previous (some stored) next = is_same_account (normalize_bank_account stored) next

abbrev pub is_incomplete : BatchBeneficiary → Bool
is_incomplete a = is_empty a.bank || is_empty a.account_number || is_empty a.holder

-- The JSON that is stored of a normalized account.
abbrev pub stored_account : BatchBeneficiary → RawAccount
stored_account a = RawAccount.object (some a.bank) (some a.account_number) none (some a.holder)

abbrev pub set_verified : ℕ → ℕ → Vendor → Vendor
set_verified actor_id now v = record v {
  bank_account_verified_at = some now;
  bank_account_verified_by = some actor_id;
  bank_account_changed_at = none;
  bank_account_submitted_by = none;
}

abbrev pub set_submitted : BatchBeneficiary → ℕ → ℕ → Vendor → Vendor
set_submitted next actor_id now v = record v {
  bank_account = some (stored_account next);
  bank_account_verified_at = none;
  bank_account_verified_by = none;
  bank_account_changed_at = some now;
  bank_account_submitted_by = some actor_id;
}

-- What becomes of a vendor whose account is given.
unfoldable pub verified_or_submitted : BatchBeneficiary → ℕ → ℕ → Vendor → Result Vendor
verified_or_submitted next actor_id now v =
    if is_some v.bank_account_changed_at && is_previous v.bank_account next
    then (if eq_opt v.bank_account_submitted_by (some actor_id)
        then err (Error.forbidden "Beneficiary verification requires a different finance user")
        else ok (set_verified actor_id now v))
    else if is_previous v.bank_account next && is_some v.bank_account_verified_at
    then ok v
    else ok (set_submitted next actor_id now v)

abbrev pub find_vendor : ℕ → Db → Option Vendor
find_vendor id db = find? (λ (v : Vendor). v.id == id) db.vendors

-- The columns of the account, as they are written.
abbrev pub set_account : Vendor → Vendor → Vendor
set_account row v = record v {
  bank_account = row.bank_account;
  bank_account_verified_at = row.bank_account_verified_at;
  bank_account_verified_by = row.bank_account_verified_by;
  bank_account_changed_at = row.bank_account_changed_at;
  bank_account_submitted_by = row.bank_account_submitted_by;
}

abbrev pub write_account : ℕ → Vendor → Db → Db
write_account id row db = record db {
  vendors = update_where (λ (v : Vendor). v.id == id) (set_account row) db.vendors;
}

unfoldable pub verify_bank_account : ℕ → RawAccount → ℕ → ℕ → Tx Vendor
verify_bank_account id account actor_id now = do
  found ← gets (find_vendor id)
  vendor ← or_throw found (Error.not_found "Vendor not found")
  throw_if (is_incomplete (normalize_bank_account account))
      (Error.bad_request "Bank, account number, and holder are required")
  row ← lift (verified_or_submitted (normalize_bank_account account) actor_id now vendor)
  modify (write_account id row)
  pure row
