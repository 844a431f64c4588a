-- ===== src/Vendor/Tests.antt =====
-- Bank accounts of a vendor on sample tables.
use aipms.Prelude.{ℕ, ◌≡◌, refl, Option, some, none, List, [], ◌∷◌, find?}
use aipms.Prelude.Text.{Text}
use aipms.Database.{Db, Vendor}
use aipms.Database.Samples.{account, vendor, tables}
use aipms.Vendor.{find_vendor, verify_bank_account}
use aipms.Vendor.Accounts.{Attempt, IsBacked, run_attempts, verified_by_two}

abbrev without_account : Vendor
without_account = record vendor {
  bank_account = none;
  bank_account_verified_at = none;
  bank_account_verified_by = none;
}

abbrev before : Db
before = record tables { vendors = without_account ∷ [] }

abbrev gives : ℕ → ℕ → Attempt
gives who now = record { account = account; actor_id = who; now = now }

abbrev attempts : List Attempt
attempts = gives 1 10 ∷ gives 1 11 ∷ gives 2 12 ∷ []

-- The second call of the same user throws; that of another verifies.
abbrev checked_by : Option Vendor → Option ℕ
checked_by none = none
checked_by (some v) = v.bank_account_verified_by

verified-by_other : checked_by (find_vendor 7 (run_attempts 7 attempts before)) ≡ some 2
unfolding run_attempts verify_bank_account aipms.Vendor.normalize_bank_account
    aipms.Prelude.Text.trim aipms.Prelude.Text.trim_start aipms.Prelude.Text.is_space
    aipms.Vendor.verified_or_submitted aipms.Prelude.Text.text_eq
verified-by_other = refl

verified_by_two_example :
    (w : Vendor) × (find_vendor 7 (run_attempts 7 attempts before) ≡ some w) × IsBacked attempts w
verified_by_two_example = verified_by_two 7 attempts before without_account refl refl refl
