-- ===== src/Vendor/Accounts.antt =====
-- Two users for each account: an account that is verified was given by one user and given again, the same, by
-- another.
use aipms.Prelude.{
  ℕ, ◌≡◌, ◌≢◌, refl, sym, subst, ap, ◌∙◌, Bool, true, false, ◌&&◌, inl, inr, Option, none, some,
  List, [], ◌∷◌, Result, ok, err, arith, Bool-cases, Result-cases, any, is_some, eq_opt, or_else,
  find?-some-holds, All, ◌==◌, ==-refl,
}
use aipms.Prelude.Text.{Text, text_eq, text_eq_refl, trim, trim_start}
use aipms.Prelude.Text.Trim.{trim_idem}
use aipms.Prelude.Rows.{find?-update_where, All-any}
use aipms.Database.{Db, Vendor, RawAccount}
use aipms.Vendor.{
  first_text, normalize_bank_account, is_previous, stored_account, set_verified, set_submitted,
  verified_or_submitted, set_account, write_account, find_vendor, verify_bank_account,
}

-- A call: who gives which account, and when.
pub record Attempt : Type 0 where
  pub account : RawAccount
  pub actor_id : ℕ
  pub now : ℕ

-- The calls for one vendor, in their order; one that throws changes nothing.
abbrev pub kept : Db → Result (Vendor × Db) → Db
kept db (ok (v, db')) = db'
kept db (err e) = db

unfoldable pub run_attempts : ℕ → List Attempt → Db → Db
run_attempts id [] db = db
run_attempts id (a ∷ as') db =
    run_attempts id as' (kept db (verify_bank_account id a.account a.actor_id a.now db))

-- One of the calls is of this user, with the account that is stored.
abbrev pub has_given : List Attempt → Option RawAccount → ℕ → Bool
has_given attempts stored who =
    any
      (λ (a : Attempt). a.actor_id == who && is_previous stored (normalize_bank_account a.account))
      attempts

-- What the columns of a vendor stand for: a change that waits was given by the user it names, and a verified
-- account was given by two users.
pub record IsBacked (attempts : List Attempt) (v : Vendor) : Type 0 where
  pub waiting :
      is_some v.bank_account_changed_at ≡ true
      → (who : ℕ) × (v.bank_account_submitted_by ≡ some who)
        × (has_given attempts v.bank_account who ≡ true)
  pub verified :
      is_some v.bank_account_verified_at ≡ true
      → (maker : ℕ) × (checker : ℕ) × (maker ≢ checker)
        × (has_given attempts v.bank_account maker ≡ true)
        × (has_given attempts v.bank_account checker ≡ true)

-- A call that is among the calls.
abbrev pub IsAmong : List Attempt → Attempt → Type 0
IsAmong attempts a = (p : Attempt → Bool) → p a ≡ true → any p attempts ≡ true

same_texts :
    (bank number holder : Text)
    → (text_eq (trim (trim bank)) (trim bank)
        && text_eq (trim (trim number)) (trim number)
        && text_eq (trim (trim holder)) (trim holder))
      ≡ true
same_texts bank number holder =
    rw (trim_idem bank, trim_idem number, trim_idem holder)
      (rw (text_eq_refl (trim bank), text_eq_refl (trim number), text_eq_refl (trim holder)) refl)

-- What is stored of an account is that account again.
stored-same :
    (account : RawAccount)
    → is_previous
        (some (stored_account (normalize_bank_account account)))
        (normalize_bank_account account)
      ≡ true
unfolding normalize_bank_account trim trim_start text_eq
stored-same RawAccount.no_object = refl
stored-same (RawAccount.object bank number number_no holder) =
    same_texts (or_else bank []) (or_else (first_text number number_no) []) (or_else holder [])

module _ (attempts : List Attempt) (a : Attempt) (v : Vendor) (among : IsAmong attempts a)
    (backed : IsBacked attempts v) where
  gives :
      (stored : Option RawAccount)
      → is_previous stored (normalize_bank_account a.account) ≡ true
      → has_given attempts stored a.actor_id ≡ true
  gives stored same =
      among
        (λ (b : Attempt).
          b.actor_id == a.actor_id && is_previous stored (normalize_bank_account b.account))
        (rw same (ground (arith, ==-refl a.actor_id)))

  submitted-IsBacked :
      IsBacked attempts (set_submitted (normalize_bank_account a.account) a.actor_id a.now v)
  submitted-IsBacked = record {
    waiting = λ _. (
      a.actor_id,
      refl,
      gives (some (stored_account (normalize_bank_account a.account))) (stored-same a.account),
    );
    verified = λ h. absurd (ground arith);
  }

  differ :
      (maker : ℕ)
      → eq_opt v.bank_account_submitted_by (some a.actor_id) ≡ false
      → v.bank_account_submitted_by ≡ some maker
      → maker ≢ a.actor_id
  differ maker other by e = ground arith

  verified-IsBacked :
      is_previous v.bank_account (normalize_bank_account a.account) ≡ true
      → is_some v.bank_account_changed_at ≡ true
      → eq_opt v.bank_account_submitted_by (some a.actor_id) ≡ false
      → IsBacked attempts (set_verified a.actor_id a.now v)
  verified-IsBacked same changed other = record {
    waiting = λ h. absurd (ground arith);
    verified = λ _.
        let (maker, by, given) = backed.waiting changed in
        (maker, a.actor_id, differ maker other by, given, gives v.bank_account same);
  }

  verified_or_submitted-IsBacked :
      (v' : Vendor)
      → verified_or_submitted (normalize_bank_account a.account) a.actor_id a.now v ≡ ok v'
      → IsBacked attempts v'
  unfolding verified_or_submitted
  verified_or_submitted-IsBacked v' h =
      let next = normalize_bank_account a.account in
      elim (Bool-cases (is_previous v.bank_account next)) [
        | inl same ↦ elim (Bool-cases (is_some v.bank_account_changed_at)) [
          | inl changed ↦
              let other : eq_opt v.bank_account_submitted_by (some a.actor_id) ≡ false =
                ground arith in
              let e : set_verified a.actor_id a.now v ≡ v' = ground arith in
              subst (IsBacked attempts) e (verified-IsBacked same changed other)
          | inr still ↦ elim (Bool-cases (is_some v.bank_account_verified_at)) [
            | inl done ↦ let e : v ≡ v' = ground arith in subst (IsBacked attempts) e backed
            | inr undone ↦
                let e : set_submitted next a.actor_id a.now v ≡ v' = ground arith in
                subst (IsBacked attempts) e submitted-IsBacked
          ]
        ]
        | inr other ↦
            let e : set_submitted next a.actor_id a.now v ≡ v' = ground arith in
            subst (IsBacked attempts) e submitted-IsBacked
      ]

set_account-IsBacked :
    (attempts : List Attempt) (row v : Vendor)
    → IsBacked attempts row
    → IsBacked attempts (set_account row v)
set_account-IsBacked attempts row v backed = record {
  waiting = backed.waiting;
  verified = backed.verified;
}

verify_bank_account-IsBacked :
    (attempts : List Attempt) (id : ℕ) (a : Attempt) (db : Db) (v : Vendor)
    → IsAmong attempts a
    → find_vendor id db ≡ some v
    → IsBacked attempts v
    → (w : Vendor) × (find_vendor id
          (kept db (verify_bank_account id a.account a.actor_id a.now db))
        ≡ some w)
      × IsBacked attempts w
unfolding verify_bank_account
verify_bank_account-IsBacked attempts id a db v among found backed =
    let has_id = λ (x : Vendor). x.id == id in
    elim (Result-cases (verify_bank_account id a.account a.actor_id a.now db)) [
      | inl (e, failed) ↦ rw (failed, kept) (v, found, backed)
      | inr ((given, db'), passed) ↦
          elim (Result-cases
            (verified_or_submitted (normalize_bank_account a.account) a.actor_id a.now v)) [
              | inl (e, thrown) ↦ absurd (ground arith)
              | inr (row, written) ↦
                  let e : write_account id row db ≡ db' = ground arith in
                  let key = find?-some-holds has_id db.vendors v found in
                  let after =
                    find?-update_where has_id has_id (set_account row) db.vendors v (λ x. refl)
                      found
                    ∙ rw key refl in
                  rw (passed, kept)
                    (
                      set_account row v,
                      ap (find_vendor id) (sym e) ∙ after,
                      set_account-IsBacked attempts row v
                          (verified_or_submitted-IsBacked attempts a v among backed row written),
                    )
            ]
    ]

run_attempts-IsBacked :
    (attempts rest : List Attempt) (id : ℕ) (db : Db) (v : Vendor)
    → All (IsAmong attempts) rest
    → find_vendor id db ≡ some v
    → IsBacked attempts v
    → (w : Vendor) × (find_vendor id (run_attempts id rest db) ≡ some w) × IsBacked attempts w
unfolding run_attempts
run_attempts-IsBacked attempts [] id db v among found backed = (v, found, backed)
run_attempts-IsBacked attempts (a ∷ rest) id db v among found backed =
    let (w, there, still) = verify_bank_account-IsBacked attempts id a db v among.0 found backed in
    run_attempts-IsBacked attempts rest id
      (kept db (verify_bank_account id a.account a.actor_id a.now db)) w among.1 there still

-- From a vendor with no account verified and none waiting, after any calls that give accounts for
-- it, whether they go through or throw, the vendor that is found has an account verified only if
-- two different users have given it among those calls, and a change that waits names a user who
-- has given that account.
pub verified_by_two :
    (id : ℕ) (attempts : List Attempt) (db : Db) (v : Vendor)
    → find_vendor id db ≡ some v
    → v.bank_account_verified_at ≡ none
    → v.bank_account_changed_at ≡ none
    → (w : Vendor) × (find_vendor id (run_attempts id attempts db) ≡ some w) × IsBacked attempts w
verified_by_two id attempts db v found unverified unchanged =
    run_attempts-IsBacked attempts attempts id db v (All-any attempts) found
      (record { waiting = λ h. absurd (ground arith); verified = λ h. absurd (ground arith) })
