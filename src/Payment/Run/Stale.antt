-- ===== src/Payment/Run/Stale.antt =====
-- A void whose reads came before an approval; `voidRun` of
-- apps/api/src/payment-run/payment-run.service.ts.
use aipms.Prelude.{
  ℕ, ◌≤◌, ◌≡◌, refl, ap, true, false, ok, err, Error, arith, count, update_where, All-of, ==-refl,
  find?-some-holds, some, ◌∙◌,
}
use aipms.Prelude.Text.{Text, trim}
use aipms.Prelude.Rows.{count-update_where-le, find?-update_where}
use aipms.Prelude.Rows.Keys.{count-of_find?}
use aipms.Database.{Db, PaymentRun, PaymentRunStatus}
use aipms.Payment.Beneficiary.{is_empty}
use aipms.Payment.Run.{
  find_run, approvable, set_approved, approve, is_open, voidable, set_voided, void_check,
  void_commit, void_run,
}
use aipms.Payment.Run.Lifecycle.{has_id, approve_lem}

approve-one :
    (id other : ℕ) (db db' : Db) (r : PaymentRun)
    → count (has_id id) db.payment_runs ≤ 1
    → approve id other db ≡ ok (r, db')
    → count (has_id id) db'.payment_runs ≤ 1
unfolding approve
approve-one id other db db' r one h =
    let wrote : db'.payment_runs
        ≡ update_where (approvable id other) (set_approved other) db.payment_runs =
      ground arith in
    let le =
      count-update_where-le (approvable id other) (has_id id) (set_approved other) db.payment_runs
        (All-of (λ x _ k. k) db.payment_runs) in
    rw wrote (omega (arith, le, one))

-- The maker's tests pass on a draft.
void_check-draft :
    (id who : ℕ) (reason : Text) (db : Db) (r : PaymentRun)
    → find_run id db ≡ some r
    → r.status ≡ PaymentRunStatus.draft
    → is_empty (trim reason) ≡ false
    → void_check id who reason db ≡ ok (tt, db)
unfolding void_check
void_check-draft id who reason db r found draft given = rw (given, found, draft) refl

void_check-own :
    (id who : ℕ) (reason : Text) (db : Db) (r : PaymentRun)
    → find_run id db ≡ some r
    → r.status ≡ PaymentRunStatus.approved
    → r.created_by ≡ who
    → is_empty (trim reason) ≡ false
    → void_check id who reason db
      ≡ err (Error.bad_request "The payment-run maker cannot override an approved run")
unfolding void_check
void_check-own id who reason db r found approved own given =
    rw (given, found, approved, own, ==-refl who) refl

void_commit-open :
    (id who : ℕ) (reason : Text) (db : Db) (r : PaymentRun)
    → count (has_id id) db.payment_runs ≤ 1
    → find_run id db ≡ some r
    → is_open r.status ≡ true
    → (db' : Db) × (void_commit id who reason db ≡ ok (set_voided who reason r, db'))
      × (find_run id db' ≡ some (set_voided who reason r))
unfolding void_commit
void_commit-open id who reason db r one found still =
    let hit =
      count-of_find? (has_id id) (λ (x : PaymentRun). is_open x.status) db.payment_runs r one found
        still in
    let own : has_id id r ≡ true = find?-some-holds (has_id id) db.payment_runs r found in
    let after =
      find?-update_where (has_id id) (voidable id) (set_voided who reason) db.payment_runs r
        (λ x. refl) found
      ∙ rw (own, still) refl in
    (
      record db {
        payment_runs = update_where (voidable id) (set_voided who reason) db.payment_runs;
      },
      rw (hit, after) refl,
      after,
    )

-- Where ids of runs are keys, and with a reason that is not blank: after another user's approval
-- of a run, a void by the run's maker is refused if it reads the tables after the approval, but
-- goes through if its reads came before; the run that is then found is the approved one, voided by
-- its maker.
pub stale_void :
    (id maker other : ℕ) (reason : Text) (db db' : Db) (approved : PaymentRun)
    → count (has_id id) db.payment_runs ≤ 1
    → is_empty (trim reason) ≡ false
    → approve id other db ≡ ok (approved, db')
    → approved.created_by ≡ maker
    → (approved.status ≡ PaymentRunStatus.approved)
      × (approved.approved_by ≡ some other)
      × (void_run db' id maker reason db'
          ≡ err (Error.bad_request "The payment-run maker cannot override an approved run"))
      × (db'' : Db) × (void_run db id maker reason db'
          ≡ ok (set_voided maker reason approved, db''))
      × (find_run id db'' ≡ some (set_voided maker reason approved))
unfolding void_run
stale_void id maker other reason db db' approved one given h own =
    let (before, found, draft, differs, made, there) = approve_lem id other db db' approved h in
    let status : approved.status ≡ PaymentRunStatus.approved =
      ap (λ (r : PaymentRun). r.status) made in
    let (db'', wrote, last) =
      void_commit-open id maker reason db' approved (approve-one id other db db' approved one h)
        there (rw status refl) in
    (
      status,
      ap (λ (r : PaymentRun). r.approved_by) made,
      rw (void_run, void_check-own id maker reason db' approved there status own given) refl,
      db'',
      rw (void_run, void_check-draft id maker reason db before found draft given) wrote,
      last,
    )
