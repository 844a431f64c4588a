-- ===== src/Payment/Run/Lifecycle.antt =====
-- The states of a payment run: what each command asks of a run and makes of it, and rival commands.
use aipms.Prelude.{
  ℕ, ◌≤◌, count, ◌≡◌, ◌≢◌, refl, Bool, true, false, some, inl, inr, arith, Option-cases, find?,
  update_where, ◌==◌, ==→eq, find?-some-holds, ◌∙◌, ◌⊎◌, Result, ok, err,
}
use aipms.Prelude.Text.{Text, trim}
use aipms.Prelude.Rows.{find?-update_where}
use aipms.Prelude.Rows.Keys.{find?-of_count}
use aipms.Database.{Db, PaymentRun, PaymentRunStatus}
use aipms.Payment.Beneficiary.{is_empty}
use aipms.Payment.Run.{
  find_run, approvable, set_approved, approve, executable, set_executed, execute, is_open, voidable,
  set_voided, void_run,
}

abbrev pub has_id : ℕ → PaymentRun → Bool
has_id id r = r.id == id

-- The run that is found passes the test of the write, so the write is what is found next.
find_run-update :
    (id : ℕ) (test : PaymentRun → Bool) (f : PaymentRun → PaymentRun) (db : Db)
    (before : PaymentRun)
    → ((r : PaymentRun) → (f r).id ≡ r.id)
    → find_run id db ≡ some before
    → (before.id ≡ id → test before ≡ true)
    → find? (has_id id) (update_where test f db.payment_runs) ≡ some (f before)
find_run-update id test f db before same found passes =
    let key : before.id ≡ id =
      ==→eq before.id id (find?-some-holds (has_id id) db.payment_runs before found) in
    find?-update_where (has_id id) test f db.payment_runs before (λ r. rw (same r)) found
    ∙ rw (passes key)

-- An approval goes through only for a draft whose maker is not the approver; the run that is found
-- afterwards is that draft, approved by that approver.
pub approve_lem :
    (id who : ℕ) (db db' : Db) (after : PaymentRun)
    → approve id who db ≡ ok (after, db')
    → (before : PaymentRun) × (find_run id db ≡ some before)
      × (before.status ≡ PaymentRunStatus.draft)
      × (before.created_by ≢ who)
      × (after ≡ set_approved who before)
      × (find_run id db' ≡ some after)
unfolding approve
approve_lem id who db db' after h = elim (Option-cases (find_run id db)) [
  | inl missing ↦ absurd (ground arith)
  | inr (before, found) ↦
      let status : before.status ≡ PaymentRunStatus.draft = ground arith in
      let maker : before.created_by ≢ who = ground arith in
      let updated =
        find_run-update id (approvable id who) (set_approved who) db before (λ r. refl) found
          (λ e. ground arith) in
      (before, found, status, maker, ground (arith, updated), ground (arith, updated))
]

-- An execution goes through only for an approved run; the run that is found afterwards is that
-- run, executed by that user.
pub execute_lem :
    (id who : ℕ) (db db' : Db) (after : PaymentRun)
    → execute id who db ≡ ok (after, db')
    → (before : PaymentRun) × (find_run id db ≡ some before)
      × (before.status ≡ PaymentRunStatus.approved)
      × (after ≡ set_executed who before)
      × (find_run id db' ≡ some after)
unfolding execute
execute_lem id who db db' after h = elim (Option-cases (find_run id db)) [
  | inl missing ↦ absurd (ground arith)
  | inr (before, found) ↦
      let status : before.status ≡ PaymentRunStatus.approved = ground arith in
      let updated =
        find_run-update id (executable id) (set_executed who) db before (λ r. refl) found
          (λ e. ground arith) in
      (before, found, status, ground (arith, updated), ground (arith, updated))
]

-- Where ids of runs are keys: a void whose reads saw some other tables, such as earlier ones, goes
-- through only with a reason that is not blank, only if the run was read as a draft, or as
-- approved and not made by that user, and only while the run is still a draft or approved; the run
-- that is found afterwards is that run, voided by that user for that reason.
pub void_run_lem :
    (seen db db' : Db) (id who : ℕ) (reason : Text) (after : PaymentRun)
    → count (has_id id) db.payment_runs ≤ 1
    → void_run seen id who reason db ≡ ok (after, db')
    → (read : PaymentRun) × (before : PaymentRun) × (find_run id seen ≡ some read)
      × (find_run id db ≡ some before)
      × (is_empty (trim reason) ≡ false)
      × ((read.status ≡ PaymentRunStatus.draft)
          ⊎ ((read.status ≡ PaymentRunStatus.approved) × (read.created_by ≢ who)))
      × ((before.status ≡ PaymentRunStatus.draft) ⊎ (before.status ≡ PaymentRunStatus.approved))
      × (after ≡ set_voided who reason before)
      × (find_run id db' ≡ some after)
unfolding void_run
void_run_lem seen db db' id who reason after one h = elim (Option-cases (find_run id seen)) [
  | inl missing ↦ absurd (ground arith)
  | inr (read, found) ↦
      let hit : count (voidable id) db.payment_runs ≡ 1 = ground arith in
      let (before, there, still) =
        find?-of_count (has_id id) (λ (r : PaymentRun). is_open r.status) db.payment_runs one hit in
      let blank : is_empty (trim reason) ≡ false = ground arith in
      let open_run : is_open read.status ≡ true = ground arith in
      let updated =
        find_run-update id (voidable id) (set_voided who reason) db before (λ r. refl) there
          (λ e. ground arith) in
      (
        read,
        before,
        found,
        there,
        blank,
        ground arith,
        ground arith,
        ground (arith, updated),
        ground (arith, updated),
      )
]

abbrev pub IsErr : {A : Type 0} → Result A → Type 0
IsErr (ok _) = ⊥
IsErr (err _) = Unit
