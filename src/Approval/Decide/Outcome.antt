-- ===== src/Approval/Decide/Outcome.antt =====
-- A whole decision: what it asks, what it leaves of the approval and of its subject; `decide` of
-- apps/api/src/approval/approval.service.ts.
use aipms.Prelude.{
  ℕ, ◌≡◌, refl, sym, subst, ◌∙◌, true, false, Option, some, inl, inr, arith, ok, err, Result-cases,
  Error, find?, update_where, ◌==◌, find?-some-holds,
}
use aipms.Prelude.Text.{Text}
use aipms.Prelude.Rows.{find?-update_where}
use aipms.Database.{Db, Approval, is_pending}
use aipms.Approval.Effects.{DecideVerdict, DecideResult}
use aipms.Approval.Decide.{
  find_approval, decidable, set_verdict, decided_status, authorize, write_verdict, take_effect,
  decide,
}
use aipms.Approval.Decide.Laws.{
  IsAuthorized, Decided, authorize-IsAuthorized, write_verdict-Decided, take_effect-approvals,
}

-- The steps of a decision that goes through.
pub decide_steps :
    (ratio_bps : ℕ → ℕ → ℕ) (id : ℕ) (verdict : DecideVerdict) (actor_id : ℕ)
    (evidence : Option Text) (now : ℕ) (db db' : Db) (r : DecideResult)
    → decide ratio_bps id verdict actor_id evidence now db ≡ ok (r, db')
    → (a : Approval) × (updated : Approval) × (next : Db) × (find_approval id db ≡ some a)
      × IsAuthorized verdict actor_id evidence a db
      × Decided id verdict actor_id db next
      × (take_effect ratio_bps a updated verdict now next ≡ ok (r, db'))
unfolding decide
decide_steps ratio_bps id verdict actor_id evidence now db db' r h =
    elim (Result-cases (authorize id verdict actor_id evidence db)) [
      | inl (e, thrown) ↦ absurd (ground arith)
      | inr ((a, checked), passed) ↦
          let (unchanged, found, allowed) =
            authorize-IsAuthorized id verdict actor_id evidence a db checked passed in
          elim (Result-cases (write_verdict id verdict actor_id db)) [
            | inl (e, thrown) ↦ absurd (ground arith)
            | inr ((updated, next), written) ↦ (
              a,
              updated,
              next,
              found,
              allowed,
              write_verdict-Decided id verdict actor_id updated db next written,
              ground arith,
            )
          ]
    ]

decidable-holds :
    (id : ℕ) (a : Approval) (db : Db)
    → find_approval id db ≡ some a
    → is_pending a.status ≡ true
    → decidable id a ≡ true
decidable-holds id a db found pending =
    let key = find?-some-holds (λ (b : Approval). b.id == id) db.approvals a found in ground arith

-- A decision goes through only for a pending approval, by a known user who is an administrator or
-- whose role is on the route and who is not the one who asked, and an override only with a reason
-- that is not blank; the approval that is found afterwards is that one, decided so by that user.
pub decide-IsAuthorized :
    (ratio_bps : ℕ → ℕ → ℕ) (id : ℕ) (verdict : DecideVerdict) (actor_id : ℕ)
    (evidence : Option Text) (now : ℕ) (db db' : Db) (r : DecideResult)
    → decide ratio_bps id verdict actor_id evidence now db ≡ ok (r, db')
    → (a : Approval) × (find_approval id db ≡ some a)
      × IsAuthorized verdict actor_id evidence a db
      × (find_approval id db' ≡ some (set_verdict verdict actor_id a))
decide-IsAuthorized ratio_bps id verdict actor_id evidence now db db' r h =
    let (a, updated, next, found, allowed, decided, effect) =
      decide_steps ratio_bps id verdict actor_id evidence now db db' r h in
    let after : db'.approvals
        ≡ update_where (decidable id) (set_verdict verdict actor_id) db.approvals =
      take_effect-approvals ratio_bps a updated verdict now next db' r effect ∙ decided.approvals in
    let stays =
      find?-update_where (λ (b : Approval). b.id == id) (decidable id)
        (set_verdict verdict actor_id) db.approvals a (λ b. refl) found in
    (
      a,
      found,
      allowed,
      subst
          (λ rows.
            find? (λ (b : Approval). b.id == id) rows ≡ some (set_verdict verdict actor_id a))
          (sym after) (stays ∙ rw (decidable-holds id a db found allowed.pending) refl),
    )

decided_refused :
    (ratio_bps : ℕ → ℕ → ℕ) (id : ℕ) (verdict : DecideVerdict) (actor_id : ℕ)
    (evidence : Option Text) (now : ℕ) (db : Db) (a : Approval)
    → find_approval id db ≡ some a
    → is_pending a.status ≡ false
    → decide ratio_bps id verdict actor_id evidence now db
      ≡ err (Error.conflict "Approval already decided")
unfolding decide authorize
decided_refused ratio_bps id verdict actor_id evidence now db a found done = ground arith

decided_status-done : (verdict : DecideVerdict) → is_pending (decided_status verdict) ≡ false
decided_status-done verdict = ground arith

-- After a decision that went through, any further decision on the same approval throws the
-- conflict that it is decided already.
pub decide_once :
    (ratio_bps : ℕ → ℕ → ℕ) (id : ℕ) (verdict again : DecideVerdict) (actor_id other_id : ℕ)
    (evidence reason : Option Text) (now later : ℕ) (db db' : Db) (r : DecideResult)
    → decide ratio_bps id verdict actor_id evidence now db ≡ ok (r, db')
    → decide ratio_bps id again other_id reason later db'
      ≡ err (Error.conflict "Approval already decided")
decide_once ratio_bps id verdict again actor_id other_id evidence reason now later db db' r h =
    let (a, found, allowed, after) =
      decide-IsAuthorized ratio_bps id verdict actor_id evidence now db db' r h in
    decided_refused ratio_bps id again other_id reason later db' (set_verdict verdict actor_id a)
      after (decided_status-done verdict)
