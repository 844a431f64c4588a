-- ===== src/Approval/Decide/Moved.antt =====
-- What a decision makes of the row of a requisition; `decide` of
-- apps/api/src/approval/approval.service.ts.
use aipms.Prelude.{
  ℕ, ◌≡◌, refl, sym, subst, ◌∙◌, true, false, some, List, [], ◌∷◌, inl, inr, arith, ok,
  Result-cases, Bool-cases, any, find?, update_where, ◌==◌, find?-some-holds,
}
use aipms.Prelude.Rows.{find?-update_where}
use aipms.Database.{Db, Approval, Requisition}
use aipms.Approval.Effects.{
  DecideVerdict, DecideResult, is_reject, move_requisition, reject_requisition, advance_requisition,
  gathered_status, set_decided,
}
use aipms.Approval.Budget.{find_requisition}
use aipms.Database.{ReqStatus}

any-find?-some :
    (id : ℕ) (rows : List Requisition)
    → any (λ (q : Requisition). q.id == id) rows ≡ true
    → (q : Requisition) × (find? (λ (q : Requisition). q.id == id) rows ≡ some q)
any-find?-some id [] h = absurd (ground arith)
any-find?-some id (q ∷ rows) h = elim (Bool-cases (q.id == id)) [
  | inl own ↦ (q, rw own refl)
  | inr other ↦ let (found, e) = any-find?-some id rows (ground arith) in (found, rw other e)
]

-- The requisition that is found has been given that status.
abbrev pub HasStatus : ℕ → ReqStatus → Db → Type 0
HasStatus id status db =
    (row : Requisition) × (find_requisition id db ≡ some row) × (row.status ≡ status)

move_requisition-HasStatus :
    (id : ℕ) (status : ReqStatus) (now : ℕ) (db db' : Db)
    → move_requisition id status now db ≡ ok (tt, db')
    → HasStatus id status db'
unfolding move_requisition
move_requisition-HasStatus id status now db db' h =
    let (row, found) = any-find?-some id db.requisitions (ground arith) in
    let key = find?-some-holds (λ (q : Requisition). q.id == id) db.requisitions row found in
    let moved : db'.requisitions
        ≡ update_where (λ (q : Requisition). q.id == id) (set_decided status now) db.requisitions =
      ground arith in
    let after =
      find?-update_where (λ (q : Requisition). q.id == id) (λ (q : Requisition). q.id == id)
        (set_decided status now) db.requisitions row (λ q. refl) found
      ∙ rw key refl in
    (
      set_decided status now row,
      subst
          (λ rows. find? (λ (q : Requisition). q.id == id) rows ≡ some (set_decided status now row))
          (sym moved) after,
      refl,
    )

-- A status is given only where it has been gathered by a decision that is no rejection, or where it
-- is that of a rejection, and it is the status of the row.
abbrev pub Given : DecideVerdict → ℕ → Db → Db → ReqStatus → Type 0
Given verdict id db db' status =
    HasStatus id status db'
    × (status ≡ ReqStatus.approved
        → (gathered_status id db ≡ ReqStatus.approved) × (is_reject verdict ≡ false))

pub reject_requisition-Given :
    (updated : Approval) (verdict : DecideVerdict) (id now : ℕ) (db db' : Db) (r : DecideResult)
    (status : ReqStatus)
    → r.requisition_status ≡ some status
    → reject_requisition updated id now db ≡ ok (r, db')
    → Given verdict id db db' status
unfolding reject_requisition
reject_requisition-Given updated verdict id now db db' r status given h =
    elim (Result-cases (move_requisition id ReqStatus.rejected now db)) [
      | inl (e, thrown) ↦ absurd (ground arith)
      | inr ((done, moved), ran) ↦
          let (row, found, is) =
            move_requisition-HasStatus id ReqStatus.rejected now db moved ran in
          let same : db'.requisitions ≡ moved.requisitions = ground arith in
          let rejected : ReqStatus.rejected ≡ status = ground arith in
          (
            (
              row,
              subst (λ rows. find? (λ (q : Requisition). q.id == id) rows ≡ some row) (sym same)
                  found,
              is ∙ rejected,
            ),
            λ approved. absurd (ground arith),
          )
    ]

pub advance_requisition-Given :
    (updated : Approval) (verdict : DecideVerdict) (id now : ℕ) (db db' : Db) (r : DecideResult)
    (status : ReqStatus)
    → is_reject verdict ≡ false
    → r.requisition_status ≡ some status
    → advance_requisition updated id verdict now db ≡ ok (r, db')
    → Given verdict id db db' status
unfolding advance_requisition
advance_requisition-Given updated verdict id now db db' r status grants given h =
    let s = gathered_status id db in
    elim (Result-cases (move_requisition id s now db)) [
      | inl (e, thrown) ↦ absurd (ground arith)
      | inr ((done, moved), ran) ↦
          let (row, found, is) = move_requisition-HasStatus id s now db moved ran in
          let same : db'.requisitions ≡ moved.requisitions = ground arith in
          let gathered : s ≡ status = ground arith in
          (
            (
              row,
              subst (λ rows. find? (λ (q : Requisition). q.id == id) rows ≡ some row) (sym same)
                  found,
              is ∙ gathered,
            ),
            λ approved. (gathered ∙ approved, grants),
          )
    ]
