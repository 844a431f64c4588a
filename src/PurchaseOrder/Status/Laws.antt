-- ===== src/PurchaseOrder/Status/Laws.antt =====
-- The requests for the cancellation of an order.
use aipms.Prelude.{
  ℕ, ◌≡◌, ◌≤◌, refl, Bool, true, none, some, List, [], ◌∷◌, ◌++◌, ok, inl, inr, arith, Option-cases,
  find?, count, ◌==◌, ==→eq, ==-refl, subst, sym, find?-some-holds,
}
use aipms.Prelude.Rows.{count-append}
use aipms.Database.{Db, Approval, PurchaseOrder, is_live}
use aipms.PurchaseOrder.Status.{
  find_order, ask_cancellation, asks_cancellation, request_cancellation, cancellation_row,
}

count-find?-none : (p : Approval → Bool) (xs : List Approval) → find? p xs ≡ none → count p xs ≡ 0
count-find?-none p [] h = refl
count-find?-none p (x ∷ xs) h = ground (arith, count-find?-none p xs)

count-find?-some :
    (p : Approval → Bool) (xs : List Approval) (a : Approval) → find? p xs ≡ some a → 1 ≤ count p xs
count-find?-some p [] a h = cc
count-find?-some p (x ∷ xs) a h = ground (arith, count-find?-some p xs a)

-- The pending request that a request ends with is the only one.
ask_cancellation_once :
    (po : PurchaseOrder) (who : ℕ) (db db' : Db) (a : Approval)
    → count (asks_cancellation po.id) db.approvals ≤ 1
    → ask_cancellation po who db ≡ ok (a, db')
    → (asks_cancellation po.id a ≡ true) × (count (asks_cancellation po.id) db'.approvals ≡ 1)
unfolding ask_cancellation
ask_cancellation_once po who db db' a once h =
    elim (Option-cases (find? (asks_cancellation po.id) db.approvals)) [
      | inl fresh ↦
          let row = cancellation_row db.next_id po who in
          let added : db'.approvals ≡ db.approvals ++ row ∷ [] = ground arith in
          let given : a ≡ row = ground arith in
          (
            rw (given, ==-refl po.id),
            rw (
              added,
              count-append (asks_cancellation po.id) db.approvals (row ∷ []),
              count-find?-none (asks_cancellation po.id) db.approvals fresh,
              ==-refl po.id,
            ),
          )
      | inr (existing, pending) ↦
          let same : db'.approvals ≡ db.approvals = ground arith in
          let given : a ≡ existing = ground arith in
          let some_row = count-find?-some (asks_cancellation po.id) db.approvals existing pending in
          (
            rw given (find?-some-holds (asks_cancellation po.id) db.approvals existing pending),
            rw same (omega (arith, once, some_row)),
          )
    ]

-- Where at most one request for the cancellation of an order is pending: a further request goes
-- through only for a live order and gives a pending request for it, and exactly one is pending
-- afterwards.
pub request_cancellation_once :
    (id who : ℕ) (db db' : Db) (a : Approval)
    → count (asks_cancellation id) db.approvals ≤ 1
    → request_cancellation id who db ≡ ok (a, db')
    → (po : PurchaseOrder) × (find_order id db ≡ some po)
      × (is_live po.status ≡ true)
      × (asks_cancellation id a ≡ true)
      × (count (asks_cancellation id) db'.approvals ≡ 1)
unfolding request_cancellation
request_cancellation_once id who db db' a once h = elim (Option-cases (find_order id db)) [
  | inl missing ↦ absurd (ground arith)
  | inr (po, found) ↦
      let key : po.id ≡ id =
        ==→eq po.id id
          (find?-some-holds (λ (p : PurchaseOrder). p.id == id) db.purchase_orders po found) in
      let asked =
        ask_cancellation_once po who db db' a
          (subst (λ i. count (asks_cancellation i) db.approvals ≤ 1) (sym key) once)
          (ground arith) in
      (
        po,
        found,
        ground arith,
        subst (λ i. asks_cancellation i a ≡ true) key asked.0,
        subst (λ i. count (asks_cancellation i) db'.approvals ≡ 1) key asked.1,
      )
]
