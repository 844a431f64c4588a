-- ===== src/PurchaseOrder/Status/Tests.antt =====
-- A request for the cancellation of the sample order.
use aipms.Prelude.{◌≡◌, refl, [], ◌∷◌, ok, true, count, arith}
use aipms.Database.{Db, PurchaseOrder, is_live}
use aipms.Database.Samples.{tables, order}
use aipms.Prelude.{some}
use aipms.PurchaseOrder.Status.{
  request_cancellation, ask_cancellation, cancellation_row, asks_cancellation, find_order,
}
use aipms.PurchaseOrder.Status.Laws.{request_cancellation_once}

abbrev asked : Db
asked = record tables { approvals = cancellation_row 100 order 3 ∷ []; next_id = 101 }

asks : request_cancellation 20 3 tables ≡ ok (cancellation_row 100 order 3, asked)
unfolding request_cancellation ask_cancellation
asks = refl

request_cancellation_once_example :
    (po : PurchaseOrder) × (find_order 20 tables ≡ some po)
    × (is_live po.status ≡ true)
    × (asks_cancellation 20 (cancellation_row 100 order 3) ≡ true)
    × (count (asks_cancellation 20) asked.approvals ≡ 1)
request_cancellation_once_example =
    request_cancellation_once 20 3 tables asked (cancellation_row 100 order 3) (omega arith) asks
