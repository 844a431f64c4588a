-- ===== src/Requisition/Recorded.antt =====
-- What a submission leaves of the approvals of its requisition.
use aipms.Prelude.{◌≡◌, ◌≢◌, true, false, none, some, Error}
use aipms.Database.{Requisition, Approval, ReqStatus, is_pending}
use aipms.Requisition.{system}

abbrev pub submit_refused : Error
submit_refused = Error.conflict "Only draft requisitions can be submitted"

-- Who decided the row of a decision, and whether it waits.
abbrev pub IsSettledAs : ReqStatus → Approval → Type 0
IsSettledAs status row =
    (status ≡ ReqStatus.approved → (is_pending row.status ≡ false) × (row.decided_by ≡ some system))
    × (status ≢ ReqStatus.approved → (is_pending row.status ≡ true) × (row.decided_by ≡ none))
