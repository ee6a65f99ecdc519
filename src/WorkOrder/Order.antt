-- ===== src/WorkOrder/Order.antt =====
-- internal/domain/work_order/work_order.go: the aggregate. Its methods are called on a pointer that
-- is not nil (every caller has just read or made the order); the proposal may be nil, as there.
pub mod Methods
pub mod Lifecycle
pub mod Transitions
use loresuelvo_api.Common.{
  Bool, not, ◌||◌, Option, none, some, ok, err, ◌>>=◌, ◌>>◌, fail_if, ℤ, pos, leb_ℤ, ◌==ℤ◌, is_some,
  String, true, false,
}
use loresuelvo_api.Errors.{Outcome, WorkOrderError, work_order, message, nil_dereference}
use loresuelvo_api.Time.{Instant, before, is_zero_time}
use loresuelvo_api.User.{User}
use loresuelvo_api.Notification.{Notification, new_notification, Kind, ResourceType}
use loresuelvo_api.ServiceProposal.BookingTerms.{BookingTerms}
use loresuelvo_api.ServiceProposal.Proposal.{ServiceProposal, id_of}
use loresuelvo_api.WorkOrder.CompletionReport.{CompletionReport}
use loresuelvo_api.WorkOrder.Review.{Review}
use loresuelvo_api.WorkOrder.Review.Report.{ReviewReport, new_review_report}
use loresuelvo_api.WorkOrder.State
use loresuelvo_api.WorkOrder.State.{State, scheduled_state}

-- The interface `ServiceProposal` has one implementation, `*serviceproposal.ServiceProposal`.
pub record WorkOrder : Type 0 where
  pub id : ℤ
  pub service_proposal : Option ServiceProposal
  pub accepted_on : Instant
  pub state : State

unfoldable pub new_work_order : Option ServiceProposal → Instant → Outcome WorkOrder
new_work_order none accepted_on = err (message "creating work order: service proposal is required")
new_work_order (some sp) accepted_on = ok (record {
  id = pos 0;
  service_proposal = some sp;
  accepted_on = accepted_on;
  state = scheduled_state;
})

abbrev pub set_id : WorkOrder → ℤ → WorkOrder
set_id wo id = record wo { id = id }

-- `wo.serviceProposal.…` on an interface value that may be nil.
abbrev pub proposal_of : WorkOrder → Outcome ServiceProposal
proposal_of wo = elim wo.service_proposal [ none ↦ err nil_dereference | some sp ↦ ok sp ]

unfoldable pub provider_id : WorkOrder → Outcome ℤ
provider_id wo = do sp ← proposal_of wo; id_of sp.provider

unfoldable pub consumer_id : WorkOrder → Outcome ℤ
consumer_id wo = do sp ← proposal_of wo; id_of sp.consumer

unfoldable pub scheduled_on : WorkOrder → Outcome Instant
scheduled_on wo = do sp ← proposal_of wo; ok sp.scheduled_on

-- `wo == nil || wo.id <= 0 || wo.serviceProposal == nil`
unfoldable pub lacks_identity : WorkOrder → Bool
lacks_identity wo = leb_ℤ wo.id (pos 0) || not (is_some wo.service_proposal)

abbrev pub reported_before : CompletionReport → Instant → Bool
reported_before report on = before report.reported_on on

-- `report == nil`, and the report otherwise.
abbrev pub required {ℓ} : {A : Type ℓ} → Option A → WorkOrderError → Outcome A
required none e = err (work_order e)
required (some a) e = ok a
