-- ===== src/WorkOrder/Restore.antt =====
-- internal/domain/work_order/restore_factory.go.
pub mod Columns
pub mod Restored
use loresuelvo_api.Common.{
  String, Bool, true, false, not, ◌||◌, List, Option, none, some, ok, err, ◌>>=◌, ◌>>◌, fail_if,
  map_err, if◌then◌else◌, is_some, ℤ, pos, leb_ℤ, ltb_ℤ,
}
use loresuelvo_api.Errors.{Outcome, Error, WorkOrderError, work_order, wrapped}
use loresuelvo_api.Time.{Instant, is_zero_time}
use loresuelvo_api.ServiceProposal.Proposal.{ServiceProposal}
use loresuelvo_api.WorkOrder.CompletionReport.{CompletionReport, new_completion_report}
use loresuelvo_api.WorkOrder.Review.{Review, new_review}
use loresuelvo_api.WorkOrder.State.{Status, scheduled_state, awaiting_payment_state, paid_state}
use loresuelvo_api.WorkOrder.Order.{WorkOrder, new_work_order}

pub record CompletionReportRestoreInput : Type 0 where
  pub id : ℤ
  pub description : String
  pub image_file_ids : List String
  pub reported_on : Instant

pub record ReviewRestoreInput : Type 0 where
  pub version : ℤ
  pub hiding_decision_id : ℤ
  pub visible : Option Bool
  pub rating : ℤ
  pub description : String

-- `status` is a string: `none` is one that is not among the three.
pub record RestoreInput : Type 0 where
  pub id : ℤ
  pub service_proposal : Option ServiceProposal
  pub status : Option Status
  pub accepted_on : Instant
  pub completion_report : Option CompletionReportRestoreInput
  pub paid_on : Instant
  pub review : Option ReviewRestoreInput

abbrev restored_visible : Option Bool → Bool → Bool
restored_visible none was = was
restored_visible (some v) was = v

unfoldable pub restore_review : Option ReviewRestoreInput → Outcome (Option Review)
unfolding new_review
restore_review none = ok none
restore_review (some input) = do
  review ← map_err (wrapped "restoring review") (new_review input.rating input.description)
  ok (
      some (record review {
        version = if ltb_ℤ (pos 0) input.version then input.version else review.version;
        hiding_decision_id = input.hiding_decision_id;
        visible = restored_visible input.visible review.visible;
      }))

unfoldable pub restore_completion_report :
    Option CompletionReportRestoreInput → Outcome (Option CompletionReport)
unfolding new_completion_report
restore_completion_report none = ok none
restore_completion_report (some input) = do
  fail_if (leb_ℤ input.id (pos 0)) (
      wrapped "restoring completion report" (work_order WorkOrderError.invalid_work_order_identity))
  report ←
      map_err (wrapped "restoring completion report")
        (new_completion_report input.description input.image_file_ids input.reported_on)
  ok (some (record report { id = input.id }))

-- `review.SetID(input.ID)` on a review that is not nil.
abbrev pub with_review_id : ℤ → Option Review → Option Review
with_review_id id none = none
with_review_id id (some r) = some (record r { work_order_id = id })

abbrev scheduled_error : Error
scheduled_error =
    wrapped "scheduled work order cannot contain completion evidence, paid_on, or review"
      (work_order WorkOrderError.invalid_work_order_state)

abbrev awaiting_error : Error
awaiting_error =
    wrapped "awaiting payment work order requires completion report and cannot contain review"
      (work_order WorkOrderError.invalid_work_order_state)

abbrev paid_error : Error
paid_error =
    wrapped "paid work order requires completion report and paid_on"
      (work_order WorkOrderError.invalid_work_order_state)

-- The `switch` on the status.
unfoldable pub restore_state :
    WorkOrder
    → Option Status
    → Option CompletionReport
    → Instant
    → Option Review
    → Outcome WorkOrder
restore_state order none report paid_on review =
    err (work_order WorkOrderError.invalid_work_order_state)
restore_state order (some Status.scheduled) report paid_on review = do
  fail_if (is_some report || not (is_zero_time paid_on) || is_some review) scheduled_error
  ok order
restore_state order (some Status.awaiting_payment) none paid_on review = err awaiting_error
restore_state order (some Status.awaiting_payment) (some report) paid_on review = do
  fail_if (is_some review) awaiting_error
  ok (record order { state = awaiting_payment_state report })
restore_state order (some Status.paid) none paid_on review = err paid_error
restore_state order (some Status.paid) (some report) paid_on review = do
  fail_if (is_zero_time paid_on) paid_error
  ok (record order { state = paid_state report paid_on review })

unfoldable pub restore : RestoreInput → Outcome WorkOrder
unfolding restore_review restore_completion_report restore_state new_work_order
restore input = do
  fail_if (leb_ℤ input.id (pos 0) || not (is_some input.service_proposal))
      (work_order WorkOrderError.invalid_work_order_identity)
  made ←
      map_err (wrapped "restoring work order")
        (new_work_order input.service_proposal input.accepted_on)
  let order = record made { id = input.id }
  report ← restore_completion_report input.completion_report
  review ← restore_review input.review
  restore_state order input.status report input.paid_on (with_review_id input.id review)
