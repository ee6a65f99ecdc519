-- ===== src/WorkOrder/Order/Methods.antt =====
-- The methods of `*WorkOrder` (internal/domain/work_order/work_order.go): each returns the order
-- as it is left.
use loresuelvo_api.Common.{
  not, Option, none, some, ok, ◌>>=◌, ◌>>◌, fail_if, ℤ, pos, leb_ℤ, ◌==ℤ◌, String,
}
use loresuelvo_api.Errors.{Outcome, WorkOrderError, work_order}
use loresuelvo_api.Time.{Instant, before, is_zero_time}
use loresuelvo_api.User.{User}
use loresuelvo_api.Notification.{Notification, new_notification, Kind, ResourceType}
use loresuelvo_api.WorkOrder.CompletionReport.{CompletionReport}
use loresuelvo_api.WorkOrder.Review.{Review}
use loresuelvo_api.WorkOrder.Review.Report.{ReviewReport, new_review_report}
use loresuelvo_api.WorkOrder.State
use loresuelvo_api.WorkOrder.Order.{
  WorkOrder, provider_id, consumer_id, scheduled_on, lacks_identity, required, reported_before,
}

unfoldable pub report_completion : WorkOrder → ℤ → Option CompletionReport → Outcome WorkOrder
unfolding provider_id scheduled_on lacks_identity State.report_completion
report_completion wo reporter found = do
  fail_if (lacks_identity wo) (work_order WorkOrderError.invalid_work_order_identity)
  fail_if (leb_ℤ reporter (pos 0)) (work_order WorkOrderError.only_assigned_provider_can_report)
  assigned ← provider_id wo
  fail_if (not (assigned ==ℤ reporter))
      (work_order WorkOrderError.only_assigned_provider_can_report)
  report ← required found WorkOrderError.completion_report_required
  on ← scheduled_on wo
  fail_if (reported_before report on)
      (work_order WorkOrderError.work_order_not_ready_for_completion)
  next ← State.report_completion wo.state (some report)
  ok (record wo { state = next })

unfoldable pub authorize_balance_checkout : WorkOrder → ℤ → Instant → Outcome (Unit {0})
unfolding consumer_id scheduled_on lacks_identity State.authorize_balance_checkout
authorize_balance_checkout wo payer now = do
  fail_if (lacks_identity wo) (work_order WorkOrderError.invalid_work_order_identity)
  fail_if (leb_ℤ payer (pos 0)) (work_order WorkOrderError.only_work_order_consumer_can_checkout)
  consumer ← consumer_id wo
  fail_if (not (consumer ==ℤ payer))
      (work_order WorkOrderError.only_work_order_consumer_can_checkout)
  fail_if (is_zero_time now) (work_order WorkOrderError.work_order_not_scheduled_yet)
  on ← scheduled_on wo
  fail_if (before now on) (work_order WorkOrderError.work_order_not_scheduled_yet)
  State.authorize_balance_checkout wo.state

unfoldable pub register_approved_balance_payment : WorkOrder → Instant → Outcome WorkOrder
unfolding lacks_identity State.register_approved_balance_payment
register_approved_balance_payment wo paid_on = do
  fail_if (lacks_identity wo) (work_order WorkOrderError.work_order_not_eligible_for_full_payment)
  next ← State.register_approved_balance_payment wo.state paid_on
  ok (record wo { state = next })

unfoldable pub add_review : WorkOrder → Option User → Option Review → Outcome WorkOrder
unfolding consumer_id lacks_identity State.add_review
add_review wo found added = do
  fail_if (lacks_identity wo) (work_order WorkOrderError.invalid_work_order_identity)
  reviewer ← required found WorkOrderError.only_work_order_consumer_can_review
  fail_if (leb_ℤ reviewer.id (pos 0))
      (work_order WorkOrderError.only_work_order_consumer_can_review)
  consumer ← consumer_id wo
  fail_if (not (reviewer.id ==ℤ consumer))
      (work_order WorkOrderError.only_work_order_consumer_can_review)
  review ← required added WorkOrderError.review_required
  next ← State.add_review wo.state review
  ok (record wo { state = next })

unfoldable pub create_final_payment_notification : WorkOrder → Instant → Outcome Notification
unfolding provider_id new_notification
create_final_payment_notification wo now = do
  recipient ← provider_id wo
  ok (
      new_notification recipient Kind.work_order_final_payment_approved ResourceType.work_order
        wo.id now none)

unfoldable pub authorize_review_reporter : WorkOrder → ℤ → Outcome (Unit {0})
unfolding provider_id
authorize_review_reporter wo reporter = do
  fail_if (leb_ℤ reporter (pos 0)) (work_order WorkOrderError.review_report_forbidden)
  assigned ← provider_id wo
  fail_if (not (assigned ==ℤ reporter)) (work_order WorkOrderError.review_report_forbidden)

unfoldable pub new_report : WorkOrder → ℤ → String → String → Instant → Outcome ReviewReport
unfolding authorize_review_reporter new_review_report State.review
new_report wo reporter category explanation at = do
  authorize_review_reporter wo reporter
  review ← required (State.review wo.state) WorkOrderError.review_not_available
  fail_if (not review.visible) (work_order WorkOrderError.review_not_available)
  new_review_report wo.id reporter category explanation at
