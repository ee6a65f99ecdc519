-- ===== src/WorkOrder/State.antt =====
-- internal/domain/work_order/state.go: the three states, with a constructor for each Go struct. The
-- report of an awaiting or paid order is never nil: the only constructors of these states take one.
use loresuelvo_api.Common.{Option, none, some, ok, err, ◌>>◌, fail_if, is_some}
use loresuelvo_api.Errors.{Outcome, WorkOrderError, work_order}
use loresuelvo_api.Time.{Instant, is_zero_time, zero_time}
use loresuelvo_api.WorkOrder.CompletionReport.{CompletionReport}
use loresuelvo_api.WorkOrder.Review.{Review}

-- work_order.go
pub data Status : Type 0 where
  scheduled awaiting_payment paid : Status

pub data State : Type 0 where
  scheduled_state : State
  awaiting_payment_state : CompletionReport → State
  paid_state : CompletionReport → Instant → Option Review → State

unfoldable pub status : State → Status
status scheduled_state = Status.scheduled
status (awaiting_payment_state report) = Status.awaiting_payment
status (paid_state report paid_on review) = Status.paid

unfoldable pub completion_report : State → Option CompletionReport
completion_report scheduled_state = none
completion_report (awaiting_payment_state report) = some report
completion_report (paid_state report paid_on review) = some report

unfoldable pub paid_on : State → Instant
paid_on scheduled_state = zero_time
paid_on (awaiting_payment_state report) = zero_time
paid_on (paid_state report on review) = on

unfoldable pub review : State → Option Review
review scheduled_state = none
review (awaiting_payment_state report) = none
review (paid_state report on found) = found

unfoldable pub report_completion : State → Option CompletionReport → Outcome State
report_completion scheduled_state none = err (work_order WorkOrderError.completion_report_required)
report_completion scheduled_state (some report) = ok (awaiting_payment_state report)
report_completion (awaiting_payment_state _) report =
    err (work_order WorkOrderError.completion_report_already_exists)
report_completion (paid_state _ on found) report =
    err (work_order WorkOrderError.completion_report_already_exists)

unfoldable pub authorize_balance_checkout : State → Outcome (Unit {0})
authorize_balance_checkout scheduled_state =
    err (work_order WorkOrderError.work_order_not_awaiting_payment)
authorize_balance_checkout (awaiting_payment_state report) = ok tt
authorize_balance_checkout (paid_state report on found) =
    err (work_order WorkOrderError.work_order_already_paid)

unfoldable pub register_approved_balance_payment : State → Instant → Outcome State
register_approved_balance_payment scheduled_state on =
    err (work_order WorkOrderError.work_order_not_eligible_for_full_payment)
register_approved_balance_payment (awaiting_payment_state report) on = do
  fail_if (is_zero_time on) (work_order WorkOrderError.paid_on_required)
  ok (paid_state report on none)
register_approved_balance_payment (paid_state report _ found) on =
    err (work_order WorkOrderError.work_order_already_paid)

unfoldable pub add_review : State → Review → Outcome State
add_review scheduled_state added = err (work_order WorkOrderError.work_order_not_paid)
add_review (awaiting_payment_state report) added =
    err (work_order WorkOrderError.work_order_not_paid)
add_review (paid_state report on found) added = do
  fail_if (is_some found) (work_order WorkOrderError.review_already_exists)
  ok (paid_state report on (some added))
