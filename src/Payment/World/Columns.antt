-- ===== src/Payment/World/Columns.antt =====
-- What `saveWithTx`, `saveCompletionReportWithTx` and `saveReviewWithTx` of
-- internal/adapters/repositories/work_order_repository.go write of an order.
use loresuelvo_api.Common.{true, Option, none, some, ok, err, ◌>>=◌, if◌then◌else◌, ℤ, pos, ltb_ℤ}
use loresuelvo_api.Errors.{Outcome, WorkOrderError, work_order}
use loresuelvo_api.Time.{zero_time}
use loresuelvo_api.WorkOrder.CompletionReport.{CompletionReport}
use loresuelvo_api.WorkOrder.Review.{Review}
use loresuelvo_api.WorkOrder.State
use loresuelvo_api.WorkOrder.Order.{WorkOrder}
use loresuelvo_api.WorkOrder.Restore.{
  RestoreInput, CompletionReportRestoreInput, ReviewRestoreInput,
}

-- The row of the report and those of its images are written anew, or deleted.
unfoldable pub report_row : Option CompletionReport → Option CompletionReportRestoreInput
report_row none = none
report_row (some r) = some (record {
  id = r.id;
  description = r.description;
  image_file_ids = r.image_file_ids;
  reported_on = r.reported_on;
})

-- `INSERT INTO work_order_reviews`, whose other columns have their defaults.
abbrev pub inserted_review :
    Option ReviewRestoreInput → Review → Outcome (Option ReviewRestoreInput)
inserted_review (some row) r = err (work_order WorkOrderError.review_already_exists)
inserted_review none r = ok (
    some (record {
      version = pos 1;
      hiding_decision_id = pos 0;
      visible = some true;
      rating = r.rating;
      description = r.description;
    }))

-- A review that has an id is stored already, and its row stays.
unfoldable pub review_row :
    Option ReviewRestoreInput → Option Review → Outcome (Option ReviewRestoreInput)
review_row row none = ok row
review_row row (some r) = if ltb_ℤ (pos 0) r.work_order_id then ok row else inserted_review row r

-- `UPDATE work_orders SET status, paid_on`, and the rows of the report and of the review.
unfoldable pub saved_columns : RestoreInput → WorkOrder → Outcome RestoreInput
unfolding report_row review_row State.review
saved_columns row wo = review_row row.review (State.review wo.state) >>= λ review. ok (record row {
  status = some (State.status wo.state);
  paid_on = State.paid_on wo.state;
  completion_report = report_row (State.completion_report wo.state);
  review = review;
})

-- `INSERT INTO work_orders`, and the rows of the report and of the review.
unfoldable pub new_columns : ℤ → WorkOrder → Outcome RestoreInput
unfolding saved_columns
new_columns id wo =
    saved_columns
      (record {
        id = id;
        service_proposal = none;
        status = none;
        accepted_on = wo.accepted_on;
        completion_report = none;
        paid_on = zero_time;
        review = none;
      })
      wo
