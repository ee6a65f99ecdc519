-- ===== src/WorkOrder/Review/Report.antt =====
-- internal/domain/work_order/review_report.go. Text is well-formed, so `utf8.ValidString` holds.
use loresuelvo_api.Common.{
  String, Bool, true, false, not, ◌||◌, ◌=ₛ◌, Option, none, some, ok, err, ◌>>=◌, ◌>>◌, fail_if, ℤ,
  pos, leb_ℤ, ◌==ℤ◌, ltb, trim_space, rune_count, contains_nul,
}
use loresuelvo_api.Errors.{Outcome, WorkOrderError, work_order}
use loresuelvo_api.Time.{Instant, is_zero_time}

pub data ReportStatus : Type 0 where
  pending upheld dismissed : ReportStatus
  unknown : String → ReportStatus

abbrev pub is_pending : ReportStatus → Bool
is_pending ReportStatus.pending = true
is_pending _ = false

abbrev pub is_unknown : ReportStatus → Bool
is_unknown (ReportStatus.unknown s) = true
is_unknown _ = false

pub record ReviewReport : Type 0 where
  pub id : ℤ
  pub work_order_id : ℤ
  pub reporter_id : ℤ
  pub category : String
  pub explanation : String
  pub status : ReportStatus
  pub created_on : Instant

unfoldable pub valid_review_report_category : String → Bool
valid_review_report_category category =
    category =ₛ "abusive_language"
    || category =ₛ "personal_data"
    || category =ₛ "spam_advertising"
    || category =ₛ "unrelated_content"

unfoldable pub new_review_report : ℤ → ℤ → String → String → Instant → Outcome ReviewReport
new_review_report order_id reporter_id category raw created_on = do
  let explanation = trim_space raw
  fail_if (not (valid_review_report_category category))
      (work_order WorkOrderError.invalid_review_report)
  fail_if
      (leb_ℤ order_id (pos 0)
        || leb_ℤ reporter_id (pos 0)
        || is_zero_time created_on
        || contains_nul explanation
        || ltb 500 (rune_count explanation))
      (work_order WorkOrderError.invalid_review_report)
  ok (record {
    id = pos 0;
    work_order_id = order_id;
    reporter_id = reporter_id;
    category = category;
    explanation = explanation;
    status = ReportStatus.pending;
    created_on = created_on;
  })

unfoldable pub restore_review_report :
    ℤ → ℤ → ℤ → String → String → ReportStatus → Instant → Outcome ReviewReport
unfolding new_review_report
restore_review_report id order_id reporter_id category explanation status created_on = do
  report ← new_review_report order_id reporter_id category explanation created_on
  fail_if (leb_ℤ id (pos 0) || is_unknown status) (work_order WorkOrderError.invalid_review_report)
  ok (record report { id = id; status = status })

-- A method of a pointer that may be nil.
unfoldable pub validate_pending_for_review : Option ReviewReport → ℤ → ℤ → Outcome ReviewReport
validate_pending_for_review none order_id report_id =
    err (work_order WorkOrderError.invalid_review_moderation)
validate_pending_for_review (some report) order_id report_id = do
  fail_if
      (not (report.id ==ℤ report_id)
        || not (report.work_order_id ==ℤ order_id)
        || not (is_pending report.status))
      (work_order WorkOrderError.invalid_review_moderation)
  ok report

unfoldable pub uphold : Option ReviewReport → ℤ → ℤ → Outcome ReviewReport
unfolding validate_pending_for_review
uphold found order_id report_id = do
  report ← validate_pending_for_review found order_id report_id
  ok (record report { status = ReportStatus.upheld })

unfoldable pub dismiss : Option ReviewReport → ℤ → ℤ → Outcome ReviewReport
unfolding validate_pending_for_review
dismiss found order_id report_id = do
  report ← validate_pending_for_review found order_id report_id
  ok (record report { status = ReportStatus.dismissed })
