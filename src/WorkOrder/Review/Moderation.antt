-- ===== src/WorkOrder/Review/Moderation.antt =====
-- internal/domain/work_order/review_moderation.go. A method that changes the review and its report
-- returns both as it leaves them; every error is returned before the first change.
pub mod Laws
pub mod Hiding
use loresuelvo_api.Common.{
  String, Bool, true, false, not, ◌||◌, ◌&&◌, ◌=ₛ◌, Option, none, some, ok, err, ◌>>=◌, ◌>>◌,
  fail_if, map_err, if◌then◌else◌, is_empty, ℤ, pos, leb_ℤ, ltb_ℤ, ◌==ℤ◌, add_int64,
}
use loresuelvo_api.Errors.{Outcome, WorkOrderError, work_order}
use loresuelvo_api.Time.{Instant, is_zero_time, truncate_to_microsecond}
use loresuelvo_api.Audit.{new_reason}
use loresuelvo_api.WorkOrder.Review.{Review}
use loresuelvo_api.WorkOrder.Review.Report.{
  ReviewReport, valid_review_report_category, validate_pending_for_review, uphold, dismiss,
}

-- The actions that `Normalize` lets through, and any other text.
pub data Action : Type 0 where
  hide unhide dismiss_reports : Action
  other : String → Action

pub record ModerationInput : Type 0 where
  pub action : Action
  pub category : String
  pub reason : String
  pub expected_version : ℤ
  pub report_id : ℤ

-- The `switch` of `Normalize`.
unfoldable pub check_action : ModerationInput → Action → Bool
unfolding valid_review_report_category
check_action input hide = valid_review_report_category input.category
check_action input unhide = is_empty input.category && (input.report_id ==ℤ pos 0)
check_action input dismiss_reports = ltb_ℤ (pos 0) input.report_id && is_empty input.category
check_action input (other s) = false

unfoldable pub normalize : ModerationInput → Outcome ModerationInput
unfolding new_reason check_action
normalize input = do
  fail_if (leb_ℤ input.expected_version (pos 0) || ltb_ℤ input.report_id (pos 0))
      (work_order WorkOrderError.invalid_review_moderation)
  reason ←
      (if is_empty input.reason
        then ok input.reason
        else map_err (λ _. work_order WorkOrderError.invalid_review_moderation)
            (new_reason input.reason))
  fail_if (not (check_action input input.action))
      (work_order WorkOrderError.invalid_review_moderation)
  ok (record input { reason = reason })

pub record ReviewDecision : Type 0 where
  pub id : ℤ
  pub work_order_id : ℤ
  pub operator_id : ℤ
  pub report_id : ℤ
  pub previous_hide_id : ℤ
  pub action : Action
  pub category : String
  pub reason : String
  pub created_on : Instant

unfoldable pub restore_review_decision :
    ℤ → ℤ → ℤ → ℤ → ℤ → Action → String → String → Instant → Outcome ReviewDecision
unfolding normalize
restore_review_decision id order_id operator_id report_id previous_hide_id action category reason
      at =
    do
      fail_if
          (leb_ℤ id (pos 0)
            || leb_ℤ order_id (pos 0)
            || leb_ℤ operator_id (pos 0)
            || is_zero_time at)
          (work_order WorkOrderError.invalid_review_moderation)
      _ ← normalize (record {
        action = action;
        category = category;
        reason = reason;
        expected_version = pos 1;
        report_id = report_id;
      })
      ok (record {
        id = id;
        work_order_id = order_id;
        operator_id = operator_id;
        report_id = report_id;
        previous_hide_id = previous_hide_id;
        action = action;
        category = category;
        reason = reason;
        created_on = at;
      })

pub record Moderated : Type 0 where
  pub review : Review
  pub report : Option ReviewReport
  pub decision : ReviewDecision

-- The guards before the `switch` of `Moderate`.
unfoldable pub check_state : Review → Action → ℤ → Bool
check_state review unhide report_id = review.visible || leb_ℤ review.hiding_decision_id (pos 0)
check_state review hide report_id = not review.visible && (report_id ==ℤ pos 0)
check_state review _ report_id = false

-- The `switch` of `Moderate`, with the version that it leaves.
unfoldable pub apply_action :
    Review → Option ReviewReport → ReviewDecision → Action → Outcome Moderated
unfolding uphold dismiss
apply_action review report decision hide = do
  let version = add_int64 review.version (pos 1)
  let hidden = record review { visible = false; version = version }
  if ltb_ℤ (pos 0) decision.report_id
      then (do
        upheld ← uphold report decision.work_order_id decision.report_id
        ok (record { review = hidden; report = some upheld; decision = decision }))
      else ok (record { review = hidden; report = report; decision = decision })
apply_action review report decision unhide = ok (record {
  review = record review {
    visible = true;
    hiding_decision_id = pos 0;
    version = add_int64 review.version (pos 1);
  };
  report = report;
  decision = record decision { previous_hide_id = review.hiding_decision_id };
})
apply_action review report decision dismiss_reports = do
  dismissed ← dismiss report decision.work_order_id decision.report_id
  ok (record {
    review = record review { version = add_int64 review.version (pos 1) };
    report = some dismissed;
    decision = decision;
  })
apply_action review report decision (other s) = ok (record {
  review = record review { version = add_int64 review.version (pos 1) };
  report = report;
  decision = decision;
})

-- The decision before the `switch` fills it in.
abbrev pub draft : ℤ → ModerationInput → ℤ → Instant → ReviewDecision
draft order_id input operator_id at = record {
  id = pos 0;
  work_order_id = order_id;
  operator_id = operator_id;
  report_id = input.report_id;
  previous_hide_id = pos 0;
  action = input.action;
  category = input.category;
  reason = input.reason;
  created_on = truncate_to_microsecond at;
}

-- `if input.ReportID > 0 { ... }`
abbrev pub check_report : Option ReviewReport → ℤ → ℤ → Outcome (Unit {0})
check_report report order_id report_id =
    if ltb_ℤ (pos 0) report_id
    then (validate_pending_for_review report order_id report_id >>= λ _. ok tt)
    else ok tt

unfoldable pub moderate :
    Review → ℤ → ModerationInput → Option ReviewReport → ℤ → Instant → Outcome Moderated
moderate review order_id raw report operator_id at = do
  input ← normalize raw
  fail_if (leb_ℤ operator_id (pos 0) || leb_ℤ order_id (pos 0) || is_zero_time at)
      (work_order WorkOrderError.invalid_review_moderation)
  fail_if (not (review.version ==ℤ input.expected_version))
      (work_order WorkOrderError.review_moderation_conflict)
  check_report report order_id input.report_id
  fail_if (check_state review input.action input.report_id)
      (work_order WorkOrderError.review_moderation_conflict)
  apply_action review report (draft order_id input operator_id at) input.action

abbrev hiding_id : Review → ReviewDecision → Action → ℤ
hiding_id review decision hide = decision.id
hiding_id review decision _ = review.hiding_decision_id

unfoldable pub associate_decision : Review → ReviewDecision → Review
associate_decision review decision = record review {
  hiding_decision_id = hiding_id review decision decision.action;
}
