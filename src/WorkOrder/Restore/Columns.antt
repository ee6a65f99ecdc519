-- ===== src/WorkOrder/Restore/Columns.antt =====
-- The orders that columns stand for (internal/domain/work_order/restore_factory.go).
use loresuelvo_api.Common.{
  ◌≤◌, ◌≡◌, ◌≢◌, arith, refl, Bool, true, Option, none, some, map, ok, ℤ, pos, ◌≤ℤ◌, leb_ℤ, ltb_ℤ,
  if◌then◌else◌, Result-cases, inl, inr, subst, trim_space, rune_count,
}
use loresuelvo_api.Time.{zero_time}
use loresuelvo_api.WorkOrder.CompletionReport.{CompletionReport, new_completion_report}
use loresuelvo_api.WorkOrder.CompletionReport.Images.{IsReportable, new_completion_report-ok_iff}
use loresuelvo_api.WorkOrder.Review.{Review, new_review}
use loresuelvo_api.WorkOrder.State.{
  State, Status, scheduled_state, awaiting_payment_state, paid_state,
}
use loresuelvo_api.WorkOrder.Order.{WorkOrder}
use loresuelvo_api.WorkOrder.Restore.{
  RestoreInput, CompletionReportRestoreInput, ReviewRestoreInput, restore_review,
  restore_completion_report, with_review_id,
}

-- The report of a row: a valid one, with the id and the time of the row and its texts trimmed.
pub record IsReportOf (row : CompletionReportRestoreInput) (r : CompletionReport) : Type 0 where
  pub identified : pos 1 ≤ℤ row.id
  pub reportable : IsReportable row.description row.image_file_ids row.reported_on
  pub same_id : r.id ≡ row.id
  pub description : r.description ≡ trim_space row.description
  pub images : r.image_file_ids ≡ map trim_space row.image_file_ids
  pub reported_on : r.reported_on ≡ row.reported_on

-- Whether a review is shown: it is, unless the column says otherwise.
abbrev pub shown_by : Option Bool → Bool
shown_by none = true
shown_by (some visible) = visible

-- The review of a row: with its rating, visibility and hiding decision, its version if that is
-- positive and the first otherwise, its text trimmed, and the id of the order.
pub record IsReviewOf (id : ℤ) (row : ReviewRestoreInput) (r : Review) : Type 0 where
  pub rated_low : pos 1 ≤ℤ row.rating
  pub rated_high : row.rating ≤ℤ pos 5
  pub short : rune_count (trim_space row.description) ≤ 500
  pub owned : r.work_order_id ≡ id
  pub rating : r.rating ≡ row.rating
  pub description : r.description ≡ trim_space row.description
  pub visible : r.visible ≡ shown_by row.visible
  pub hiding : r.hiding_decision_id ≡ row.hiding_decision_id
  pub version : r.version ≡ (if ltb_ℤ (pos 0) row.version then row.version else pos 1)

abbrev pub ReviewOf : ℤ → Option ReviewRestoreInput → Option Review → Type 0
ReviewOf id none none = Unit {0}
ReviewOf id (some row) (some r) = IsReviewOf id row r
ReviewOf id _ _ = ⊥

abbrev pub ReportOf : Option CompletionReportRestoreInput → CompletionReport → Type 0
ReportOf none r = ⊥
ReportOf (some row) r = IsReportOf row r

-- The state that a status stands for, with the other columns that it needs and those it refuses.
abbrev pub StateOf : Option Status → RestoreInput → State → Type 0
StateOf (some Status.scheduled) row scheduled_state =
    (row.completion_report ≡ none) × (row.paid_on ≡ zero_time) × (row.review ≡ none)
StateOf (some Status.awaiting_payment) row (awaiting_payment_state report) =
    ReportOf row.completion_report report × (row.review ≡ none)
StateOf (some Status.paid) row (paid_state report on review) =
    ReportOf row.completion_report report
    × (on ≡ row.paid_on)
    × (row.paid_on ≢ zero_time)
    × ReviewOf row.id row.review review
StateOf _ _ _ = ⊥

-- An order that is what its columns say.
pub record IsOrderOf (row : RestoreInput) (wo : WorkOrder) : Type 0 where
  pub identified : pos 1 ≤ℤ row.id
  pub same_id : wo.id ≡ row.id
  pub proposed : row.service_proposal ≢ none
  pub same_proposal : wo.service_proposal ≡ row.service_proposal
  pub same_acceptance : wo.accepted_on ≡ row.accepted_on
  pub state : StateOf row.status row wo.state

-- The report of a row, in full.
abbrev report_of : CompletionReportRestoreInput → CompletionReport
report_of row = record {
  id = row.id;
  description = trim_space row.description;
  image_file_ids = map trim_space row.image_file_ids;
  reported_on = row.reported_on;
}

restore_completion_report-IsReportOf :
    (row : CompletionReportRestoreInput) (found : Option CompletionReport)
    → restore_completion_report (some row) ≡ ok found
    → (r : CompletionReport) × (found ≡ some r) × IsReportOf row r
unfolding restore_completion_report leb_ℤ
restore_completion_report-IsReportOf row found e =
    elim (Result-cases (new_completion_report row.description row.image_file_ids row.reported_on)) [
      | inr (_, q) ↦ absurd (ground arith)
      | inl (r, q) ↦
          let (h, s) =
            (new_completion_report-ok_iff row.description row.image_file_ids row.reported_on r).0
              q in
          (
            report_of row,
            ground arith,
            record {
              identified = ground arith;
              reportable = h;
              same_id = refl;
              description = refl;
              images = refl;
              reported_on = refl;
            },
          )
    ]

restore_completion_report-ok :
    (row : CompletionReportRestoreInput) (r : CompletionReport)
    → IsReportOf row r
    → restore_completion_report (some row) ≡ ok (some r)
unfolding restore_completion_report leb_ℤ
restore_completion_report-ok row r h = ground (
  arith,
  (new_completion_report-ok_iff row.description row.image_file_ids row.reported_on
        (record r { id = pos 0 })).1
      (h.reportable, ground (arith, h.description, h.images, h.reported_on)),
  h.identified,
  h.same_id,
)

restore_review-IsReviewOf :
    (id : ℤ) (row : ReviewRestoreInput) (found : Option Review)
    → restore_review (some row) ≡ ok found
    → (r : Review) × (with_review_id id found ≡ some r) × IsReviewOf id row r
unfolding restore_review new_review leb_ℤ ltb_ℤ
restore_review-IsReviewOf id row none e = absurd (ground arith)
restore_review-IsReviewOf id row (some r) e = (record r { work_order_id = id }, refl, ground arith)

restore_review-ok :
    (id : ℤ) (row : ReviewRestoreInput) (r : Review)
    → IsReviewOf id row r
    → restore_review (some row) ≡ ok (some (record r { work_order_id = pos 0 }))
unfolding restore_review new_review leb_ℤ ltb_ℤ
restore_review-ok id row r h = ground arith

pub restore_review-ReviewOf :
    (id : ℤ) (row : Option ReviewRestoreInput) (found : Option Review)
    → restore_review row ≡ ok found
    → ReviewOf id row (with_review_id id found)
unfolding restore_review
restore_review-ReviewOf id none none e = tt
restore_review-ReviewOf id none (some r) e = absurd (ground arith)
restore_review-ReviewOf id (some row) none e = absurd (ground arith)
restore_review-ReviewOf id (some row) (some r) e =
    let (r', q, h) = restore_review-IsReviewOf id row (some r) e in
    let p : r' ≡ record r { work_order_id = id } = ground arith in subst (IsReviewOf id row) p h

pub restore_completion_report-ReportOf :
    (row : Option CompletionReportRestoreInput) (r : CompletionReport)
    → restore_completion_report row ≡ ok (some r)
    → ReportOf row r
unfolding restore_completion_report
restore_completion_report-ReportOf none r e = absurd (ground arith)
restore_completion_report-ReportOf (some row) r e =
    let (r', q, h) = restore_completion_report-IsReportOf row (some r) e in
    let p : r' ≡ r = ground arith in subst (IsReportOf row) p h

pub no_report :
    (row : Option CompletionReportRestoreInput)
    → restore_completion_report row ≡ ok none
    → row ≡ none
unfolding restore_completion_report
no_report none e = refl
no_report (some row) e = absurd (ground arith)

pub no_review : (id : ℤ) (row : Option ReviewRestoreInput) → ReviewOf id row none → row ≡ none
no_review id none h = refl
no_review id (some row) h = elim h [ ]

pub report_ok :
    (row : Option CompletionReportRestoreInput) (r : CompletionReport)
    → ReportOf row r
    → restore_completion_report row ≡ ok (some r)
report_ok none r h = elim h [ ]
report_ok (some row) r h = restore_completion_report-ok row r h

pub review_ok :
    (id : ℤ) (row : Option ReviewRestoreInput) (review : Option Review)
    → ReviewOf id row review
    → (found : Option Review) × (restore_review row ≡ ok found) × (with_review_id id found ≡ review)
unfolding restore_review
review_ok id none none h = (none, refl, refl)
review_ok id none (some r) h = elim h [ ]
review_ok id (some row) none h = elim h [ ]
review_ok id (some row) (some r) h = (
  some (record r { work_order_id = pos 0 }),
  restore_review-ok id row r h,
  ground (arith, h.owned),
)
