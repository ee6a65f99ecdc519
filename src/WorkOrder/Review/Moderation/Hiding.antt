-- ===== src/WorkOrder/Review/Moderation/Hiding.antt =====
-- Hidden reviews and the decisions that hide them (internal/domain/work_order/review_moderation.go).
use loresuelvo_api.Common.{
  ◌≡◌, ◌≢◌, ◌⊎◌, refl, arith, String, true, false, Option, ok, ℤ, pos, leb_ℤ, ltb_ℤ, ◌≤ℤ◌, ◌==ℤ◌,
  add_int64,
}
use loresuelvo_api.Time.{Instant, zero_time}
use loresuelvo_api.WorkOrder.Review.{Review, new_review}
use loresuelvo_api.WorkOrder.Review.Report.{ReviewReport}
use loresuelvo_api.WorkOrder.Review.Moderation.{
  unhide, ModerationInput, normalize, Moderated, moderate, associate_decision, apply_action,
  check_state, draft,
}
use loresuelvo_api.WorkOrder.Review.Moderation.Laws.{moderate-IsModerated}

-- A review is hidden exactly while a decision that hides it is recorded.
abbrev pub IsConsistent : Review → Type 0
IsConsistent r =
    ((r.visible ≡ true) × (r.hiding_decision_id ≡ pos 0))
    ⊎ ((r.visible ≡ false) × (pos 1 ≤ℤ r.hiding_decision_id))

pub new_review-IsConsistent :
    (rating : ℤ) (description : String) {r : Review}
    → new_review rating description ≡ ok r
    → IsConsistent r
unfolding new_review
new_review-IsConsistent rating description e = ground arith

-- Moderating a consistent review and then recording the decision under the positive id that the
-- database gives it leaves a consistent review, whatever the action.
pub associate_decision-moderate-IsConsistent :
    (review : Review) (order_id : ℤ) (raw : ModerationInput) (report : Option ReviewReport)
    (operator_id : ℤ) (at : Instant) (id : ℤ) {m : Moderated}
    → IsConsistent review
    → pos 1 ≤ℤ id
    → moderate review order_id raw report operator_id at ≡ ok m
    → IsConsistent (associate_decision m.review (record m.decision { id = id }))
unfolding associate_decision
associate_decision-moderate-IsConsistent review order_id raw report operator_id at id {m} c h e =
    let a = moderate-IsModerated review order_id raw report operator_id at e in
    ground (arith, c, a.known_action, a.acted, a.hidden, a.shown, a.dismissed)

-- An up-to-date request to show a review again.
abbrev pub unhide_request : Review → ModerationInput
unhide_request review = record {
  action = unhide;
  category = "";
  reason = "";
  expected_version = review.version;
  report_id = pos 0;
}

-- Whoever the operator, a consistent hidden review is shown again by an up-to-date request, and the
-- decision names the one that hid it; the ids and the version are positive, and the time is set.
pub unhide_possible :
    (review : Review) (order_id operator_id : ℤ) (at : Instant) (report : Option ReviewReport)
    → IsConsistent review
    → review.visible ≡ false
    → pos 1 ≤ℤ review.version
    → pos 1 ≤ℤ order_id
    → pos 1 ≤ℤ operator_id
    → at ≢ zero_time
    → (m : Moderated) × (moderate review order_id (unhide_request review) report operator_id at
        ≡ ok m)
      × (m.review.visible ≡ true)
      × (m.decision.previous_hide_id ≡ review.hiding_decision_id)
unfolding moderate normalize check_state apply_action leb_ℤ ltb_ℤ ◌==ℤ◌
unhide_possible review order_id operator_id at report c v k o p z = (
  record {
    review = record review {
      visible = true;
      hiding_decision_id = pos 0;
      version = add_int64 review.version (pos 1);
    };
    report = report;
    decision = record (draft order_id (unhide_request review) operator_id at) {
      previous_hide_id = review.hiding_decision_id;
    };
  },
  ground (arith, c),
  refl,
  refl,
)
