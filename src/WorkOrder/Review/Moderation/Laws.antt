-- ===== src/WorkOrder/Review/Moderation/Laws.antt =====
-- Moderating a review (internal/domain/work_order/review_moderation.go).
use loresuelvo_api.Common.{
  ◌≡◌, ◌≢◌, ◌⊎◌, refl, sym, ◌∙◌, arith, true, false, Option, ok, err, ℤ, pos, leb_ℤ, ltb_ℤ, ◌≤ℤ◌,
  ==ℤ_iff, add_int64, Result-cases, inl, inr,
}
use loresuelvo_api.Errors.{Error}
use loresuelvo_api.Time.{Instant}
use loresuelvo_api.WorkOrder.Review.{Review}
use loresuelvo_api.WorkOrder.Review.Report.{ReviewReport}
use loresuelvo_api.WorkOrder.Review.Moderation.{
  Action, hide, unhide, dismiss_reports, other, ModerationInput, normalize, Moderated, moderate,
  apply_action, check_state, draft,
}

-- What `Normalize` lets through, it changes in the reason alone.
pub record IsNormalized (raw input : ModerationInput) : Type 0 where
  pub same_action : input.action ≡ raw.action
  pub same_category : input.category ≡ raw.category
  pub same_version : input.expected_version ≡ raw.expected_version
  pub same_report : input.report_id ≡ raw.report_id
  pub versioned : pos 1 ≤ℤ raw.expected_version
  pub report_nonneg : pos 0 ≤ℤ raw.report_id
  pub known : (raw.action ≡ hide) ⊎ ((raw.action ≡ unhide) ⊎ (raw.action ≡ dismiss_reports))

normalize-IsNormalized :
    (raw input : ModerationInput) → normalize raw ≡ ok input → IsNormalized raw input
unfolding normalize leb_ℤ ltb_ℤ
normalize-IsNormalized raw input e = ground arith

next_version-ne : (v : ℤ) → pos 1 ≤ℤ v → add_int64 v (pos 1) ≢ v
unfolding add_int64
next_version-ne v h = ground arith

-- What each success comes from: the input is normalised and up to date, the named report is pending,
-- and the action is applied.
pub record IsModerated (review : Review) (order_id : ℤ) (raw : ModerationInput)
    (report : Option ReviewReport) (m : Moderated) : Type 0 where
  pub versioned : pos 1 ≤ℤ review.version
  pub up_to_date : raw.expected_version ≡ review.version
  pub next_version : m.review.version ≡ add_int64 review.version (pos 1)
  pub known_action : (raw.action ≡ hide) ⊎ ((raw.action ≡ unhide) ⊎ (raw.action ≡ dismiss_reports))
  pub acted : m.decision.action ≡ raw.action
  pub hidden :
      raw.action ≡ hide
      → (m.review.visible ≡ false) × (m.review.hiding_decision_id ≡ review.hiding_decision_id)
  pub shown :
      raw.action ≡ unhide
      → (review.visible ≡ false)
        × (m.review.visible ≡ true)
        × (m.review.hiding_decision_id ≡ pos 0)
        × (m.decision.previous_hide_id ≡ review.hiding_decision_id)
        × (m.report ≡ report)
  pub dismissed :
      raw.action ≡ dismiss_reports
      → (m.review.visible ≡ review.visible)
        × (m.review.hiding_decision_id ≡ review.hiding_decision_id)
  pub same_text : (m.review.rating ≡ review.rating) × (m.review.description ≡ review.description)

-- The guards passed, only the `switch` is left.
moderate-guards :
    (review : Review) (order_id : ℤ) (raw : ModerationInput) (report : Option ReviewReport)
    (operator_id : ℤ) (at : Instant) (input : ModerationInput) {m : Moderated}
    → normalize raw ≡ ok input
    → moderate review order_id raw report operator_id at ≡ ok m
    → (review.version ≡ input.expected_version)
      × (check_state review input.action input.report_id ≡ false)
      × (apply_action review report (draft order_id input operator_id at) input.action ≡ ok m)
unfolding moderate
moderate-guards review order_id raw report operator_id at input n e =
    ground (arith, ==ℤ_iff review.version input.expected_version)

apply_action-IsModerated :
    (review : Review) (order_id : ℤ) (input : ModerationInput) (report : Option ReviewReport)
    (operator_id : ℤ) (at : Instant) (action : Action) (m : Moderated)
    → action ≡ input.action
    → pos 1 ≤ℤ review.version
    → input.expected_version ≡ review.version
    → (action ≡ hide) ⊎ ((action ≡ unhide) ⊎ (action ≡ dismiss_reports))
    → check_state review action input.report_id ≡ false
    → apply_action review report (draft order_id input operator_id at) action ≡ ok m
    → IsModerated review order_id input report m
unfolding apply_action check_state
apply_action-IsModerated review order_id input report operator_id at (other s) m a v u k c e =
    absurd (ground arith)
apply_action-IsModerated review order_id input report operator_id at hide m a v u k c e = record {
  versioned = v;
  up_to_date = u;
  next_version = ground arith;
  known_action = inl (sym a);
  acted = ground arith;
  hidden = λ _. ground arith;
  shown = λ b. ground arith;
  dismissed = λ b. ground arith;
  same_text = ground arith;
}
apply_action-IsModerated review order_id input report operator_id at unhide m a v u k c e = record {
  versioned = v;
  up_to_date = u;
  next_version = ground arith;
  known_action = inr (inl (sym a));
  acted = ground arith;
  hidden = λ b. ground arith;
  shown = λ _. ground arith;
  dismissed = λ b. ground arith;
  same_text = ground arith;
}
apply_action-IsModerated review order_id input report operator_id at dismiss_reports m a v u k c e =
    record {
      versioned = v;
      up_to_date = u;
      next_version = ground arith;
      known_action = inr (inr (sym a));
      acted = ground arith;
      hidden = λ b. ground arith;
      shown = λ b. ground arith;
      dismissed = λ _. ground arith;
      same_text = ground arith;
    }

pub moderate-IsModerated :
    (review : Review) (order_id : ℤ) (raw : ModerationInput) (report : Option ReviewReport)
    (operator_id : ℤ) (at : Instant) {m : Moderated}
    → moderate review order_id raw report operator_id at ≡ ok m
    → IsModerated review order_id raw report m
unfolding moderate
moderate-IsModerated review order_id raw report operator_id at {m} e =
    elim (Result-cases (normalize raw)) [
      | inr (_, e') ↦ absurd (ground arith)
      | inl (input, e') ↦
          let n = normalize-IsNormalized raw input e' in
          let (v, c, a) = moderate-guards review order_id raw report operator_id at input e' e in
          let h =
            apply_action-IsModerated review order_id input report operator_id at input.action m refl
              (ground (arith, n.versioned, n.same_version)) (sym v)
              (ground (arith, n.known, n.same_action)) c a in
          record {
            versioned = h.versioned;
            up_to_date = sym n.same_version ∙ h.up_to_date;
            next_version = h.next_version;
            known_action = n.known;
            acted = h.acted ∙ n.same_action;
            hidden = λ b. h.hidden (n.same_action ∙ b);
            shown = λ b. h.shown (n.same_action ∙ b);
            dismissed = λ b. h.dismissed (n.same_action ∙ b);
            same_text = h.same_text;
          }
    ]

-- Two moderations of one version: whatever the second asks for, it is refused once the first is done.
pub moderate_stale :
    (review : Review) (order_id order_id' : ℤ) (raw raw' : ModerationInput)
    (report report' : Option ReviewReport) (operator_id operator_id' : ℤ) (at at' : Instant)
    {m : Moderated}
    → moderate review order_id raw report operator_id at ≡ ok m
    → raw'.expected_version ≡ raw.expected_version
    → (e : Error) × (moderate m.review order_id' raw' report' operator_id' at' ≡ err e)
moderate_stale review order_id order_id' raw raw' report report' operator_id operator_id' at at' {m}
      done same =
    elim (Result-cases (moderate m.review order_id' raw' report' operator_id' at')) [
      | inr refused ↦ refused
      | inl (m', e) ↦
          let a = moderate-IsModerated review order_id raw report operator_id at done in
          let b = moderate-IsModerated m.review order_id' raw' report' operator_id' at' e in
          absurd (
            next_version-ne review.version a.versioned
              (cc (a.up_to_date, b.up_to_date, a.next_version)))
    ]
