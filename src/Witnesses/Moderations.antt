-- ===== src/Witnesses/Moderations.antt =====
-- Moderated reviews.
use mathlib.Core.Bool.{Bool}
use loresuelvo_api.Common.{
  ◌≡◌, inr, inl, refl, arith, none, ok, err, pos, leb_ℤ, ltb_ℤ, ◌==ℤ◌, add_int64, trim_space,
}
use loresuelvo_api.Errors.{Error}
use loresuelvo_api.WorkOrder.Review.{Review}
use loresuelvo_api.WorkOrder.Review.Moderation.{
  hide, ModerationInput, Moderated, normalize, check_state, apply_action, moderate,
  associate_decision, draft,
}
use loresuelvo_api.WorkOrder.Review.Moderation.Laws.{moderate_stale}
use loresuelvo_api.WorkOrder.Review.Moderation.Hiding.{
  IsConsistent, unhide_request, associate_decision-moderate-IsConsistent, unhide_possible,
}
use loresuelvo_api.Witnesses.{now}

abbrev shown : Review
shown = record {
  work_order_id = pos 4;
  rating = pos 1;
  description = "bad";
  visible = Bool.true;
  version = pos 1;
  hiding_decision_id = pos 0;
}

abbrev hiding : ModerationInput
hiding = record {
  action = hide;
  category = "spam_advertising";
  reason = "advert";
  expected_version = pos 1;
  report_id = pos 0;
}

abbrev hidden : Moderated
hidden = record {
  review = record shown { visible = Bool.false; version = pos 2 };
  report = none;
  decision = draft (pos 4) hiding (pos 8) now;
}

moderate_stale_example :
    (e : Error) × (moderate hidden.review (pos 4) hiding none (pos 6) now ≡ err e)
unfolding moderate normalize check_state apply_action leb_ℤ ltb_ℤ ◌==ℤ◌ add_int64 trim_space
moderate_stale_example =
    moderate_stale shown (pos 4) (pos 4) hiding hiding none none (pos 8) (pos 6) now now
      {m = hidden} refl refl

associate_decision-moderate-IsConsistent_example :
    IsConsistent (associate_decision hidden.review (record hidden.decision { id = pos 3 }))
unfolding moderate normalize check_state apply_action leb_ℤ ltb_ℤ ◌==ℤ◌ add_int64 trim_space
associate_decision-moderate-IsConsistent_example =
    associate_decision-moderate-IsConsistent shown (pos 4) hiding none (pos 8) now (pos 3)
      {m = hidden} (inl (refl, refl)) (omega arith) refl

abbrev bound : Review
bound = record hidden.review { hiding_decision_id = pos 3 }

unhide_possible_example :
    (m : Moderated) × (moderate bound (pos 4) (unhide_request bound) none (pos 6) now ≡ ok m)
    × (m.review.visible ≡ Bool.true)
    × (m.decision.previous_hide_id ≡ pos 3)
unhide_possible_example =
    unhide_possible bound (pos 4) (pos 6) now none (inr (refl, omega arith)) refl (omega arith)
      (omega arith) (omega arith) (omega arith)
