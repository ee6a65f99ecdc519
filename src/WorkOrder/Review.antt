-- ===== src/WorkOrder/Review.antt =====
-- internal/domain/work_order/{review,review_report,review_moderation}.go.
pub mod Report
pub mod Moderation
use loresuelvo_api.Common.{
  ℕ, String, Bool, true, false, ◌||◌, ok, ◌>>=◌, ◌>>◌, fail_if, ℤ, pos, ltb_ℤ, ltb, trim_space,
  rune_count,
}
use loresuelvo_api.Errors.{Outcome, WorkOrderError, work_order}

abbrev pub minimum_review_rating : ℤ
minimum_review_rating = pos 1

abbrev pub maximum_review_rating : ℤ
maximum_review_rating = pos 5

abbrev pub maximum_review_description_size : ℕ
maximum_review_description_size = 500

pub record Review : Type 0 where
  pub work_order_id : ℤ
  pub rating : ℤ
  pub description : String
  pub visible : Bool
  pub version : ℤ
  pub hiding_decision_id : ℤ

unfoldable pub new_review : ℤ → String → Outcome Review
new_review rating description = do
  fail_if (ltb_ℤ rating minimum_review_rating || ltb_ℤ maximum_review_rating rating)
      (work_order WorkOrderError.review_rating_out_of_range)
  let trimmed = trim_space description
  fail_if (ltb maximum_review_description_size (rune_count trimmed))
      (work_order WorkOrderError.review_description_too_long)
  ok (record {
    work_order_id = pos 0;
    rating = rating;
    description = trimmed;
    visible = true;
    version = pos 1;
    hiding_decision_id = pos 0;
  })
