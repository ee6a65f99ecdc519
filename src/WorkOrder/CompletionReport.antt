-- ===== src/WorkOrder/CompletionReport.antt =====
-- internal/domain/work_order/completion_report.go.
pub mod Images
use loresuelvo_api.Common.{
  ℕ, String, Bool, true, false, ◌||◌, ◌=ₛ◌, List, [], ◌∷◌, Option, none, some, ok, err, ◌>>=◌, ◌>>◌,
  fail_if, ℤ, pos, ltb, length, trim_space, is_empty,
}
use loresuelvo_api.Errors.{Outcome, WorkOrderError, work_order}
use loresuelvo_api.Time.{Instant, is_zero_time, zero_time}

abbrev pub max_completion_report_images : ℕ
max_completion_report_images = 3

pub record CompletionReport : Type 0 where
  pub id : ℤ
  pub description : String
  pub image_file_ids : List String
  pub reported_on : Instant

-- The `seen` map: the ids of the images already read.
unfoldable pub seen_before : String → List String → Bool
seen_before s [] = false
seen_before s (t ∷ seen) = (t =ₛ s) || seen_before s seen

-- The loop over the images.
unfoldable pub normalize_images : List String → List String → Outcome (List String)
unfolding seen_before
normalize_images seen [] = ok []
normalize_images seen (raw ∷ rest) = do
  let image = trim_space raw
  fail_if (is_empty image) (work_order WorkOrderError.completion_report_image_required)
  fail_if (seen_before image seen) (work_order WorkOrderError.completion_report_duplicate_image)
  images ← normalize_images (image ∷ seen) rest
  ok (image ∷ images)

unfoldable pub new_completion_report : String → List String → Instant → Outcome CompletionReport
unfolding normalize_images
new_completion_report description image_file_ids reported_on = do
  let trimmed = trim_space description
  fail_if (is_empty trimmed) (work_order WorkOrderError.completion_report_description_required)
  fail_if
      (ltb (length image_file_ids) 1 || ltb max_completion_report_images (length image_file_ids))
      (work_order WorkOrderError.completion_report_image_count)
  images ← normalize_images [] image_file_ids
  fail_if (is_zero_time reported_on)
      (work_order WorkOrderError.completion_report_reported_on_required)
  ok (record {
    id = pos 0;
    description = trimmed;
    image_file_ids = images;
    reported_on = reported_on;
  })
