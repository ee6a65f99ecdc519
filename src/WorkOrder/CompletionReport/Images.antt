-- ===== src/WorkOrder/CompletionReport/Images.antt =====
-- What an accepted completion report holds (internal/domain/work_order/completion_report.go).
use loresuelvo_api.Common.{
  ◌≤◌, ◌≡◌, ◌≢◌, ◌↔◌, refl, arith, String, false, List, [], ◌∷◌, map, ok, pos, length, trim_space,
  is_empty, inl, inr, Result-cases,
}
use loresuelvo_api.Time.{Instant, zero_time}
use loresuelvo_api.WorkOrder.CompletionReport.{
  CompletionReport, seen_before, normalize_images, new_completion_report,
}

-- No image is empty, none is in `seen`, and no two are the same.
abbrev pub AreFresh : List String → List String → Type 0
AreFresh seen [] = Unit {0}
AreFresh seen (image ∷ images) =
    (is_empty image ≡ false) × (seen_before image seen ≡ false) × AreFresh (image ∷ seen) images

normalize_images-AreFresh :
    (seen raw images : List String)
    → normalize_images seen raw ≡ ok images
    → AreFresh seen (map trim_space raw) × (images ≡ map trim_space raw)
unfolding normalize_images
normalize_images-AreFresh seen [] images e = ground arith
normalize_images-AreFresh seen (x ∷ raw) images e =
    elim (Result-cases (normalize_images (trim_space x ∷ seen) raw)) [
      | inl (rest, e') ↦ ground (arith, normalize_images-AreFresh (trim_space x ∷ seen) raw rest e')
      | inr (_, e') ↦ ground arith
    ]

normalize_images-ok :
    (seen raw : List String)
    → AreFresh seen (map trim_space raw)
    → normalize_images seen raw ≡ ok (map trim_space raw)
unfolding normalize_images
normalize_images-ok seen [] h = refl
normalize_images-ok seen (x ∷ raw) h = ground (arith, normalize_images-ok (trim_space x ∷ seen) raw)

-- What `NewCompletionReport` lets through.
pub record IsReportable (description : String) (image_file_ids : List String)
    (reported_on : Instant) : Type 0 where
  pub described : is_empty (trim_space description) ≡ false
  pub some_images : 1 ≤ length image_file_ids
  pub few_images : length image_file_ids ≤ 3
  pub fresh_images : AreFresh [] (map trim_space image_file_ids)
  pub dated : reported_on ≢ zero_time

-- A completion report is created exactly from a description that is not blank, one to three images
-- that are not blank and differ after trimming, and a time; it holds the trimmed texts, in order.
pub new_completion_report-ok_iff :
    (description : String) (image_file_ids : List String) (reported_on : Instant)
    (report : CompletionReport)
    → (new_completion_report description image_file_ids reported_on ≡ ok report) ↔ (
        IsReportable description image_file_ids reported_on
        × (report ≡ record {
          id = pos 0;
          description = trim_space description;
          image_file_ids = map trim_space image_file_ids;
          reported_on = reported_on;
        }))
unfolding new_completion_report
new_completion_report-ok_iff description image_file_ids reported_on report = (
  λ e. elim (Result-cases (normalize_images [] image_file_ids)) [
    | inl (images, e') ↦ ground (arith, normalize_images-AreFresh [] image_file_ids images e')
    | inr (_, e') ↦ ground arith
  ],
  λ h. ground (arith, h.1, normalize_images-ok [] image_file_ids h.0.fresh_images),
)
