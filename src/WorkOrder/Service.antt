-- ===== src/WorkOrder/Service.antt =====
-- CreateReview and ReportCompletion of internal/domain/work_order/service.go, with the unit of work of
-- internal/adapters/repositories/work_order_unit_of_work.go. The preparation of the images by the
-- service of files is an argument, and an image is known by the id of its file.
pub mod Allowed
pub mod Reviewed
pub mod Reported
use loresuelvo_api.Common
use loresuelvo_api.Common.{
  ℕ, ◌+◌, ◌&&◌, ◌=ₛ◌, String, Bool, true, false, not, ◌||◌, List, [], ◌∷◌, Option, none, some, ok,
  err, map_err, fail_if, if◌then◌else◌, ℤ, pos, leb_ℤ, ◌==ℤ◌, is_some, length,
}
use loresuelvo_api.Errors.{Error, Outcome, WorkOrderError, work_order, wrapped}
use loresuelvo_api.Time.{Instant}
use loresuelvo_api.User.{User, Role}
use loresuelvo_api.Notification.{Notification, Kind, ResourceType, new_notification}
use loresuelvo_api.WorkOrder.CompletionReport.{CompletionReport, new_completion_report}
use loresuelvo_api.WorkOrder.Review.{Review, new_review}
use loresuelvo_api.WorkOrder.State.{State, scheduled_state, awaiting_payment_state, paid_state}
use loresuelvo_api.WorkOrder.Order.{WorkOrder, consumer_id, provider_id}
use loresuelvo_api.WorkOrder.Order.Methods
use loresuelvo_api.WorkOrder.Restore.{CompletionReportRestoreInput}
use loresuelvo_api.Work.{
  ◌>>=◌, ◌>>◌, lift, pure, port, read, write, unit_of_work_as, clock_now, first, change,
}
use loresuelvo_api.Payment.World.{OrderRow, Tables, World, M}
use loresuelvo_api.Payment.World.Orders.{
  find_user_by_auth_id, find_order_by_id, put_order, put_notification, numbered, save_notification,
}
use loresuelvo_api.Payment.Service.{notify}

-- `Execute`, with its texts.
abbrev pub executed {ℓ} : {A : Type ℓ} → M A → M A
executed operation =
    unit_of_work_as "beginning work order unit of work" "committing work order unit of work"
      operation

abbrev pub is_consumer : Role → Bool
is_consumer Role.consumer = true
is_consumer _ = false

abbrev pub is_provider : Role → Bool
is_provider Role.provider = true
is_provider _ = false

-- read_model/review.go
pub record ShownReview : Type 0 where
  pub rating : ℤ
  pub description : String

unfoldable pub review_to_read_model : Review → ShownReview
review_to_read_model review = record {
  rating = review.rating;
  description = if review.visible then review.description else "";
}

-- What CreateReview checks once it has the user and the order: the review, and the order with it.
unfoldable pub reviewed : User → WorkOrder → ℤ → String → Outcome (Review × WorkOrder)
unfolding new_review Methods.add_review
reviewed user order rating description =
    Common.◌>>=◌
      (fail_if (not (is_consumer user.role))
        (work_order WorkOrderError.only_work_order_consumer_can_review))
      (λ _. Common.◌>>=◌ (new_review rating description) (λ review.
        Common.◌>>=◌ (Methods.add_review order (some user) (some review))
          (λ left. ok (review, left))))

unfoldable pub create_review : String → ℤ → ℤ → String → M ShownReview
unfolding reviewed review_to_read_model find_user_by_auth_id find_order_by_id
create_review auth_id work_order_id rating description = do
  user ← find_user_by_auth_id auth_id
  order ← find_order_by_id work_order_id
  made ← lift (reviewed user order rating description)
  executed (write (put_order made.1))
  pure (review_to_read_model made.0)

-- What `PrepareWorkOrderCompletionImages` answers.
pub data Preparation : Type 0 where
  prepared : List String → Preparation
  not_available : Preparation
  failed : Error → Preparation

unfoldable pub prepared_images : Preparation → Outcome (List String)
prepared_images (prepared images) = ok images
prepared_images not_available =
    err (work_order WorkOrderError.work_order_completion_image_not_available)
prepared_images (failed e) = err (wrapped "validating work order completion images" e)

abbrev pub has_report : OrderRow → Bool
has_report r = is_some r.columns.completion_report

unfoldable pub reports_in : List OrderRow → ℕ
reports_in [] = 0
reports_in (r ∷ rows) = (if has_report r then 1 else 0) + reports_in rows

abbrev pub id_or_next : Option CompletionReportRestoreInput → ℤ → ℤ
id_or_next none next = next
id_or_next (some report) next = report.id

abbrev pub id_of_report : Option OrderRow → ℤ → ℤ
id_of_report none next = next
id_of_report (some r) next = id_or_next r.columns.completion_report next

-- `INSERT ... ON CONFLICT ... RETURNING id`: the row of a report keeps its id, a new one gets the next.
unfoldable pub report_id_for : WorkOrder → List OrderRow → ℤ
unfolding reports_in
report_id_for wo rows =
    id_of_report (first (λ (r : OrderRow). r.columns.id ==ℤ wo.id) rows) (pos (reports_in rows + 1))

-- `file_id UUID NOT NULL UNIQUE`: the image is one of the report of another order.
abbrev pub has_image : String → List String → Bool
has_image image [] = false
has_image image (i ∷ images) = (i =ₛ image) || has_image image images

abbrev pub images_in : Option CompletionReportRestoreInput → List String
images_in none = []
images_in (some report) = report.image_file_ids

unfoldable pub is_taken : ℤ → String → List OrderRow → Bool
is_taken id image [] = false
is_taken id image (r ∷ rows) =
    (not (r.columns.id ==ℤ id) && has_image image (images_in r.columns.completion_report))
    || is_taken id image rows

unfoldable pub any_taken : ℤ → List String → List OrderRow → Bool
unfolding is_taken
any_taken id [] rows = false
any_taken id (image ∷ images) rows = is_taken id image rows || any_taken id images rows

-- The report of an order is a pointer: its new id is that of the order as well.
abbrev pub with_report : CompletionReport → State → State
with_report report scheduled_state = scheduled_state
with_report report (awaiting_payment_state _) = awaiting_payment_state report
with_report report (paid_state _ on review) = paid_state report on review

-- `SaveWorkOrder` of an order with a report.
unfoldable pub put_reported : WorkOrder → CompletionReport → Tables → Outcome Tables
unfolding put_order any_taken
put_reported wo report t =
    Common.◌>>=◌ (put_order (record wo { state = with_report report wo.state }) t) (λ t'.
      Common.◌>>=◌
        (fail_if (any_taken wo.id report.image_file_ids t.orders)
          (work_order WorkOrderError.completion_report_image_not_available))
        (λ _. ok t'))

-- The report with the id that its row gets.
abbrev pub saved_report : WorkOrder → CompletionReport → Tables → CompletionReport
saved_report wo report t = record report { id = report_id_for wo t.orders }

unfoldable pub reported_change :
    WorkOrder → CompletionReport → Tables → Outcome (Tables × CompletionReport)
unfolding put_reported report_id_for
reported_change wo report t =
    Common.◌>>=◌ (put_reported wo (saved_report wo report t) t)
      (λ t'. ok (t', saved_report wo report t))

unfoldable pub save_reported : WorkOrder → CompletionReport → M CompletionReport
unfolding reported_change
save_reported wo report = change (reported_change wo report)

-- `foundUser.Role() != provider.Role || foundUser.ID() != order.ProviderID()`
unfoldable pub check_reporter : User → WorkOrder → Outcome (Unit {0})
unfolding provider_id
check_reporter user order =
    let forbidden = work_order WorkOrderError.only_assigned_provider_can_report in
    Common.◌>>=◌ (fail_if (not (is_provider user.role)) forbidden) (λ _.
      Common.◌>>=◌ (provider_id order) (λ assigned. fail_if (not (user.id ==ℤ assigned)) forbidden))

-- The report, and that the order takes it.
unfoldable pub reported :
    User → WorkOrder → String → List String → Instant → Outcome (CompletionReport × WorkOrder)
unfolding new_completion_report Methods.report_completion
reported user order description images now =
    Common.◌>>=◌ (new_completion_report description images now) (λ report.
      Common.◌>>=◌ (Methods.report_completion order user.id (some report))
        (λ left. ok (report, left)))

abbrev pub report_notification : ℤ → WorkOrder → Instant → Notification
report_notification recipient order now =
    new_notification recipient Kind.work_order_completion_reported ResourceType.work_order order.id
      now none

-- The unit of work of a report.
unfoldable pub commit_report :
    WorkOrder → CompletionReport → Notification → M (CompletionReport × Notification)
unfolding save_reported save_notification
commit_report order report notification = executed (do
  left ← save_reported order report
  saved ← save_notification notification
  pure (left, saved))

-- `_ = s.notificator.Notify(...)`: a call whose error is left aside.
abbrev pub quietly : M (Unit {0}) → M (Unit {0})
quietly m w = ((m w).0, ok tt)

-- read_model/completion_report.go
pub record ShownReport : Type 0 where
  pub id : ℤ
  pub description : String
  pub reported_on : Instant
  pub images : List String

abbrev pub report_to_read_model : CompletionReport → List String → ShownReport
report_to_read_model report images = record {
  id = report.id;
  description = report.description;
  reported_on = report.reported_on;
  images = images;
}

unfoldable pub report_completion :
    (String → List String → Preparation) → String → ℤ → String → List String → M ShownReport
unfolding check_reporter prepared_images reported commit_report notify consumer_id new_notification
    find_user_by_auth_id find_order_by_id
report_completion prepare auth_id work_order_id description image_file_ids = do
  user ← find_user_by_auth_id auth_id
  order ← find_order_by_id work_order_id
  lift (check_reporter user order)
  port
  images ← lift (prepared_images (prepare auth_id image_file_ids))
  now ← clock_now
  made ← lift (reported user order description images now)
  recipient ← lift (consumer_id made.1)
  notified_at ← clock_now
  saved ← commit_report made.1 made.0 (report_notification recipient made.1 notified_at)
  quietly (notify saved.1)
  pure (report_to_read_model saved.0 images)
