-- ===== src/Notification.antt =====
-- internal/domain/notification: the notifications that the other parts create.
use loresuelvo_api.Common.{ℤ, pos, Option, none, some}
use loresuelvo_api.Time.{Instant}

pub data Kind : Type 0 where
  job_request_received work_order_final_payment_approved service_proposal_received : Kind
  service_proposal_accepted service_proposal_rejected work_order_close_to_scheduled_time : Kind
  work_order_completion_reported calendar_reauthorization_required : Kind

pub data ResourceType : Type 0 where
  job_request service_proposal work_order calendar_connection : ResourceType

pub record Notification : Type 0 where
  pub id : ℤ
  pub user_id : ℤ
  pub kind : Kind
  pub resource_type : ResourceType
  pub resource_id : ℤ
  pub estimated_duration_minutes : ℤ
  pub read_at : Option Instant
  pub created_at : Instant

-- The first of the optional durations, or the zero value.
abbrev first_or_zero : Option ℤ → ℤ
first_or_zero none = pos 0
first_or_zero (some d) = d

-- `NewNotification`, with the time that its call of `clock.Now` returns and the first of its
-- variadic durations.
unfoldable pub new_notification : ℤ → Kind → ResourceType → ℤ → Instant → Option ℤ → Notification
new_notification user_id kind resource_type resource_id now duration = record {
  id = pos 0;
  user_id = user_id;
  kind = kind;
  resource_type = resource_type;
  resource_id = resource_id;
  estimated_duration_minutes = first_or_zero duration;
  read_at = none;
  created_at = now;
}
