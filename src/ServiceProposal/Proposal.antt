-- ===== src/ServiceProposal/Proposal.antt =====
-- internal/domain/service_proposal/service_proposal.go.
pub mod Laws
use loresuelvo_api.Common.{
  ℕ, ◌+◌, ◌*◌, String, Bool, not, ◌||◌, ◌=ₛ◌, Option, none, some, ok, err, ◌>>=◌, ◌>>◌, fail_if,
  if◌then◌else◌, ℤ, pos, ltb_ℤ, leb_ℤ, ◌==ℤ◌,
}
use loresuelvo_api.Errors.{Outcome, ProposalError, proposal, nil_dereference}
use loresuelvo_api.Time.{Instant, after}
use loresuelvo_api.User.{User}
use loresuelvo_api.Notification.{Notification, new_notification, Kind, ResourceType}
use loresuelvo_api.ServiceProposal.BookingTerms.{BookingTerms, minimum_booking_lead_time}

abbrev pub minimum_estimated_duration_minutes : ℤ
minimum_estimated_duration_minutes = pos 15

abbrev pub maximum_estimated_duration_minutes : ℤ
maximum_estimated_duration_minutes = pos (24 * 60)

abbrev pub legacy_estimated_duration_minutes : ℤ
legacy_estimated_duration_minutes = pos 60

pub data Status : Type 0 where
  pending accepted rejected : Status

-- `Status != StatusPending`
abbrev pub is_pending : Status → Bool
is_pending Status.pending = Bool.true
is_pending _ = Bool.false

-- What the proposal reads of its conversation, `IsActive()`, and the conversation's identity.
pub record Conversation : Type 0 where
  pub id : ℤ
  pub is_active : Bool

-- A nil `*Provider` or `*Consumer` is `none`.
pub record ServiceProposal : Type 0 where
  pub id : ℤ
  pub provider : Option User
  pub consumer : Option User
  pub conversation : Conversation
  pub scheduled_on : Instant
  pub description : String
  pub estimated_duration_minutes : ℤ
  pub status : Status
  pub created_on : Instant
  pub booking_terms : BookingTerms

-- `u.ID()` on a pointer that may be nil.
abbrev pub id_of : Option User → Outcome ℤ
id_of none = err nil_dereference
id_of (some u) = ok u.id

-- `u != nil && u.ID() == id`
abbrev pub has_id : Option User → ℤ → Bool
has_id none id = Bool.false
has_id (some u) id = u.id ==ℤ id

unfoldable pub validate_parameters : Instant → Instant → Outcome (Unit {0})
validate_parameters scheduled_on now = do
  fail_if (not (after scheduled_on now)) (proposal ProposalError.invalid_scheduled_on)
  fail_if (not (after scheduled_on (now + minimum_booking_lead_time)))
      (proposal ProposalError.insufficient_booking_lead_time)
  ok tt

unfoldable pub validate_estimated_duration : ℤ → Outcome (Unit {0})
validate_estimated_duration minutes = do
  fail_if (leb_ℤ minutes (pos 0)) (proposal ProposalError.estimated_duration_required)
  fail_if
      (ltb_ℤ minutes minimum_estimated_duration_minutes
        || ltb_ℤ maximum_estimated_duration_minutes minutes)
      (proposal ProposalError.invalid_estimated_duration)
  ok tt

abbrev pub duration_or_legacy : Option ℤ → ℤ
duration_or_legacy none = legacy_estimated_duration_minutes
duration_or_legacy (some minutes) = minutes

-- `now` is the time that `clock.Now` returns, `duration` the first of the variadic durations.
unfoldable pub new_service_proposal :
    Option User
    → Option User
    → Conversation
    → Instant
    → String
    → BookingTerms
    → Instant
    → Option ℤ
    → Outcome ServiceProposal
unfolding validate_parameters validate_estimated_duration
new_service_proposal provider consumer conversation scheduled_on description terms now duration = do
  validate_parameters scheduled_on now
  let minutes = duration_or_legacy duration
  validate_estimated_duration minutes
  fail_if (not conversation.is_active) (proposal ProposalError.conversation_not_active)
  ok (record {
    id = pos 0;
    provider = provider;
    consumer = consumer;
    conversation = conversation;
    scheduled_on = scheduled_on;
    description = description;
    estimated_duration_minutes = minutes;
    status = Status.pending;
    created_on = now;
    booking_terms = terms;
  })

unfoldable pub accept : ServiceProposal → ℤ → Instant → Outcome ServiceProposal
accept sp consumer_id accepted_on = do
  fail_if (not (has_id sp.consumer consumer_id)) (proposal ProposalError.only_recipient_can_accept)
  fail_if (not (is_pending sp.status)) (proposal ProposalError.only_pending_can_be_accepted)
  fail_if (not (after sp.scheduled_on accepted_on))
      (proposal ProposalError.service_proposal_expired)
  ok (record sp { status = Status.accepted })

unfoldable pub create_notification : ServiceProposal → ℤ → Kind → Instant → Notification
unfolding new_notification
create_notification sp recipient_id kind now =
    new_notification recipient_id kind ResourceType.service_proposal sp.id now
      (some sp.estimated_duration_minutes)

unfoldable pub create_received_notification : ServiceProposal → Instant → Outcome Notification
unfolding create_notification
create_received_notification sp now = do
  recipient ← id_of sp.consumer
  ok (create_notification sp recipient Kind.service_proposal_received now)

unfoldable pub create_accepted_notification : ServiceProposal → Instant → Outcome Notification
unfolding create_notification
create_accepted_notification sp now = do
  recipient ← id_of sp.provider
  ok (create_notification sp recipient Kind.service_proposal_accepted now)

abbrev pub or_nil : Option User → Outcome User
or_nil none = err nil_dereference
or_nil (some u) = ok u

unfoldable pub counterpart_for : ServiceProposal → String → Outcome User
counterpart_for sp auth_id = do
  consumer ← or_nil sp.consumer
  if consumer.auth_id =ₛ auth_id then or_nil sp.provider else (do
    provider ← or_nil sp.provider
    if provider.auth_id =ₛ auth_id
        then ok consumer
        else err (proposal ProposalError.only_participant_can_view))
