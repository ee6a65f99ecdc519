-- ===== src/ServiceProposal/Proposal/Laws.antt =====
-- The life of a proposal (internal/domain/service_proposal/service_proposal.go).
use loresuelvo_api.Common.{
  ◌+◌, ◌<◌, ◌≡◌, ◌⊎◌, ◌↔◌, arith, String, true, Option, ok, err, ℤ, pos, ltb_ℤ, leb_ℤ, ◌≤ℤ◌,
}
use loresuelvo_api.Errors.{ProposalError, proposal}
use loresuelvo_api.Time.{Instant}
use loresuelvo_api.User.{User}
use loresuelvo_api.ServiceProposal.BookingTerms.{BookingTerms, minimum_booking_lead_time}
use loresuelvo_api.ServiceProposal.Proposal.{
  ServiceProposal, Status, Conversation, has_id, new_service_proposal, accept, duration_or_legacy,
}

-- What a proposal is created with.
pub record IsCreatable (conversation : Conversation) (scheduled_on now : Instant) (minutes : ℤ)
    : Type 0 where
  pub lead : now + minimum_booking_lead_time < scheduled_on
  pub long_enough : pos 15 ≤ℤ minutes
  pub short_enough : minutes ≤ℤ pos 1440
  pub active : conversation.is_active ≡ true

module _ (provider consumer : Option User) (conversation : Conversation)
    (scheduled_on now : Instant) (description : String) (terms : BookingTerms)
    (duration : Option ℤ) where
  abbrev created : ServiceProposal
  created = record {
    id = pos 0;
    provider = provider;
    consumer = consumer;
    conversation = conversation;
    scheduled_on = scheduled_on;
    description = description;
    estimated_duration_minutes = duration_or_legacy duration;
    status = Status.pending;
    created_on = now;
    booking_terms = terms;
  }

  -- A proposal is created exactly when it is scheduled more than a day ahead, lasts between 15 and
  -- 1440 minutes and its conversation is active; it is then pending, with the fields given.
  pub new_service_proposal-ok_iff :
      (sp : ServiceProposal)
      → (new_service_proposal provider consumer conversation scheduled_on description terms now
            duration
          ≡ ok sp)
        ↔ (IsCreatable conversation scheduled_on now (duration_or_legacy duration) × (sp ≡ created))
  unfolding new_service_proposal leb_ℤ ltb_ℤ
  new_service_proposal-ok_iff sp = (λ e. ground arith, λ h. ground (arith, h.1))

-- What an acceptance asks for.
pub record IsAcceptable (sp : ServiceProposal) (consumer_id : ℤ) (accepted_on : Instant)
    : Type 0 where
  pub recipient : has_id sp.consumer consumer_id ≡ true
  pub pending : sp.status ≡ Status.pending
  pub in_time : accepted_on < sp.scheduled_on

-- `Accept` succeeds exactly for the proposal's consumer, on a pending proposal, before the scheduled
-- time, and changes the status alone.
pub accept-ok_iff :
    (sp sp' : ServiceProposal) (consumer_id : ℤ) (accepted_on : Instant)
    → (accept sp consumer_id accepted_on ≡ ok sp')
      ↔ (IsAcceptable sp consumer_id accepted_on × (sp' ≡ record sp { status = Status.accepted }))
unfolding accept
accept-ok_iff sp sp' consumer_id accepted_on = (λ e. ground arith, λ h. ground arith)

-- A proposal is accepted at most once, whoever asks and whenever.
accept_twice :
    (sp sp' : ServiceProposal) (consumer_id other_id : ℤ) (accepted_on later : Instant)
    → accept sp consumer_id accepted_on ≡ ok sp'
    → (accept sp' other_id later ≡ err (proposal ProposalError.only_recipient_can_accept))
      ⊎ (accept sp' other_id later ≡ err (proposal ProposalError.only_pending_can_be_accepted))
unfolding accept
accept_twice sp sp' consumer_id other_id accepted_on later e = ground arith
