-- ===== src/Payment/BookingCheckoutPolicy/Laws.antt =====
-- Who may open a booking checkout, and until when
-- (internal/domain/payment/booking_checkout_policy.go).
use loresuelvo_api.Common.{
  ℕ, ◌+◌, ◌-◌, ◌≤◌, ◌<◌, ◌≡◌, ◌≢◌, ◌↔◌, arith, String, true, Option, some, ok, ℤ, ==ℤ_iff, ap,
}
use loresuelvo_api.Time.{Instant}
use loresuelvo_api.User.{User}
use loresuelvo_api.ServiceProposal.BookingTerms.{
  BookingTerms, calculate, new_booking_policy, minimum_booking_lead_time,
}
use loresuelvo_api.ServiceProposal.BookingTerms.Pricing.{calculate-ok_iff}
use loresuelvo_api.ServiceProposal.Proposal.{
  ServiceProposal, Status, Conversation, has_id, new_service_proposal,
}
use loresuelvo_api.ServiceProposal.Proposal.Laws.{new_service_proposal-ok_iff}
use loresuelvo_api.Payment.BookingCheckoutPolicy.{authorize, expiration}

-- What a checkout asks for.
pub record IsPayable (sp : ServiceProposal) (consumer_id : ℤ) (now : Instant) : Type 0 where
  pub recipient : has_id sp.consumer consumer_id ≡ true
  pub pending : sp.status ≡ Status.pending
  pub provided : sp.provider ≢ Option.none
  pub in_time : now < sp.booking_terms.booking_payment_deadline

-- The policy authorizes exactly the proposal's consumer, while the proposal is pending and its
-- payment deadline has not come.
pub authorize-ok_iff :
    (sp : ServiceProposal) (consumer_id : ℤ) (now : Instant)
    → (authorize sp consumer_id now ≡ ok tt) ↔ IsPayable sp consumer_id now
unfolding authorize
authorize-ok_iff sp consumer_id now = (λ e. ground arith, λ h. ground arith)

-- A checkout of a positive validity opened while the policy authorizes it runs out later than now, no
-- later than the deadline and no later than its validity allows.
expiration_bounds :
    (sp : ServiceProposal) (consumer_id : ℤ) (now : Instant) (validity : ℕ)
    → 0 < validity
    → authorize sp consumer_id now ≡ ok tt
    → (now < expiration sp.booking_terms now validity)
      × (expiration sp.booking_terms now validity ≤ sp.booking_terms.booking_payment_deadline)
      × (expiration sp.booking_terms now validity ≤ now + validity)
unfolding authorize expiration
expiration_bounds sp consumer_id now validity v e = ground arith

-- A proposal that has just been made with terms from the booking policy can be paid for at once by
-- its consumer.
new_service_proposal-authorized :
    (provider consumer : User) (conversation : Conversation) (service : ℤ)
    (scheduled_on now : Instant) (description : String) (terms : BookingTerms) (duration : Option ℤ)
    {sp : ServiceProposal}
    → calculate new_booking_policy service scheduled_on ≡ ok terms
    → new_service_proposal
        (some provider)
        (some consumer)
        conversation
        scheduled_on
        description
        terms
        now
        duration
      ≡ ok sp
    → authorize sp consumer.id now ≡ ok tt
unfolding authorize
new_service_proposal-authorized provider consumer conversation service scheduled_on now description
      terms duration {sp} c e =
    let (h, es) =
      (new_service_proposal-ok_iff (some provider) (some consumer) conversation scheduled_on now
          description terms duration sp).0
        e in
    let (n, _, _, _, _, et) = (calculate-ok_iff service scheduled_on terms).0 c in
    let lead = h.lead in
    let d : terms.booking_payment_deadline ≡ scheduled_on - minimum_booking_lead_time =
      ap (λ (t : BookingTerms). t.booking_payment_deadline) et in
    ground (arith, ==ℤ_iff consumer.id consumer.id)
