-- ===== src/Payment/BookingCheckoutPolicy.antt =====
-- internal/domain/payment/booking_checkout_policy.go.
pub mod Laws
use loresuelvo_api.Common.{
  ℕ, ◌+◌, not, is_some, Option, none, some, ok, err, ◌>>=◌, ◌>>◌, fail_if, if◌then◌else◌, ℤ,
}
use loresuelvo_api.Errors.{Outcome, PaymentError, payment}
use loresuelvo_api.Time.{Instant, before}
use loresuelvo_api.ServiceProposal.BookingTerms.{BookingTerms}
use loresuelvo_api.ServiceProposal.Proposal.{ServiceProposal, has_id, is_pending}

-- The proposal is one that the finder returned, which is not nil; its consumer may be.
unfoldable pub authorize : ServiceProposal → ℤ → Instant → Outcome (Unit {0})
authorize sp consumer_id now = do
  fail_if (not (has_id sp.consumer consumer_id))
      (payment PaymentError.only_proposal_recipient_can_checkout)
  fail_if (not (is_pending sp.status)) (payment PaymentError.proposal_not_pending)
  fail_if (not (is_some sp.provider)) (payment PaymentError.invalid_service_proposal)
  fail_if (not (before now sp.booking_terms.booking_payment_deadline))
      (payment PaymentError.booking_payment_deadline_reached)
  ok tt

unfoldable pub expiration : BookingTerms → Instant → ℕ → Instant
expiration terms now maximum_validity =
    let expires_on = now + maximum_validity in
    let deadline = terms.booking_payment_deadline in
    if before deadline expires_on then deadline else expires_on
