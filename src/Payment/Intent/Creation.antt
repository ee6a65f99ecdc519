-- ===== src/Payment/Intent/Creation.antt =====
-- The constructors of internal/domain/payment/intent.go.
pub mod Coherence
use loresuelvo_api.Common.{
  String, not, ◌||◌, none, ok, ◌>>=◌, ◌>>◌, fail_if, ℤ, pos, leb_ℤ, ltb_ℤ, ◌==ℤ◌, add_int64,
  is_blank,
}
use loresuelvo_api.Errors.{Outcome, PaymentError, payment}
use loresuelvo_api.Time.{Instant, is_zero_time}
use loresuelvo_api.ServiceProposal.BookingTerms.{BookingTerms}
use loresuelvo_api.WorkOrder.Order.{WorkOrder, proposal_of}
use loresuelvo_api.Payment.Intent.{Intent, Purpose, IntentStatus, zero_terms}

unfoldable pub new_booking_deposit_intent : String → ℤ → BookingTerms → Instant → Outcome Intent
new_booking_deposit_intent id service_proposal_id terms now = do
  fail_if
      (is_blank id
        || leb_ℤ service_proposal_id (pos 0)
        || is_blank terms.currency
        || leb_ℤ terms.deposit_cents (pos 0)
        || ltb_ℤ terms.platform_fee_due_now_cents (pos 0)
        || not (
            terms.amount_due_now_cents
            ==ℤ add_int64 terms.deposit_cents terms.platform_fee_due_now_cents)
        || is_zero_time now)
      (payment PaymentError.invalid_intent)
  ok (record {
    id = id;
    service_proposal_id = service_proposal_id;
    purpose = Purpose.booking_deposit;
    currency = terms.currency;
    seller_amount_cents = terms.deposit_cents;
    platform_fee_cents = terms.platform_fee_due_now_cents;
    total_amount_cents = terms.amount_due_now_cents;
    status = IntentStatus.requires_checkout;
    checkout_session = none;
    booking_terms = terms;
    created_on = now;
    updated_on = now;
  })

-- The getters of a work order read its proposal, whose absence is a nil dereference; the guards that
-- stand before the first of them are evaluated before it.
unfoldable pub new_service_balance_intent : String → WorkOrder → Instant → Outcome Intent
new_service_balance_intent id order now = do
  fail_if (is_blank id || leb_ℤ order.id (pos 0)) (payment PaymentError.invalid_intent)
  sp ← proposal_of order
  let terms = sp.booking_terms
  fail_if
      (leb_ℤ sp.id (pos 0)
        || is_blank terms.currency
        || leb_ℤ terms.remaining_service_balance_cents (pos 0)
        || ltb_ℤ terms.remaining_platform_fee_cents (pos 0)
        || not (
            terms.remaining_amount_due_cents
            ==ℤ add_int64 terms.remaining_service_balance_cents terms.remaining_platform_fee_cents)
        || is_zero_time now)
      (payment PaymentError.invalid_intent)
  ok (record {
    id = id;
    service_proposal_id = sp.id;
    purpose = Purpose.service_balance;
    currency = terms.currency;
    seller_amount_cents = terms.remaining_service_balance_cents;
    platform_fee_cents = terms.remaining_platform_fee_cents;
    total_amount_cents = terms.remaining_amount_due_cents;
    status = IntentStatus.requires_checkout;
    checkout_session = none;
    booking_terms = zero_terms;
    created_on = now;
    updated_on = now;
  })
