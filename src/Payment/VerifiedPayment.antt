-- ===== src/Payment/VerifiedPayment.antt =====
-- internal/domain/payment/verified_payment.go: the visitor of outcomes is a data type of outcomes.
use loresuelvo_api.Common.{String, Bool, true, false, not, ok, err, ◌>>=◌, ◌>>◌, fail_if}
use loresuelvo_api.Errors.{Outcome, PaymentError, payment}
use loresuelvo_api.Time.{Instant}
use loresuelvo_api.Payment.Intent.{Intent, Purpose, ExternalPayment, ExternalPaymentStatus}
use loresuelvo_api.Payment.Intent.Marks.{mark_paid, mark_processing, mark_rejected}
use loresuelvo_api.Payment.Transaction.{Transaction, new_transaction}

pub data VerifiedPayment : Type 0 where
  processing_payment rejected_payment approved_payment : ExternalPayment → VerifiedPayment

pub data PaymentOutcome : Type 0 where
  intent_updated : Intent → PaymentOutcome
  booking_approved service_balance_approved : Intent → Transaction → PaymentOutcome

-- The `switch` on the status.
unfoldable pub verified_by : ExternalPaymentStatus → ExternalPayment → Outcome VerifiedPayment
verified_by ExternalPaymentStatus.processing p = ok (processing_payment p)
verified_by ExternalPaymentStatus.rejected p = ok (rejected_payment p)
verified_by ExternalPaymentStatus.approved p = ok (approved_payment p)
verified_by (ExternalPaymentStatus.other s) p = err (payment PaymentError.invalid_external_payment)

unfoldable pub new_verified_payment : ExternalPayment → Outcome VerifiedPayment
unfolding verified_by
new_verified_payment p = verified_by p.status p

-- The payment behind `ExternalID`, `SellerAccountID` and `IntentID`.
abbrev pub payment_of : VerifiedPayment → ExternalPayment
payment_of (processing_payment p) = p
payment_of (rejected_payment p) = p
payment_of (approved_payment p) = p

abbrev is_known_purpose : Purpose → Bool
is_known_purpose (Purpose.other s) = false
is_known_purpose _ = true

abbrev approval : Purpose → Intent → Transaction → PaymentOutcome
approval Purpose.service_balance intent transaction = service_balance_approved intent transaction
approval _ intent transaction = booking_approved intent transaction

unfoldable pub apply_to : VerifiedPayment → Intent → String → Instant → Outcome PaymentOutcome
unfolding mark_processing mark_rejected mark_paid new_transaction
apply_to (processing_payment p) intent processor now = do
  marked ← mark_processing intent p now
  ok (intent_updated marked)
apply_to (rejected_payment p) intent processor now = do
  marked ← mark_rejected intent p now
  ok (intent_updated marked)
apply_to (approved_payment p) intent processor now = do
  fail_if (not (is_known_purpose intent.purpose)) (payment PaymentError.invalid_intent)
  marked ← mark_paid intent p now
  transaction ← new_transaction marked.id processor p now
  ok (approval marked.purpose marked transaction)
