-- ===== src/Payment/Transaction.antt =====
-- internal/domain/payment/transaction.go.
use loresuelvo_api.Common.{String, not, ◌||◌, ok, ◌>>◌, fail_if, ℤ, pos, leb_ℤ, is_blank}
use loresuelvo_api.Errors.{Outcome, PaymentError, payment}
use loresuelvo_api.Time.{Instant, is_zero_time}
use loresuelvo_api.Payment.Intent.{
  ExternalPayment, ExternalPaymentStatus, is_approved, is_processing_payment, is_rejected_payment,
}

pub record Transaction : Type 0 where
  pub id : ℤ
  pub payment_intent_id : String
  pub processor : String
  pub external_payment_id : String
  pub seller_account_id : String
  pub status : ExternalPaymentStatus
  pub currency : String
  pub amount_cents : ℤ
  pub verified_on : Instant
  pub created_on : Instant
  pub updated_on : Instant

unfoldable pub new_transaction : String → String → ExternalPayment → Instant → Outcome Transaction
new_transaction payment_intent_id processor external verified_on = do
  let valid_status =
      is_approved external.status
      || is_processing_payment external.status
      || is_rejected_payment external.status
  fail_if
      (is_blank payment_intent_id
        || is_blank processor
        || is_blank external.id
        || is_blank external.seller_account_id
        || not valid_status
        || is_blank external.currency
        || leb_ℤ external.amount_cents (pos 0)
        || is_zero_time verified_on)
      (payment PaymentError.invalid_payment_transaction)
  ok (record {
    id = pos 0;
    payment_intent_id = payment_intent_id;
    processor = processor;
    external_payment_id = external.id;
    seller_account_id = external.seller_account_id;
    status = external.status;
    currency = external.currency;
    amount_cents = external.amount_cents;
    verified_on = verified_on;
    created_on = verified_on;
    updated_on = verified_on;
  })
