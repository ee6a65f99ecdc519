-- ===== src/Payment/Intent.antt =====
-- internal/domain/payment/intent.go. The methods are called on a pointer that a repository or a
-- constructor has just returned, which is not nil; each returns the intent as it leaves it.
pub mod Creation
pub mod Marks
pub mod Lifecycle
use loresuelvo_api.Common.{
  String, Bool, true, false, not, ◌||◌, ◌&&◌, ◌=ₛ◌, Option, none, some, ok, err, ◌>>=◌, ◌>>◌,
  fail_if, if◌then◌else◌, ℤ, pos, leb_ℤ, ltb_ℤ, ◌==ℤ◌, add_int64, is_blank, is_empty,
}
use loresuelvo_api.Errors.{Outcome, PaymentError, payment}
use loresuelvo_api.Time.{Instant, is_zero_time, zero_time, before, after}
use loresuelvo_api.ServiceProposal.BookingTerms.{BookingTerms}
use loresuelvo_api.ServiceProposal.Proposal.{ServiceProposal}
use loresuelvo_api.WorkOrder.Order.{WorkOrder, proposal_of}

pub data Purpose : Type 0 where
  booking_deposit service_balance : Purpose
  other : String → Purpose

pub data IntentStatus : Type 0 where
  requires_checkout checkout_ready processing paid rejected expired : IntentStatus
  other : String → IntentStatus

abbrev pub is_requires_checkout : IntentStatus → Bool
is_requires_checkout IntentStatus.requires_checkout = true
is_requires_checkout _ = false

abbrev pub is_checkout_ready : IntentStatus → Bool
is_checkout_ready IntentStatus.checkout_ready = true
is_checkout_ready _ = false

abbrev pub is_processing : IntentStatus → Bool
is_processing IntentStatus.processing = true
is_processing _ = false

abbrev pub is_rejected : IntentStatus → Bool
is_rejected IntentStatus.rejected = true
is_rejected _ = false

abbrev pub is_expired : IntentStatus → Bool
is_expired IntentStatus.expired = true
is_expired _ = false

pub record CheckoutSession : Type 0 where
  pub external_id : String
  pub url : String
  pub expires_on : Instant
  pub created_on : Instant

pub record Intent : Type 0 where
  pub id : String
  pub service_proposal_id : ℤ
  pub purpose : Purpose
  pub currency : String
  pub seller_amount_cents : ℤ
  pub platform_fee_cents : ℤ
  pub total_amount_cents : ℤ
  pub status : IntentStatus
  pub checkout_session : Option CheckoutSession
  pub booking_terms : BookingTerms
  pub created_on : Instant
  pub updated_on : Instant

-- ports.go
pub data ExternalPaymentStatus : Type 0 where
  approved processing rejected : ExternalPaymentStatus
  other : String → ExternalPaymentStatus

abbrev pub is_approved : ExternalPaymentStatus → Bool
is_approved ExternalPaymentStatus.approved = true
is_approved _ = false

abbrev pub is_processing_payment : ExternalPaymentStatus → Bool
is_processing_payment ExternalPaymentStatus.processing = true
is_processing_payment _ = false

abbrev pub is_rejected_payment : ExternalPaymentStatus → Bool
is_rejected_payment ExternalPaymentStatus.rejected = true
is_rejected_payment _ = false

pub record ExternalPayment : Type 0 where
  pub id : String
  pub seller_account_id : String
  pub external_reference : String
  pub status : ExternalPaymentStatus
  pub currency : String
  pub amount_cents : ℤ

-- `BookingTerms{}`
abbrev pub zero_terms : BookingTerms
zero_terms = record {
  currency = "";
  service_total_cents = pos 0;
  deposit_cents = pos 0;
  remaining_service_balance_cents = pos 0;
  platform_fee_total_cents = pos 0;
  platform_fee_due_now_cents = pos 0;
  remaining_platform_fee_cents = pos 0;
  amount_due_now_cents = pos 0;
  remaining_amount_due_cents = pos 0;
  contract_total_cents = pos 0;
  booking_payment_deadline = zero_time;
}
