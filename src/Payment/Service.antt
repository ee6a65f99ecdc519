-- ===== src/Payment/Service.antt =====
-- internal/domain/payment/service.go. A call runs alone: what other calls do meanwhile is not
-- modelled, so the locks are kept only as the two database calls that take and release them.
pub mod Notifications
pub mod Checkout
use loresuelvo_api.Common.{
  String, Option, none, some, Bool, true, false, ok, err, ℤ, ℕ, ◌*◌, List, ◌∷◌,
}
use loresuelvo_api.Errors.{Outcome}
use loresuelvo_api.Time.{Instant, minute}
use loresuelvo_api.Notification.{Notification}
use loresuelvo_api.Work.{bind_result, ◌>>=◌, ◌>>◌, lift, pure, port}
use loresuelvo_api.Payment.Intent.{Intent, Purpose, ExternalPayment}
use loresuelvo_api.Payment.Intent.Marks.{Url}
use loresuelvo_api.Payment.World.{World, M}

-- ports.go
pub record CheckoutRequest : Type 0 where
  pub external_reference : String
  pub purpose : Purpose
  pub currency : String
  pub seller_amount_cents : ℤ
  pub platform_fee_cents : ℤ
  pub total_amount_cents : ℤ
  pub payer_email : String
  pub starts_on : Instant
  pub expires_on : Instant

pub record ExternalCheckout : Type 0 where
  pub id : String
  pub url : String

-- The remote payment service, the cipher and Go's parser of request URIs.
pub record Gateway : Type 0 where
  pub provider : String
  pub create_checkout : String → CheckoutRequest → Outcome ExternalCheckout
  pub get_payment : String → String → Outcome ExternalPayment
  pub decrypt : String → Outcome String
  pub parse_request_uri : String → Option Url

pub record CheckoutResult : Type 0 where
  pub intent : Intent
  pub created : Bool

pub record PaymentNotification : Type 0 where
  pub external_payment_id : String
  pub seller_account_id : String

abbrev pub checkout_validity : ℕ
checkout_validity = 30 * minute

-- `lockManager.WithinLock`: the lock is taken in one database call and released by another.
unfoldable pub within_lock {ℓ} : {A : Type ℓ} → M A → M A
within_lock operation = do port; a ← operation; port; pure a

-- `notificator.Notify`
unfoldable pub notify : Notification → M (Unit {0})
notify n = do port; λ w. (record w { sent = n ∷ w.sent }, ok tt)
