-- ===== src/Payment/Intent/Marks.antt =====
-- The methods of `*Intent` (internal/domain/payment/intent.go).
use loresuelvo_api.Common.{
  String, Bool, true, false, not, ◌||◌, ◌&&◌, ◌=ₛ◌, Option, none, some, ok, err, ◌>>=◌, ◌>>◌,
  fail_if, if◌then◌else◌, ◌==ℤ◌, is_blank, is_empty,
}
use loresuelvo_api.Errors.{Outcome, PaymentError, payment}
use loresuelvo_api.Time.{Instant, is_zero_time, before, after}
use loresuelvo_api.Payment.Intent.{
  Intent, CheckoutSession, IntentStatus, ExternalPayment, is_requires_checkout, is_checkout_ready,
  is_processing, is_rejected, is_expired, is_approved, is_processing_payment, is_rejected_payment,
}

-- What the code reads of the result of `url.ParseRequestURI`.
pub record Url : Type 0 where
  pub scheme : String
  pub host : String

abbrev pub is_https : Option Url → Bool
is_https none = false
is_https (some u) = (u.scheme =ₛ "https") && not (is_empty u.host)

-- The parser of request URIs is Go's `net/url`.
module _ (parse_request_uri : String → Option Url) where
  unfoldable pub mark_checkout_ready : Intent → String → String → Instant → Instant → Outcome Intent
  mark_checkout_ready intent external_id checkout_url expires_on now = do
    fail_if
        (is_blank external_id
          || not (is_https (parse_request_uri checkout_url))
          || is_zero_time expires_on
          || is_zero_time now
          || not (after expires_on now)
          || not (is_requires_checkout intent.status))
        (payment PaymentError.invalid_checkout_session)
    ok (record intent {
      status = IntentStatus.checkout_ready;
      checkout_session = some (record {
        external_id = external_id;
        url = checkout_url;
        expires_on = expires_on;
        created_on = now;
      });
      updated_on = now;
    })

-- The conditions on the payment that `MarkPaid`, `MarkProcessing` and `MarkRejected` share, but for
-- the status.
unfoldable pub mismatches : Intent → ExternalPayment → Bool
mismatches intent external =
    not (external.external_reference =ₛ intent.id)
    || not (external.currency =ₛ intent.currency)
    || not (external.amount_cents ==ℤ intent.total_amount_cents)

unfoldable pub mark_paid : Intent → ExternalPayment → Instant → Outcome Intent
unfolding mismatches
mark_paid intent external now = do
  fail_if
      ((not (is_checkout_ready intent.status) && not (is_processing intent.status))
        || is_blank external.id
        || not (is_approved external.status)
        || mismatches intent external
        || is_zero_time now)
      (payment PaymentError.invalid_external_payment)
  ok (record intent { status = IntentStatus.paid; updated_on = now })

unfoldable pub mark_processing : Intent → ExternalPayment → Instant → Outcome Intent
unfolding mismatches
mark_processing intent external now = do
  fail_if
      ((not (is_checkout_ready intent.status) && not (is_processing intent.status))
        || is_blank external.id
        || not (is_processing_payment external.status)
        || mismatches intent external
        || is_zero_time now)
      (payment PaymentError.invalid_external_payment)
  ok (record intent { status = IntentStatus.processing; updated_on = now })

unfoldable pub mark_rejected : Intent → ExternalPayment → Instant → Outcome Intent
unfolding mismatches
mark_rejected intent external now = do
  fail_if
      ((not (is_checkout_ready intent.status)
          && not (is_processing intent.status)
          && not (is_rejected intent.status))
        || is_blank external.id
        || not (is_rejected_payment external.status)
        || mismatches intent external
        || is_zero_time now)
      (payment PaymentError.invalid_external_payment)
  ok (record intent { status = IntentStatus.rejected; updated_on = now })

-- `intent.CheckoutSession == nil || … || now.Before(intent.CheckoutSession.ExpiresOn)`
abbrev pub unexpired : Option CheckoutSession → Instant → Bool
unexpired none now = true
unexpired (some session) now = is_zero_time now || before now session.expires_on

unfoldable pub expire : Intent → Instant → Outcome Intent
expire intent now = do
  fail_if (not (is_checkout_ready intent.status) || unexpired intent.checkout_session now)
      (payment PaymentError.invalid_checkout_session)
  ok (record intent { status = IntentStatus.expired; updated_on = now })

-- `PrepareCheckout` on an intent with the session given: the intent as it is left, and whether its
-- checkout is used again.
unfoldable pub prepare_session : Intent → Option CheckoutSession → Instant → Outcome (Intent × Bool)
unfolding expire
prepare_session intent none now =
    if is_rejected intent.status || is_expired intent.status
    then ok (intent, false)
    else err (payment PaymentError.invalid_checkout_session)
prepare_session intent (some session) now =
    if is_processing intent.status
    then ok (intent, true)
    else if not (is_checkout_ready intent.status)
    then ok (intent, false)
    else if after session.expires_on now
    then ok (intent, true)
    else (expire intent now >>= λ left. ok (left, false))

unfoldable pub prepare_checkout : Intent → Instant → Outcome (Intent × Bool)
unfolding prepare_session
prepare_checkout intent now = prepare_session intent intent.checkout_session now
