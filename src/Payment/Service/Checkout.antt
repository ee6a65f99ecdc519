-- ===== src/Payment/Service/Checkout.antt =====
-- internal/domain/payment/service.go: opening a checkout, and reading an intent.
pub mod Retries
use loresuelvo_api.Common.{
  ◌+◌, String, not, Option, none, some, Bool, true, false, ok, err, ℤ, fail_if, is_blank,
  if◌then◌else◌,
}
use loresuelvo_api.Errors.{
  Error, Outcome, PaymentError, payment, message, wrapped, is_intent_does_not_exist,
}
use loresuelvo_api.Time.{Instant}
use loresuelvo_api.User.{User}
use loresuelvo_api.ServiceProposal.Proposal.{ServiceProposal, id_of, has_id}
use loresuelvo_api.WorkOrder.Order.{WorkOrder, proposal_of, provider_id}
use loresuelvo_api.WorkOrder.Order.Methods.{authorize_balance_checkout}
use loresuelvo_api.Work.{bind_result, ◌>>=◌, ◌>>◌, lift, pure, on_error, port, clock_now, new_id}
use loresuelvo_api.Payment.Intent.{Intent, Purpose, is_expired}
use loresuelvo_api.Payment.Intent.Creation.{new_booking_deposit_intent, new_service_balance_intent}
use loresuelvo_api.Payment.Intent.Marks.{mark_checkout_ready, prepare_checkout}
use loresuelvo_api.Payment.BookingCheckoutPolicy.{authorize, expiration}
use loresuelvo_api.Payment.World.{World, M}
use loresuelvo_api.Payment.World.Repositories.{
  find_intent_by_id, find_latest_by_proposal_id_and_purpose, save_intent,
}
use loresuelvo_api.Payment.World.Orders.{
  find_proposal_by_id, find_order_by_id, find_account_by_provider_id, find_user_by_auth_id,
}
use loresuelvo_api.Payment.Service.{
  Gateway, CheckoutRequest, CheckoutResult, checkout_validity, within_lock,
}

-- A search whose failure with `ErrIntentDoesNotExist` is no failure.
abbrev found_or_none : Outcome Intent → Outcome (Option Intent)
found_or_none (ok i) = ok (some i)
found_or_none (err e) = if is_intent_does_not_exist e then ok none else err e

abbrev pub optional_intent : M Intent → M (Option Intent)
optional_intent m w = ((m w).0, found_or_none (m w).1)

abbrev pub created_result : Intent → CheckoutResult
created_result i = record { intent = i; created = true }

-- The branch on the latest intent, which the two checkouts share: it is used again (as `shown`
-- leaves it), replaced after its expiry is saved, or replaced at once.
unfoldable pub reuse_or_create :
    (Intent → Intent) → Instant → Option Intent → M Intent → M CheckoutResult
reuse_or_create shown now none create = do i ← create; pure (created_result i)
reuse_or_create shown now (some intent) create = do
  prepared ← lift (prepare_checkout intent now)
  if prepared.1 then pure (record { intent = shown prepared.0; created = false }) else (do
    if is_expired prepared.0.status then save_intent prepared.0 else pure tt
    i ← create
    pure (created_result i))

-- `CanReceivePayments` holds of every account.
module _ (g : Gateway) where
  unfoldable pub create_checkout : User → ℤ → Intent → Instant → Instant → M Intent
  create_checkout user provider_id intent now expires_on = do
    account ←
        on_error (wrapped "finding provider payment account")
          (find_account_by_provider_id provider_id g.provider)
    access_token ←
        on_error (wrapped "decrypting provider payment credential")
          (lift (g.decrypt account.access_token_ciphertext))
    lift (
        fail_if (is_blank access_token)
          (message "decrypting provider payment credential: decrypted credential is empty"))
    save_intent intent
    external ← on_error (wrapped "creating external checkout") (do
      port
      lift (
          g.create_checkout access_token (record {
            external_reference = intent.id;
            purpose = intent.purpose;
            currency = intent.currency;
            seller_amount_cents = intent.seller_amount_cents;
            platform_fee_cents = intent.platform_fee_cents;
            total_amount_cents = intent.total_amount_cents;
            payer_email = user.email;
            starts_on = now;
            expires_on = expires_on;
          })))
    ready_at ← clock_now
    ready ← lift (
        mark_checkout_ready g.parse_request_uri intent external.id external.url expires_on ready_at)
    save_intent ready
    pure ready

  unfoldable pub create_booking_checkout : User → ServiceProposal → Instant → M Intent
  create_booking_checkout user proposal now = do
    id ← new_id
    intent ← lift (new_booking_deposit_intent id proposal.id proposal.booking_terms now)
    provider ← lift (id_of proposal.provider)
    create_checkout user provider intent now
        (expiration proposal.booking_terms now checkout_validity)

  -- The operation under the lock of `StartBookingCheckout`.
  unfoldable pub booking_checkout : User → ServiceProposal → ℤ → M CheckoutResult
  booking_checkout user proposal proposal_id = do
    now ← clock_now
    lift (authorize proposal user.id now)
    found ←
        optional_intent (find_latest_by_proposal_id_and_purpose proposal_id Purpose.booking_deposit)
    reuse_or_create (λ i. record i { booking_terms = proposal.booking_terms }) now found
        (create_booking_checkout user proposal now)

  unfoldable pub start_booking_checkout : String → ℤ → M CheckoutResult
  start_booking_checkout auth_id proposal_id = do
    user ←
        on_error (λ _. payment PaymentError.only_proposal_recipient_can_checkout)
          (find_user_by_auth_id auth_id)
    proposal ← find_proposal_by_id proposal_id
    now ← clock_now
    lift (authorize proposal user.id now)
    within_lock (booking_checkout user proposal proposal_id)

  unfoldable pub create_balance_checkout : User → WorkOrder → Instant → M Intent
  create_balance_checkout user order now = do
    id ← new_id
    intent ← lift (new_service_balance_intent id order now)
    provider ← lift (provider_id order)
    create_checkout user provider intent now (now + checkout_validity)

  -- The operation under the lock of `StartServiceBalanceCheckout`.
  unfoldable pub balance_checkout : User → ℤ → M CheckoutResult
  balance_checkout user work_order_id = do
    order ← find_order_by_id work_order_id
    now ← clock_now
    lift (authorize_balance_checkout order user.id now)
    proposal ← lift (proposal_of order)
    found ←
        optional_intent (find_latest_by_proposal_id_and_purpose proposal.id Purpose.service_balance)
    reuse_or_create (λ i. i) now found (create_balance_checkout user order now)

  unfoldable pub start_service_balance_checkout : String → ℤ → M CheckoutResult
  start_service_balance_checkout auth_id work_order_id = do
    user ←
        on_error (λ _. payment PaymentError.only_work_order_consumer_can_checkout)
          (find_user_by_auth_id auth_id)
    order ← find_order_by_id work_order_id
    now ← clock_now
    lift (authorize_balance_checkout order user.id now)
    within_lock (balance_checkout user work_order_id)

  unfoldable pub get_intent : String → String → M Intent
  get_intent auth_id intent_id = do
    user ←
        on_error (λ _. payment PaymentError.only_proposal_recipient_can_view)
          (find_user_by_auth_id auth_id)
    intent ← find_intent_by_id intent_id
    proposal ← find_proposal_by_id intent.service_proposal_id
    lift (
        fail_if (not (has_id proposal.consumer user.id))
          (payment PaymentError.only_proposal_recipient_can_view))
    pure intent
