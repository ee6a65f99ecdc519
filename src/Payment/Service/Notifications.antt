-- ===== src/Payment/Service/Notifications.antt =====
-- internal/domain/payment/service.go: from the notification of an external payment to its effects.
pub mod Effects
pub mod Redelivery
pub mod Handler
use loresuelvo_api.Common.{
  String, not, ◌||◌, ◌=ₛ◌, Option, none, some, Bool, ok, err, ℤ, fail_if, is_blank, Bool-cases,
  if◌then◌else◌, Result,
}
use loresuelvo_api.Errors.{
  Error, Outcome, PaymentError, payment, wrapped, is_transaction_does_not_exist,
}
use loresuelvo_api.Notification.{Notification}
use loresuelvo_api.ServiceProposal.Proposal.{
  ServiceProposal, id_of, accept, create_accepted_notification,
}
use loresuelvo_api.WorkOrder.Order.{WorkOrder, new_work_order}
use loresuelvo_api.WorkOrder.Order.Methods.{
  register_approved_balance_payment, create_final_payment_notification,
}
use loresuelvo_api.Work.{bind_result, ◌>>=◌, ◌>>◌, lift, pure, on_error, port, clock_now}
use loresuelvo_api.Payment.Intent.{Intent, ExternalPayment}
use loresuelvo_api.Payment.Transaction.{Transaction}
use loresuelvo_api.Payment.VerifiedPayment.{
  VerifiedPayment, PaymentOutcome, intent_updated, booking_approved, service_balance_approved,
  new_verified_payment, payment_of, apply_to,
}
use loresuelvo_api.Payment.World.{World, M}
use loresuelvo_api.Payment.World.Repositories.{
  find_intent_by_id, find_transaction_by_external_id, save_intent, save_transaction,
}
use loresuelvo_api.Payment.World.Orders.{
  find_proposal_by_id, find_order_by_service_proposal_id, find_account_by_external_account_id,
  save_proposal, save_order, save_notification,
}
use loresuelvo_api.Payment.Service.{Gateway, PaymentNotification, within_lock, notify}
use loresuelvo_api.Work.{unit_of_work}

-- `VisitIntentUpdated`
unfoldable pub visit_intent_updated : Intent → M (Unit {0})
visit_intent_updated intent =
    on_error (wrapped "saving updated payment intent") (save_intent intent)

-- The unit of work of `VisitBookingApproved`.
unfoldable pub commit_booking :
    Transaction → Intent → ServiceProposal → WorkOrder → Notification → M Notification
commit_booking transaction intent proposal order notification = unit_of_work (do
  save_transaction transaction
  save_intent intent
  save_proposal proposal
  save_order order
  save_notification notification)

-- `VisitBookingApproved`
unfoldable pub visit_booking_approved : Intent → Transaction → M (Unit {0})
visit_booking_approved intent transaction = do
  proposal ← find_proposal_by_id intent.service_proposal_id
  now ← clock_now
  consumer_id ← lift (id_of proposal.consumer)
  accepted ← lift (accept proposal consumer_id now)
  order ← lift (new_work_order (some accepted) now)
  notified_at ← clock_now
  notification ← lift (create_accepted_notification accepted notified_at)
  saved ← commit_booking transaction intent accepted order notification
  on_error (wrapped "notifying provider about accepted service proposal") (notify saved)

-- The unit of work of `VisitServiceBalanceApproved`.
unfoldable pub commit_balance : Transaction → Intent → WorkOrder → Notification → M Notification
commit_balance transaction intent order notification = unit_of_work (do
  save_transaction transaction
  save_intent intent
  save_order order
  save_notification notification)

-- `VisitServiceBalanceApproved`
unfoldable pub visit_service_balance_approved : Intent → Transaction → M (Unit {0})
visit_service_balance_approved intent transaction = do
  order ← find_order_by_service_proposal_id intent.service_proposal_id
  now ← clock_now
  paid ← lift (register_approved_balance_payment order now)
  notified_at ← clock_now
  notification ← lift (create_final_payment_notification paid notified_at)
  saved ← commit_balance transaction intent paid notification
  on_error (wrapped "notifying provider about final payment") (notify saved)

-- `outcome.Accept(visitor)`
unfoldable pub accept_outcome : PaymentOutcome → M (Unit {0})
accept_outcome (intent_updated intent) = visit_intent_updated intent
accept_outcome (booking_approved intent transaction) = visit_booking_approved intent transaction
accept_outcome (service_balance_approved intent transaction) =
    visit_service_balance_approved intent transaction

module _ (g : Gateway) where
  -- What follows a transaction that is not there.
  unfoldable pub apply_new_payment : VerifiedPayment → M (Unit {0})
  apply_new_payment verified = do
    intent ← find_intent_by_id (payment_of verified).external_reference
    now ← clock_now
    outcome ← lift (apply_to verified intent g.provider now)
    accept_outcome outcome

  -- The branches on the search for the transaction.
  unfoldable pub unless_found : VerifiedPayment → Outcome Transaction → M (Unit {0})
  unless_found verified (ok transaction) = pure tt
  unless_found verified (err e) =
      if is_transaction_does_not_exist e
      then apply_new_payment verified
      else lift (err (wrapped "finding external payment transaction" e))

  -- The result of a call, as a value.
  abbrev pub attempt {ℓ} : {A : Type ℓ} → M A → M (Outcome A)
  attempt m w = ((m w).0, ok (m w).1)

  unfoldable pub apply_verified_payment : VerifiedPayment → M (Unit {0})
  unfolding unless_found
  apply_verified_payment verified = do
    found ← attempt (find_transaction_by_external_id g.provider (payment_of verified).id)
    unless_found verified found

  unfoldable pub process_payment_notification : PaymentNotification → M (Unit {0})
  process_payment_notification event = do
    lift (
        fail_if (is_blank event.external_payment_id || is_blank event.seller_account_id)
          (payment PaymentError.invalid_external_payment))
    account ←
        on_error (wrapped "finding notified payment account")
          (find_account_by_external_account_id event.seller_account_id g.provider)
    access_token ←
        on_error (wrapped "decrypting notified payment credential")
          (lift (g.decrypt account.access_token_ciphertext))
    external ←
        on_error (wrapped "verifying external payment")
          (do port; lift (g.get_payment access_token event.external_payment_id))
    verified ← lift (new_verified_payment external)
    lift (
        fail_if
          (not ((payment_of verified).id =ₛ event.external_payment_id)
            || not ((payment_of verified).seller_account_id =ₛ event.seller_account_id))
          (payment PaymentError.invalid_external_payment))
    within_lock (apply_verified_payment verified)
