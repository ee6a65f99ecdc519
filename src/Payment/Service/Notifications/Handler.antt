-- ===== src/Payment/Service/Notifications/Handler.antt =====
-- The whole handler of notifications, for a payment that is known
-- (internal/domain/payment/service.go).
use loresuelvo_api.Common.{
  String, not, ◌||◌, ◌=ₛ◌, ◌≡◌, refl, inl, inr, ok, err, Result-cases, ap, ◌∙◌, List, arith, eq_iff,
  fail_if, is_blank,
}
use loresuelvo_api.Errors.{Error, Outcome, PaymentError, payment, wrapped}
use loresuelvo_api.Notification.{Notification}
use loresuelvo_api.Work.{bind_result, ◌>>=◌, ◌>>◌, lift, pure, on_error, port, read}
use loresuelvo_api.Payment.Intent.{ExternalPayment}
use loresuelvo_api.Payment.Transaction.{Transaction}
use loresuelvo_api.Payment.VerifiedPayment.{VerifiedPayment, payment_of, new_verified_payment}
use loresuelvo_api.Payment.World.{PaymentAccount, Tables, World, M}
use loresuelvo_api.Work.Runs.{port-cases, read-cases}
use loresuelvo_api.Payment.World.Repositories.{select_transaction}
use loresuelvo_api.Payment.World.Orders.{find_account_by_external_account_id}
use loresuelvo_api.Payment.Service.{Gateway, PaymentNotification, within_lock}
use loresuelvo_api.Payment.Service.Notifications.{
  apply_verified_payment, process_payment_notification,
}
use loresuelvo_api.Payment.Service.Notifications.Redelivery.{apply_verified_payment_known}

module _ (t : Tables) (s : List Notification) where
  -- A call that leaves these tables and what was sent as they are.
  unfoldable Still : (A : Type 0) → M A → Type 0
  Still A m = (v : World) → v.tables ≡ t → v.sent ≡ s → ((m v).0.tables ≡ t) × ((m v).0.sent ≡ s)

  bind-Still :
      {A B : Type 0} (m : M A) (k : A → M B)
      → Still A m
      → ((a : A) → Still B (k a))
      → Still B (m >>= k)
  unfolding Still
  bind-Still m k h next v tv sv = elim (Result-cases (m v).1) [
    | inl (a, q) ↦
        let r = ap (λ x. bind_result (m v).0 x k) q in
        let kept = next a (m v).0 (h v tv sv).0 (h v tv sv).1 in
        (ap (λ p. p.0.tables) r ∙ kept.0, ap (λ p. p.0.sent) r ∙ kept.1)
    | inr (e, q) ↦
        let r = ap (λ x. bind_result (m v).0 x k) q in
        (ap (λ p. p.0.tables) r ∙ (h v tv sv).0, ap (λ p. p.0.sent) r ∙ (h v tv sv).1)
  ]

  -- A test or a computation, whose result the rest may rely on.
  lift-Still :
      {A B : Type 0} (r : Outcome A) (k : A → M B)
      → ((a : A) → r ≡ ok a → Still B (k a))
      → Still B (lift r >>= k)
  unfolding Still
  lift-Still (ok a) k next v tv sv = next a refl v tv sv
  lift-Still (err e) k next v tv sv = (tv, sv)

  port-Still : Still (Unit {0}) port
  unfolding Still
  port-Still v tv sv = elim (port-cases v) [
    | inl (fs, q) ↦ (ap (λ p. p.0.tables) q ∙ tv, ap (λ p. p.0.sent) q ∙ sv)
    | inr (fs, e, q) ↦ (ap (λ p. p.0.tables) q ∙ tv, ap (λ p. p.0.sent) q ∙ sv)
  ]

  read-Still : {A : Type 0} (f : Tables → Outcome A) → Still A (read f)
  unfolding Still
  read-Still f v tv sv =
      let (w, tw, sw, r) = read-cases f v in
      elim r [
        | inl q ↦ (ap (λ p. p.0.tables) q ∙ tw ∙ tv, ap (λ p. p.0.sent) q ∙ sw ∙ sv)
        | inr (e, q) ↦ (ap (λ p. p.0.tables) q ∙ tw ∙ tv, ap (λ p. p.0.sent) q ∙ sw ∙ sv)
      ]

  on_error-Still : {A : Type 0} (g : Error → Error) (m : M A) → Still A m → Still A (on_error g m)
  unfolding Still
  on_error-Still g m h v tv sv = h v tv sv

  done-Still : {A : Type 0} (r : Outcome A) → Still A (lift r)
  unfolding Still
  done-Still r v tv sv = (tv, sv)

  within_lock-Still : {A : Type 0} (m : M A) → Still A m → Still A (within_lock m)
  unfolding within_lock
  within_lock-Still m h =
      bind-Still port (λ _. m >>= λ a. port >>= λ _. pure a) port-Still
        (λ _.
          bind-Still m (λ a. port >>= λ _. pure a) h
            (λ a. bind-Still port (λ _. pure a) port-Still (λ _. done-Still (ok a))))

  known-Still :
      (g : Gateway) (verified : VerifiedPayment) (x : Transaction)
      → select_transaction g.provider (payment_of verified).id t ≡ ok x
      → Still (Unit {0}) (apply_verified_payment g verified)
  unfolding Still
  known-Still g verified x h v tv sv =
      let (a, b) =
        apply_verified_payment_known g verified v x
          (ap (select_transaction g.provider (payment_of verified).id) tv ∙ h) in
      (a ∙ tv, b ∙ sv)

module _ (g : Gateway) (event : PaymentNotification) (t : Tables) (s : List Notification)
    (x : Transaction) (h : select_transaction g.provider event.external_payment_id t ≡ ok x) where
  -- The handler from its last guard on.
  abbrev checked : VerifiedPayment → M (Unit {0})
  checked verified =
      lift (
        fail_if
          (not ((payment_of verified).id =ₛ event.external_payment_id)
            || not ((payment_of verified).seller_account_id =ₛ event.seller_account_id))
          (payment PaymentError.invalid_external_payment))
      >>= λ _. within_lock (apply_verified_payment g verified)

  checked-Still : (verified : VerifiedPayment) → Still t s (Unit {0}) (checked verified)
  checked-Still verified =
      lift-Still t s
        (fail_if
          (not ((payment_of verified).id =ₛ event.external_payment_id)
            || not ((payment_of verified).seller_account_id =ₛ event.seller_account_id))
          (payment PaymentError.invalid_external_payment))
        (λ _. within_lock (apply_verified_payment g verified))
        (λ _ q.
          let same : (payment_of verified).id ≡ event.external_payment_id =
            ground (arith, q, eq_iff (payment_of verified).id event.external_payment_id) in
          within_lock-Still t s (apply_verified_payment g verified)
            (known-Still t s g verified x (ap (λ id. select_transaction g.provider id t) same ∙ h)))

  -- From the answer of the remote service on.
  abbrev answered : ExternalPayment → M (Unit {0})
  answered external = lift (new_verified_payment external) >>= checked

  -- From the credential on.
  abbrev decrypted : String → M (Unit {0})
  decrypted access_token =
      on_error (wrapped "verifying external payment")
        (do port; lift (g.get_payment access_token event.external_payment_id))
      >>= answered

  decrypted-Still : (access_token : String) → Still t s (Unit {0}) (decrypted access_token)
  decrypted-Still access_token =
      let answer = port >>= λ _. lift (g.get_payment access_token event.external_payment_id) in
      bind-Still t s (on_error (wrapped "verifying external payment") answer) answered
        (on_error-Still t s (wrapped "verifying external payment") answer (
          bind-Still t s port (λ _. lift (g.get_payment access_token event.external_payment_id))
            (port-Still t s) (λ _. done-Still t s _)))
        (λ external.
          lift-Still t s (new_verified_payment external) checked
            (λ verified _. checked-Still verified))

  -- From the account on.
  abbrev found : PaymentAccount → M (Unit {0})
  found account =
      on_error (wrapped "decrypting notified payment credential")
        (lift (g.decrypt account.access_token_ciphertext))
      >>= decrypted

  found-Still : (account : PaymentAccount) → Still t s (Unit {0}) (found account)
  found-Still account =
      let token = g.decrypt account.access_token_ciphertext in
      let credential = wrapped "decrypting notified payment credential" in
      bind-Still t s (on_error credential (lift token)) decrypted
        (on_error-Still t s credential (lift token) (done-Still t s token)) decrypted-Still

  handler-Still : Still t s (Unit {0}) (process_payment_notification g event)
  unfolding process_payment_notification find_account_by_external_account_id
  handler-Still =
      let search = find_account_by_external_account_id event.seller_account_id g.provider in
      let finding = wrapped "finding notified payment account" in
      lift-Still t s
        (fail_if (is_blank event.external_payment_id || is_blank event.seller_account_id)
          (payment PaymentError.invalid_external_payment))
        (λ _. on_error finding search >>= found)
        (λ _ _.
          bind-Still t s (on_error finding search) found
            (on_error-Still t s finding search (read-Still t s _)) found-Still)

-- A notification of a payment whose transaction is in the tables changes no table and sends nothing,
-- whatever the remote service answers and whatever fails.
pub process_payment_notification_known :
    (g : Gateway) (event : PaymentNotification) (w : World) (x : Transaction)
    → select_transaction g.provider event.external_payment_id w.tables ≡ ok x
    → ((process_payment_notification g event w).0.tables ≡ w.tables)
      × ((process_payment_notification g event w).0.sent ≡ w.sent)
unfolding Still
process_payment_notification_known g event w x h =
    handler-Still g event w.tables w.sent x h w refl refl
