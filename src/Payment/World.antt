-- ===== src/Payment/World.antt =====
-- What the payment service runs on: the tables behind its repositories, and the messages sent.
pub mod Repositories
pub mod Columns
pub mod Orders
use loresuelvo_api.Common.{
  ℕ, ◌+◌, String, Bool, true, false, List, [], ◌∷◌, Option, none, some, Result, ok, err, ℤ,
}
use loresuelvo_api.Work
use loresuelvo_api.Time.{Instant}
use loresuelvo_api.User.{User}
use loresuelvo_api.Notification.{Notification}
use loresuelvo_api.ServiceProposal.Proposal.{ServiceProposal}
use loresuelvo_api.WorkOrder.Restore.{RestoreInput}
use loresuelvo_api.Payment.Intent.{Intent, CheckoutSession}
use loresuelvo_api.Payment.Transaction.{Transaction}

-- internal/domain/payment_account/payment_account.go: what the service reads of an account. Every
-- account is connected.
pub record PaymentAccount : Type 0 where
  pub provider_id : ℤ
  pub payment_provider : String
  pub external_account_id : String
  pub access_token_ciphertext : String

-- A row of `payment_checkout_sessions`.
pub record SessionRow : Type 0 where
  pub intent_id : String
  pub session : CheckoutSession

-- A row of `work_orders` with those of its report and its review; the proposal is in another table.
pub record OrderRow : Type 0 where
  pub service_proposal_id : ℤ
  pub columns : RestoreInput

-- What a transaction of the database commits or rolls back.
pub record Tables : Type 0 where
  pub intents : List Intent
  pub sessions : List SessionRow
  pub transactions : List Transaction
  pub proposals : List ServiceProposal
  pub orders : List OrderRow
  pub notifications : List Notification
  pub users : List User
  pub accounts : List PaymentAccount

abbrev pub World : Type 0
World = Work.World Tables (List Notification)

abbrev pub M {ℓ} : Type ℓ → Type ℓ
M A = Work.M Tables (List Notification) A
