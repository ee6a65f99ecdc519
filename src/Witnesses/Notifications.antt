-- ===== src/Witnesses/Notifications.antt =====
-- The payment service on a small database.
use loresuelvo_api.Common.{
  ◌≡◌, refl, [], ◌∷◌, none, ok, err, pos, ◌==ℤ◌, is_blank, is_ok, leb_ℤ, ltb_ℤ, add_int64,
}
use mathlib.Core.Bool.{Bool}
use loresuelvo_api.Errors.{external}
use loresuelvo_api.Notification.{Notification, Kind, ResourceType}
use loresuelvo_api.ServiceProposal.Proposal.{ServiceProposal, Status}
use loresuelvo_api.WorkOrder.Order.{WorkOrder}
use loresuelvo_api.WorkOrder.State.{scheduled_state}
use loresuelvo_api.Work.{port, clock_now, new_id}
use loresuelvo_api.Payment.Intent.{ExternalPaymentStatus, zero_terms}
use loresuelvo_api.Payment.Intent.Creation.{new_booking_deposit_intent}
use loresuelvo_api.Payment.BookingCheckoutPolicy.{authorize}
use loresuelvo_api.Payment.Transaction.{Transaction}
use loresuelvo_api.Payment.VerifiedPayment.{approved_payment}
use loresuelvo_api.Payment.World.{Tables, World}
use loresuelvo_api.Work.Runs.{Commits}
use loresuelvo_api.Payment.World.Repositories.{
  select_transaction, select_latest_intent, save_transaction, save_intent, joined,
  find_latest_by_proposal_id_and_purpose,
}
use loresuelvo_api.Payment.World.Orders.{
  save_proposal, save_order, save_notification, find_account_by_provider_id,
}
use loresuelvo_api.Payment.Service.{Gateway, PaymentNotification}
use loresuelvo_api.Work.{unit_of_work}
use loresuelvo_api.Payment.Service.Notifications.{
  commit_booking, apply_verified_payment, process_payment_notification,
}
use loresuelvo_api.Payment.Service.Notifications.Effects.{booking_writes, commit_booking-Commits}
use loresuelvo_api.Payment.Service.Notifications.Redelivery.{commit_booking-apply_verified_payment}
use loresuelvo_api.Payment.Service.Notifications.Handler.{process_payment_notification_known}
use loresuelvo_api.Payment.Service.Checkout.{
  booking_checkout, reuse_or_create, create_booking_checkout, create_checkout,
}
use loresuelvo_api.Payment.Service.Checkout.Retries.{booking_checkout_stuck}
use loresuelvo_api.Witnesses.{now, client, proposed, order_in}
use loresuelvo_api.Witnesses.Intents.{intent, approved, paid, parsed}

-- A remote service that is down.
abbrev gateway : Gateway
gateway = record {
  provider = "mp";
  create_checkout = λ token request. err (external "down");
  get_payment = λ token id. ok approved;
  decrypt = λ s. ok s;
  parse_request_uri = parsed;
}

abbrev tables : Tables
tables = record {
  intents = [];
  sessions = [];
  transactions = [];
  proposals = proposed ∷ [];
  orders = [];
  notifications = [];
  users = client ∷ [];
  accounts =
      record {
        provider_id = pos 7;
        payment_provider = "mp";
        external_account_id = "s";
        access_token_ciphertext = "t";
      }
      ∷ [];
}

abbrev world : World
world = record { tables = tables; sent = []; now = now; ticks = []; ids = "i" ∷ []; faults = [] }

abbrev transaction : Transaction
transaction = record {
  id = pos 0;
  payment_intent_id = "i";
  processor = "mp";
  external_payment_id = "e";
  seller_account_id = "s";
  status = ExternalPaymentStatus.approved;
  currency = "ARS";
  amount_cents = pos 300000;
  verified_on = now;
  created_on = now;
  updated_on = now;
}

abbrev accepted : ServiceProposal
accepted = record proposed { status = Status.accepted }

abbrev order : WorkOrder
order = record (order_in scheduled_state) { id = pos 0 }

abbrev note : Notification
note = record {
  id = pos 0;
  user_id = pos 7;
  kind = Kind.service_proposal_accepted;
  resource_type = ResourceType.service_proposal;
  resource_id = pos 5;
  estimated_duration_minutes = pos 60;
  read_at = none;
  created_at = now;
}

abbrev committed : World
committed = (commit_booking transaction paid accepted order note world).0

commit_booking-Commits_example :
    Commits Notification
      (booking_writes transaction paid accepted order note)
      (commit_booking transaction paid accepted order note)
      world
commit_booking-Commits_example = commit_booking-Commits transaction paid accepted order note world

commit_booking-apply_verified_payment_example :
    ((apply_verified_payment gateway (approved_payment approved) committed).0.tables
      ≡ committed.tables)
    × ((apply_verified_payment gateway (approved_payment approved) committed).0.sent
        ≡ committed.sent)
unfolding commit_booking unit_of_work port save_transaction save_intent save_proposal ◌==ℤ◌
    save_order leb_ℤ save_notification
commit_booking-apply_verified_payment_example =
    commit_booking-apply_verified_payment gateway (approved_payment approved) transaction paid
      accepted order note (record note { id = pos 1 }) world committed committed refl refl refl refl

abbrev known : World
known = record world { tables = record tables { transactions = transaction ∷ [] } }

abbrev event : PaymentNotification
event = record { external_payment_id = "e"; seller_account_id = "s" }

process_payment_notification_known_example :
    ((process_payment_notification gateway event known).0.tables ≡ known.tables)
    × ((process_payment_notification gateway event known).0.sent ≡ known.sent)
unfolding select_transaction
process_payment_notification_known_example =
    process_payment_notification_known gateway event known transaction refl

-- The world after a first checkout, for which the remote service was down.
abbrev down : World
down = (booking_checkout gateway client proposed (pos 5) world).0

booking_checkout_stuck_example :
    (is_ok (booking_checkout gateway client proposed (pos 5) down).1 ≡ Bool.false)
    × ((booking_checkout gateway client proposed (pos 5) down).0.tables ≡ down.tables)
unfolding select_latest_intent joined booking_checkout clock_now authorize ◌==ℤ◌
    find_latest_by_proposal_id_and_purpose port reuse_or_create create_booking_checkout new_id
    new_booking_deposit_intent is_blank leb_ℤ ltb_ℤ add_int64 create_checkout
    find_account_by_provider_id save_intent
booking_checkout_stuck_example =
    booking_checkout_stuck gateway client proposed (pos 5)
      (record intent { booking_terms = zero_terms }) down refl refl refl
