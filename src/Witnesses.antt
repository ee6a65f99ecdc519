-- ===== src/Witnesses.antt =====
-- Concrete contracts on which the theorems are applied. The data that they share is here.
mod Contracts
mod Orders
mod Intents
mod Moderations
mod Notifications
mod Identity
mod Categories
mod Claims
mod Installations
mod Providers
mod Operators
mod Reminders
mod UseCases
use loresuelvo_api.Common.{String, true, Option, none, some, ℤ, pos, ◌+◌, ◌*◌, ◌-◌}
use loresuelvo_api.Time.{Instant, zero_time, hour}
use loresuelvo_api.User.{User, Role}
use loresuelvo_api.ServiceProposal.BookingTerms.{BookingTerms}
use loresuelvo_api.ServiceProposal.BookingTerms.Pricing.{calculated}
use loresuelvo_api.ServiceProposal.Proposal.{ServiceProposal, Status, Conversation}
use loresuelvo_api.WorkOrder.CompletionReport.{CompletionReport}
use loresuelvo_api.WorkOrder.State.{State, scheduled_state}
use loresuelvo_api.WorkOrder.Order.{WorkOrder}
use mathlib.Core.List.{[], ◌∷◌}

abbrev pub now : Instant
now = zero_time + 1000 * hour

abbrev pub scheduled : Instant
scheduled = zero_time + 1100 * hour

abbrev pub plumber : User
plumber = record { id = pos 7; auth_id = "p"; email = "p@x"; role = Role.provider }

abbrev pub client : User
client = record { id = pos 9; auth_id = "c"; email = "c@x"; role = Role.consumer }

abbrev pub chat : Conversation
chat = record { id = pos 3; is_active = true }

abbrev pub terms : BookingTerms
terms = calculated 1000000 scheduled

abbrev pub proposed : ServiceProposal
proposed = record {
  id = pos 5;
  provider = some plumber;
  consumer = some client;
  conversation = chat;
  scheduled_on = scheduled;
  description = "leak";
  estimated_duration_minutes = pos 60;
  status = Status.pending;
  created_on = now;
  booking_terms = terms;
}

abbrev pub order_in : State → WorkOrder
order_in s = record { id = pos 4; service_proposal = some proposed; accepted_on = now; state = s }

abbrev pub report : CompletionReport
report = record {
  id = pos 0;
  description = "done";
  image_file_ids = "a" ∷ "b" ∷ [];
  reported_on = scheduled;
}
