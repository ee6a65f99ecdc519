-- ===== src/Payment/World/Orders.antt =====
-- The repositories of proposals, work orders, notifications, users and accounts
-- (internal/adapters/repositories) that the payment service uses, on the tables.
use loresuelvo_api.Common.{
  ℕ, ◌+◌, String, Bool, true, false, not, ◌&&◌, ◌=ₛ◌, List, [], ◌∷◌, ◌++◌, Option, none, some, ok,
  err, if◌then◌else◌, ℤ, pos, leb_ℤ, ◌==ℤ◌, length, map_err, is_some,
}
use loresuelvo_api.Common
use loresuelvo_api.Errors.{
  Outcome, ProposalError, proposal, WorkOrderError, work_order, connection_not_found,
  user_not_found, external, message, wrapped,
}
use loresuelvo_api.User.{User, Role}
use loresuelvo_api.Notification.{Notification}
use loresuelvo_api.ServiceProposal.BookingTerms.{BookingTerms, new_booking_terms}
use loresuelvo_api.ServiceProposal.Proposal.{ServiceProposal}
use loresuelvo_api.WorkOrder.Order.{WorkOrder, proposal_of}
use loresuelvo_api.WorkOrder.Restore.{restore}
use loresuelvo_api.Work.{◌>>◌, port, read, write, first, or_error}
use loresuelvo_api.Payment.World.Columns.{saved_columns, new_columns}
use loresuelvo_api.Payment.World.{PaymentAccount, OrderRow, Tables, M}

-- service_proposal_repository.go: `FindByID` makes the terms anew from the columns, and knows the ids
-- alone of the participants.
abbrev bare_user : Role → Option User → Option User
bare_user role none = none
bare_user role (some u) = some (record { id = u.id; auth_id = ""; email = ""; role = role })

unfoldable pub rehydrate_terms : BookingTerms → Outcome BookingTerms
unfolding new_booking_terms
rehydrate_terms t = map_err (wrapped "rehydrating booking terms for service proposal") (
    new_booking_terms t.currency t.service_total_cents t.deposit_cents t.platform_fee_total_cents
      t.platform_fee_due_now_cents t.booking_payment_deadline)

unfoldable pub rehydrate_proposal : ServiceProposal → Outcome ServiceProposal
unfolding rehydrate_terms
rehydrate_proposal row = elim (rehydrate_terms row.booking_terms) [
  | err e ↦ err e
  | ok terms ↦ ok (record row {
    booking_terms = terms;
    consumer = bare_user Role.consumer row.consumer;
    provider = bare_user Role.provider row.provider;
    conversation = record { id = pos 0; is_active = false };
  })
]

abbrev found_proposal : Option ServiceProposal → Outcome ServiceProposal
found_proposal none = err (proposal ProposalError.does_not_exist)
found_proposal (some row) = rehydrate_proposal row

unfoldable pub select_proposal : ℤ → Tables → Outcome ServiceProposal
unfolding rehydrate_proposal
select_proposal id t = found_proposal (first (λ p. p.id ==ℤ id) t.proposals)

unfoldable pub find_proposal_by_id : ℤ → M ServiceProposal
unfolding select_proposal
find_proposal_by_id id = read (select_proposal id)

-- `UPDATE service_proposals SET status ... WHERE id`
unfoldable pub update_proposal : ServiceProposal → List ServiceProposal → List ServiceProposal
update_proposal p [] = []
update_proposal p (row ∷ rows) =
    if row.id ==ℤ p.id
    then record row { status = p.status } ∷ rows
    else row ∷ update_proposal p rows

unfoldable pub put_proposal : ServiceProposal → Tables → Outcome Tables
unfolding update_proposal
put_proposal p t =
    if is_some (first (λ row. row.id ==ℤ p.id) t.proposals)
    then ok (record t { proposals = update_proposal p t.proposals })
    else err (proposal ProposalError.does_not_exist)

unfoldable pub save_proposal : ServiceProposal → M (Unit {0})
unfolding put_proposal
save_proposal p = write (put_proposal p)

-- work_order_repository.go: `findOne` and its two callers.
abbrev restored : OrderRow → Outcome ServiceProposal → Outcome WorkOrder
restored row (err e) = err (wrapped "hydrating work order service proposal" e)
restored row (ok sp) =
    map_err (wrapped "rehydrating work order")
      (restore (record row.columns { service_proposal = some sp }))

abbrev found_order : Tables → Option OrderRow → Outcome WorkOrder
found_order t none = err (work_order WorkOrderError.does_not_exist)
found_order t (some row) =
    if leb_ℤ row.service_proposal_id (pos 0)
    then err (message "finding work order: service proposal id is required")
    else restored row (select_proposal row.service_proposal_id t)

unfoldable pub select_order : ℤ → Tables → Outcome WorkOrder
select_order id t = found_order t (first (λ (r : OrderRow). r.columns.id ==ℤ id) t.orders)

unfoldable pub select_order_by_proposal : ℤ → Tables → Outcome WorkOrder
select_order_by_proposal id t =
    found_order t (first (λ (r : OrderRow). r.service_proposal_id ==ℤ id) t.orders)

unfoldable pub find_order_by_id : ℤ → M WorkOrder
unfolding select_order
find_order_by_id id = read (select_order id)

unfoldable pub find_order_by_service_proposal_id : ℤ → M WorkOrder
unfolding select_order_by_proposal
find_order_by_service_proposal_id id = read (select_order_by_proposal id)

-- `saveWithTx`: an insertion for an order with no id, where `service_proposal_id` is unique, and an
-- update otherwise. WorkOrder/Service sees to the id of a report that an order has just got.
unfoldable pub insert_order : WorkOrder → ServiceProposal → List OrderRow → Outcome (List OrderRow)
unfolding new_columns
insert_order wo sp rows =
    if is_some (first (λ (r : OrderRow). r.service_proposal_id ==ℤ sp.id) rows)
    then err (external "unique violation")
    else Common.◌>>=◌ (new_columns (pos (length rows + 1)) wo)
        (λ columns. ok (rows ++ record { service_proposal_id = sp.id; columns = columns } ∷ []))

abbrev is_row_of : WorkOrder → ServiceProposal → OrderRow → Bool
is_row_of wo sp r = (r.columns.id ==ℤ wo.id) && (r.service_proposal_id ==ℤ sp.id)

unfoldable pub update_order : WorkOrder → ServiceProposal → List OrderRow → Outcome (List OrderRow)
unfolding saved_columns
update_order wo sp [] = err (work_order WorkOrderError.does_not_exist)
update_order wo sp (r ∷ rows) =
    if is_row_of wo sp r
    then Common.◌>>=◌ (saved_columns r.columns wo)
        (λ columns. ok (record r { columns = columns } ∷ rows))
    else Common.◌>>=◌ (update_order wo sp rows) (λ rest. ok (r ∷ rest))

unfoldable pub put_order : WorkOrder → Tables → Outcome Tables
unfolding insert_order update_order
put_order wo t = Common.◌>>=◌ (proposal_of wo) (λ sp.
    if leb_ℤ sp.id (pos 0)
    then err (message "saving work order: service proposal is required")
    else Common.◌>>=◌
        (if leb_ℤ wo.id (pos 0) then insert_order wo sp t.orders else update_order wo sp t.orders)
        (λ rows. ok (record t { orders = rows })))

unfoldable pub save_order : WorkOrder → M (Unit {0})
unfolding put_order
save_order wo = write (put_order wo)

-- notification_repository.go: the notification with the id that its row got.
unfoldable pub numbered : Notification → Tables → Notification
numbered n t = record n { id = pos (length t.notifications + 1) }

unfoldable pub put_notification : Notification → Tables → Tables
unfolding numbered
put_notification n t = record t { notifications = t.notifications ++ numbered n t ∷ [] }

unfoldable pub save_notification : Notification → M Notification
unfolding put_notification
save_notification n = do
  port
  λ w. (record w { tables = put_notification n w.tables }, ok (numbered n w.tables))

-- user_repository.go
abbrev pub select_user : String → Tables → Outcome User
select_user auth_id t = or_error user_not_found (first (λ u. u.auth_id =ₛ auth_id) t.users)

unfoldable pub find_user_by_auth_id : String → M User
find_user_by_auth_id auth_id = read (select_user auth_id)

-- payment_account_repository.go
unfoldable pub find_account_by_provider_id : ℤ → String → M PaymentAccount
find_account_by_provider_id provider_id payment_provider = read (λ t.
    or_error connection_not_found (
      first (λ a. (a.provider_id ==ℤ provider_id) && (a.payment_provider =ₛ payment_provider))
        t.accounts))

unfoldable pub find_account_by_external_account_id : String → String → M PaymentAccount
find_account_by_external_account_id external_account_id payment_provider = read (λ t.
    or_error connection_not_found (
      first
        (λ a.
          (a.external_account_id =ₛ external_account_id)
          && (a.payment_provider =ₛ payment_provider))
        t.accounts))
