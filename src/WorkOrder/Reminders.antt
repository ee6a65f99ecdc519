-- ===== src/WorkOrder/Reminders.antt =====
-- `UrgentNotification` of internal/domain/work_order/service.go: the reminders of the orders of the
-- next day, with the statements that it runs, those of work_order_repository.go and of
-- notification_repository.go in internal/adapters/repositories.
pub mod Once
use loresuelvo_api.Common.{
  ℕ, ◌+◌, ◌*◌, String, Bool, true, false, not, ◌||◌, ◌&&◌, List, [], ◌∷◌, ◌++◌, Option, none, some,
  ok, err, if◌then◌else◌, ℤ, pos, ltb_ℤ, ◌==ℤ◌, leb_ℤ, ltb, map_err, is_some, ◌==◌,
}
use loresuelvo_api.Common
use loresuelvo_api.Errors.{Error, Outcome, message, wrapped}
use loresuelvo_api.Time.{Instant, hour, before}
use loresuelvo_api.Notification.{Notification, Kind, ResourceType, new_notification}
use loresuelvo_api.ServiceProposal.Proposal.{ServiceProposal}
use loresuelvo_api.WorkOrder.State.{Status}
use loresuelvo_api.WorkOrder.Order.{WorkOrder, consumer_id, provider_id}
use loresuelvo_api.WorkOrder.Restore.{restore}
use loresuelvo_api.Work.{◌>>=◌, ◌>>◌, lift, pure, port, read, on_error, first, clock_now}
use loresuelvo_api.Payment.World.{World, OrderRow, Tables, M}
use loresuelvo_api.Payment.World.Orders.{rehydrate_proposal, numbered, put_notification}
use loresuelvo_api.Payment.Service.{notify}

-- A row of `work_orders` joined to its proposal.
pub record JoinedRow : Type 0 where
  pub order : OrderRow
  pub proposal : ServiceProposal

abbrev pub is_scheduled : Option Status → Bool
is_scheduled (some Status.scheduled) = true
is_scheduled _ = false

abbrev pub joined_to : OrderRow → Option ServiceProposal → List JoinedRow → List JoinedRow
joined_to row none rest = rest
joined_to row (some sp) rest = record { order = row; proposal = sp } ∷ rest

unfoldable pub join_proposals : List ServiceProposal → List OrderRow → List JoinedRow
join_proposals proposals [] = []
join_proposals proposals (row ∷ rows) =
    joined_to row (first (λ (p : ServiceProposal). p.id ==ℤ row.service_proposal_id) proposals)
      (join_proposals proposals rows)

-- `WHERE sp.scheduled_on >= $1 AND sp.scheduled_on < $2 AND wo.status = $3`
abbrev pub is_due : Instant → Instant → JoinedRow → Bool
is_due from to r =
    not (before r.proposal.scheduled_on from)
    && before r.proposal.scheduled_on to
    && is_scheduled r.order.columns.status

unfoldable pub only_due : Instant → Instant → List JoinedRow → List JoinedRow
only_due from to [] = []
only_due from to (r ∷ rows) =
    let rest = only_due from to rows in if is_due from to r then r ∷ rest else rest

-- `ORDER BY sp.scheduled_on ASC, wo.id ASC`
abbrev pub comes_first : JoinedRow → JoinedRow → Bool
comes_first r s =
    before r.proposal.scheduled_on s.proposal.scheduled_on
    || (r.proposal.scheduled_on == s.proposal.scheduled_on
        && leb_ℤ r.order.columns.id s.order.columns.id)

abbrev pub insert_row : JoinedRow → List JoinedRow → List JoinedRow
insert_row r [] = r ∷ []
insert_row r (s ∷ rows) = if comes_first r s then r ∷ s ∷ rows else s ∷ insert_row r rows

unfoldable pub order_rows : List JoinedRow → List JoinedRow
order_rows [] = []
order_rows (r ∷ rows) = insert_row r (order_rows rows)

-- The loop over the rows. What the query leaves out of a proposal stays as it is in its row.
unfoldable pub restore_all : List JoinedRow → Outcome (List WorkOrder)
unfolding rehydrate_proposal restore
restore_all [] = ok []
restore_all (r ∷ rows) =
    if leb_ℤ r.order.service_proposal_id (pos 0)
    then err (message "rehydrating scheduled work order: service proposal id is required")
    else Common.◌>>=◌ (rehydrate_proposal r.proposal) (λ sp.
      Common.◌>>=◌
        (map_err (wrapped "rehydrating scheduled work order")
          (restore (record r.order.columns { service_proposal = some sp })))
        (λ wo. Common.◌>>=◌ (restore_all rows) (λ rest. ok (wo ∷ rest))))

unfoldable pub select_scheduled_between : Instant → Instant → Tables → Outcome (List WorkOrder)
unfolding join_proposals only_due order_rows restore_all
select_scheduled_between from to t =
    restore_all (order_rows (only_due from to (join_proposals t.proposals t.orders)))

-- The rows that the partial unique index speaks of.
abbrev pub is_close_to : Kind → Bool
is_close_to Kind.work_order_close_to_scheduled_time = true
is_close_to _ = false

abbrev pub is_of_order : ResourceType → Bool
is_of_order ResourceType.work_order = true
is_of_order _ = false

abbrev pub is_reminder : Notification → Bool
is_reminder n = is_close_to n.kind && is_of_order n.resource_type

-- A reminder of the same order to the same user.
abbrev pub is_same_reminder : ℤ → ℤ → Notification → Bool
is_same_reminder user_id resource_id n =
    is_reminder n && (n.user_id ==ℤ user_id) && (n.resource_id ==ℤ resource_id)

abbrev pub is_stored : Notification → Tables → Bool
is_stored n t = is_some (first (is_same_reminder n.user_id n.resource_id) t.notifications)

-- `SaveIfAbsent`: `INSERT ... ON CONFLICT ... DO NOTHING`; `none` when no row was inserted.
unfoldable pub save_if_absent : Notification → M (Option Notification)
unfolding put_notification numbered
save_if_absent n = do
  on_error (wrapped "saving notification if absent") port
  λ (w : World).
      if is_reminder n && is_stored n w.tables
      then (w, ok none)
      else (record w { tables = put_notification n w.tables }, ok (some (numbered n w.tables)))

-- A call whose error is kept as a value.
abbrev pub caught : {A : Type 0} → M A → M (Outcome A)
caught m w = ((m w).0, ok (m w).1)

abbrev pub errors_of : Outcome (Unit {0}) → List Error
errors_of (ok _) = []
errors_of (err e) = e ∷ []

abbrev pub notify_saved : Outcome (Option Notification) → M (List Error)
notify_saved (err e) = pure (e ∷ [])
notify_saved (ok none) = pure []
notify_saved (ok (some saved)) = caught (notify saved) >>= λ r. pure (errors_of r)

-- The body of the inner loop, with the errors that it adds.
unfoldable pub remind : Notification → M (List Error)
unfolding save_if_absent notify
remind n = caught (save_if_absent n) >>= notify_saved

abbrev pub reminder : ℤ → ℤ → Instant → Notification
reminder user_id order_id now =
    new_notification user_id Kind.work_order_close_to_scheduled_time ResourceType.work_order
      order_id now none

-- `notificationForUsers`, and the two reminders.
unfoldable pub remind_users : WorkOrder → M (List Error)
unfolding remind consumer_id provider_id new_notification
remind_users order = do
  consumer ← lift (consumer_id order)
  t ← clock_now
  provider ← lift (provider_id order)
  u ← clock_now
  es ← remind (reminder consumer order.id t)
  fs ← remind (reminder provider order.id u)
  pure (es ++ fs)

unfoldable pub remind_all : List WorkOrder → M (List Error)
unfolding remind_users
remind_all [] = pure []
remind_all (order ∷ orders) = do es ← remind_users order; fs ← remind_all orders; pure (es ++ fs)

-- `UrgentNotification`; the errors that `errors.Join` would join, none for nil.
unfoldable pub urgent_notification : M (List Error)
unfolding select_scheduled_between remind_all
urgent_notification = do
  now ← clock_now
  on_error (wrapped "finding work orders scheduled between") port
  orders ← λ (w : World). (w, select_scheduled_between now (now + 24 * hour) w.tables)
  remind_all orders
