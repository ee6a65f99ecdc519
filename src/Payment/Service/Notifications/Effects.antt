-- ===== src/Payment/Service/Notifications/Effects.antt =====
-- What a notification of a payment leaves in the tables (internal/domain/payment/service.go).
use loresuelvo_api.Common.{refl, inl, inr, ok, ap}
use loresuelvo_api.Errors.{Outcome, external}
use loresuelvo_api.Notification.{Notification}
use loresuelvo_api.ServiceProposal.Proposal.{ServiceProposal}
use loresuelvo_api.WorkOrder.Order.{WorkOrder}
use loresuelvo_api.Work.{bind_result, ◌>>◌}
use loresuelvo_api.Payment.Intent.{Intent}
use loresuelvo_api.Payment.Transaction.{Transaction}
use loresuelvo_api.Payment.World.{Tables, World, M}
use loresuelvo_api.Work.Runs.{Runs, Commits, port-cases, then-Runs, then_put, unit_of_work-Commits}
use loresuelvo_api.Payment.World.Repositories.{
  put_transaction, put_intent, save_transaction, save_intent,
}
use loresuelvo_api.Payment.World.Orders.{
  put_proposal, put_order, put_notification, save_proposal, save_order, save_notification, numbered,
}
use loresuelvo_api.Payment.Service.Notifications.{commit_booking, commit_balance}

abbrev pub noted : Notification → Tables → Outcome (Tables × Notification)
noted n t = ok (put_notification n t, numbered n t)

save_notification-Runs :
    (n : Notification) (w : World) → Runs Notification (noted n) (save_notification n) w
unfolding save_notification Runs
save_notification-Runs n w = elim (port-cases w) [
  | inl (fs, q) ↦ inl (
    _,
    _,
    _,
    refl,
    ap
        (λ p.
          bind_result p.0 p.1
            (λ _ v. (record v { tables = put_notification n v.tables }, ok (numbered n v.tables))))
        q,
    refl,
    refl,
  )
  | inr (fs, e, q) ↦ inr (
    external e,
    _,
    ap
        (λ p.
          bind_result p.0 p.1
            (λ _ v. (record v { tables = put_notification n v.tables }, ok (numbered n v.tables))))
        q,
    refl,
  )
]

order-Runs :
    (o : WorkOrder) (n : Notification) (w : World)
    → Runs Notification (then_put (put_order o) (noted n)) (save_order o >> save_notification n) w
unfolding save_order
order-Runs o n w =
    then-Runs (put_order o) (noted n) (save_notification n) w (λ v. save_notification-Runs n v)

proposal-Runs :
    (p : ServiceProposal) (o : WorkOrder) (n : Notification) (w : World)
    → Runs Notification
        (then_put (put_proposal p) (then_put (put_order o) (noted n)))
        (save_proposal p >> (save_order o >> save_notification n))
        w
unfolding save_proposal
proposal-Runs p o n w =
    then-Runs (put_proposal p) (then_put (put_order o) (noted n))
      (save_order o >> save_notification n) w (λ v. order-Runs o n v)

-- Both units of work start with the transaction and the intent.
payment-Runs :
    (x : Transaction) (i : Intent) (g : Tables → Outcome (Tables × Notification))
    (k : M Notification) (w : World)
    → ((v : World) → Runs Notification g k v)
    → Runs Notification
        (then_put (put_transaction x) (then_put (put_intent i) g))
        (save_transaction x >> (save_intent i >> k))
        w
unfolding save_transaction save_intent
payment-Runs x i g k w r =
    then-Runs (put_transaction x) (then_put (put_intent i) g) (save_intent i >> k) w
      (λ v. then-Runs (put_intent i) g k v r)

-- The five writes of an approved booking, in their order.
unfoldable pub booking_writes :
    Transaction
    → Intent
    → ServiceProposal
    → WorkOrder
    → Notification
    → Tables
    → Outcome (Tables × Notification)
booking_writes x i p o n =
    then_put (put_transaction x)
      (then_put (put_intent i) (then_put (put_proposal p) (then_put (put_order o) (noted n))))

-- The unit of work of an approved booking saves the transaction, the intent, the proposal, the work
-- order and the notification, or it fails and changes no table. It sends nothing.
pub commit_booking-Commits :
    (x : Transaction) (i : Intent) (p : ServiceProposal) (o : WorkOrder) (n : Notification)
    (w : World)
    → Commits Notification (booking_writes x i p o n) (commit_booking x i p o n) w
unfolding commit_booking booking_writes
commit_booking-Commits x i p o n w =
    unit_of_work-Commits _
      (save_transaction x
        >> (save_intent i >> (save_proposal p >> (save_order o >> save_notification n))))
      w (λ v. payment-Runs x i _ _ v (proposal-Runs p o n))

-- The four writes of an approved balance.
unfoldable pub balance_writes :
    Transaction → Intent → WorkOrder → Notification → Tables → Outcome (Tables × Notification)
balance_writes x i o n =
    then_put (put_transaction x) (then_put (put_intent i) (then_put (put_order o) (noted n)))

-- The unit of work of an approved balance saves the transaction, the intent, the work order and the
-- notification, or it fails and changes no table. It sends nothing.
commit_balance-Commits :
    (x : Transaction) (i : Intent) (o : WorkOrder) (n : Notification) (w : World)
    → Commits Notification (balance_writes x i o n) (commit_balance x i o n) w
unfolding commit_balance balance_writes
commit_balance-Commits x i o n w =
    unit_of_work-Commits _
      (save_transaction x >> (save_intent i >> (save_order o >> save_notification n))) w
      (λ v. payment-Runs x i _ _ v (order-Runs o n))
