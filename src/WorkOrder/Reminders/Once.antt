-- ===== src/WorkOrder/Reminders/Once.antt =====
-- A reminder is sent at most once (`UrgentNotification` of internal/domain/work_order/service.go).
use loresuelvo_api.Common.{
  ℕ, ◌+◌, ◌*◌, ◌≤◌, ◌≡◌, refl, subst, arith, String, Bool, true, false, ◌&&◌, List, [], ◌∷◌, ◌++◌,
  Option, none, some, ok, err, if◌then◌else◌, ℤ, ◌==ℤ◌, ==ℤ_iff, is_some, Bool-cases, inl, inr,
}
use loresuelvo_api.Errors.{Error, Outcome, wrapped}
use loresuelvo_api.Time.{Instant, hour}
use loresuelvo_api.Notification.{Notification}
use loresuelvo_api.WorkOrder.Order.{WorkOrder, consumer_id, provider_id}
use loresuelvo_api.Work.{lift, port, on_error, first, clock_now}
use loresuelvo_api.Work.Runs.{port-cases}
use loresuelvo_api.Work.Keeps.{Keeps, bind-Keeps, port-Keeps, clock_now-Keeps}
use loresuelvo_api.Payment.World.{World, Tables}
use loresuelvo_api.Payment.World.Orders.{numbered, put_notification}
use loresuelvo_api.Payment.Service.{notify}
use loresuelvo_api.WorkOrder.Reminders.{
  is_reminder, is_same_reminder, is_stored, save_if_absent, notify_saved, remind, reminder,
  remind_users, remind_all, select_scheduled_between, urgent_notification,
}

-- How many reminders of an order to a user there are.
abbrev pub count : ℤ → ℤ → List Notification → ℕ
count user_id order_id [] = 0
count user_id order_id (n ∷ ns) =
    (if is_same_reminder user_id order_id n then 1 else 0) + count user_id order_id ns

-- With what is still to be sent: no reminder is sent but one that is stored, and none is stored twice.
abbrev pub Allowed : List Notification → Tables → List Notification → Type 0
Allowed extra t sent =
    (user_id order_id : ℤ)
    → (count user_id order_id (extra ++ sent) ≤ count user_id order_id t.notifications)
      × (count user_id order_id t.notifications ≤ 1)

count-append :
    (u o : ℤ) (ns ms : List Notification) → count u o (ns ++ ms) ≡ count u o ns + count u o ms
count-append u o [] ms = omega arith
count-append u o (n ∷ ns) ms = omega (arith, count-append u o ns ms)

count_absent :
    (u o : ℤ) (ns : List Notification)
    → is_some (first (is_same_reminder u o) ns) ≡ false
    → count u o ns ≡ 0
count_absent u o [] h = refl
count_absent u o (n ∷ ns) h = elim (Bool-cases (is_same_reminder u o n)) [
  | inl e ↦ absurd (cc (rw e at h))
  | inr e ↦ rw e (omega (arith, count_absent u o ns (rw e at h)))
]

and-true : (a b : Bool) → (a && b) ≡ true → (a ≡ true) × (b ≡ true)
and-true a b h = ground arith

same_users :
    (u o : ℤ) (n : Notification)
    → is_same_reminder u o n ≡ true
    → (is_reminder n ≡ true) × (n.user_id ≡ u) × (n.resource_id ≡ o)
same_users u o n h =
    let (p, q) = and-true (is_reminder n && (n.user_id ==ℤ u)) (n.resource_id ==ℤ o) h in
    let (r, s) = and-true (is_reminder n) (n.user_id ==ℤ u) p in
    (r, (==ℤ_iff n.user_id u).0 s, (==ℤ_iff n.resource_id o).0 q)

-- A reminder that is not stored can be counted once.
counted_once :
    (n : Notification) (t : Tables) (u o : ℤ)
    → (is_reminder n && is_stored n t) ≡ false
    → is_same_reminder u o n ≡ true
    → count u o t.notifications ≡ 0
counted_once n t u o h e =
    let (r, p, q) = same_users u o n e in
    count_absent u o t.notifications (
      subst (λ x. is_some (first (is_same_reminder u x) t.notifications) ≡ false) q
        (subst (λ x. is_some (first (is_same_reminder x n.resource_id) t.notifications) ≡ false) p
          (rw r at h)))

put-Allowed :
    (n : Notification) (t : Tables) (sent : List Notification)
    → (is_reminder n && is_stored n t) ≡ false
    → Allowed [] t sent
    → Allowed (numbered n t ∷ []) (put_notification n t) sent
unfolding put_notification numbered
put-Allowed n t sent h allowed u o =
    let (a, b) = allowed u o in
    let grown = count-append u o t.notifications (numbered n t ∷ []) in
    elim (Bool-cases (is_same_reminder u o n)) [
      | inl e ↦ ground (arith, counted_once n t u o h e)
      | inr e ↦ ground arith
    ]

-- What was saved and is still to be sent.
abbrev extra_of : Outcome (Option Notification) → List Notification
extra_of (ok (some n)) = n ∷ []
extra_of _ = []

abbrev AllowedAfter : World × Outcome (Option Notification) → Type 0
AllowedAfter r = Allowed (extra_of r.1) r.0.tables r.0.sent

save_if_absent-Allowed :
    (n : Notification) (w : World) → Allowed [] w.tables w.sent → AllowedAfter (save_if_absent n w)
unfolding save_if_absent
save_if_absent-Allowed n w allowed = elim (port-cases w) [
  | inr (fs, e, q) ↦ rw q allowed
  | inl (fs, q) ↦ rw q (elim (Bool-cases (is_reminder n && is_stored n w.tables)) [
    | inl h ↦ rw h allowed
    | inr h ↦ rw h (put-Allowed n w.tables w.sent h allowed)
  ])
]

forget :
    (n : Notification) (t : Tables) (sent : List Notification)
    → Allowed (n ∷ []) t sent
    → Allowed [] t sent
forget n t sent allowed u o = let (a, b) = allowed u o in (omega arith, b)

notify-Allowed :
    (n : Notification) (w : World)
    → Allowed (n ∷ []) w.tables w.sent
    → Allowed [] (notify n w).0.tables (notify n w).0.sent
unfolding notify
notify-Allowed n w allowed = elim (port-cases w) [
  | inr (fs, e, q) ↦ rw q (forget n w.tables w.sent allowed)
  | inl (fs, q) ↦ rw q allowed
]

abbrev IsAllowed : Tables → List Notification → Type 0
IsAllowed t sent = Allowed [] t sent

notify_saved-Allowed :
    (r : Outcome (Option Notification)) (w : World)
    → Allowed (extra_of r) w.tables w.sent
    → IsAllowed (notify_saved r w).0.tables (notify_saved r w).0.sent
notify_saved-Allowed (err e) w allowed = allowed
notify_saved-Allowed (ok none) w allowed = allowed
notify_saved-Allowed (ok (some n)) w allowed = notify-Allowed n w allowed

remind-Keeps : (n : Notification) → Keeps IsAllowed (remind n)
unfolding remind
remind-Keeps n w allowed =
    notify_saved-Allowed (save_if_absent n w).1 (save_if_absent n w).0
      (save_if_absent-Allowed n w allowed)

lift-Keeps : {A : Type 0} (r : Outcome A) → Keeps IsAllowed (lift r)
lift-Keeps r w allowed = allowed

remind_users-Keeps : (order : WorkOrder) → Keeps IsAllowed (remind_users order)
unfolding remind_users
remind_users-Keeps order =
    bind-Keeps IsAllowed (lift (consumer_id order)) _ (lift-Keeps (consumer_id order)) (λ consumer.
      bind-Keeps IsAllowed clock_now _ (clock_now-Keeps IsAllowed) (λ t.
        bind-Keeps IsAllowed (lift (provider_id order)) _ (lift-Keeps (provider_id order))
          (λ provider. bind-Keeps IsAllowed clock_now _ (clock_now-Keeps IsAllowed) (λ u.
            bind-Keeps IsAllowed (remind (reminder consumer order.id t)) _
              (remind-Keeps (reminder consumer order.id t))
              (λ es.
                bind-Keeps IsAllowed (remind (reminder provider order.id u)) _
                  (remind-Keeps (reminder provider order.id u))
                  (λ fs. lift-Keeps (ok (es ++ fs))))))))

remind_all-Keeps : (orders : List WorkOrder) → Keeps IsAllowed (remind_all orders)
unfolding remind_all
remind_all-Keeps [] = lift-Keeps {A = List Error} (ok [])
remind_all-Keeps (order ∷ orders) =
    bind-Keeps IsAllowed (remind_users order) _ (remind_users-Keeps order) (λ es.
      bind-Keeps IsAllowed (remind_all orders) _ (remind_all-Keeps orders)
        (λ fs. lift-Keeps (ok (es ++ fs))))

urgent_notification-Keeps : Keeps IsAllowed urgent_notification
unfolding urgent_notification
urgent_notification-Keeps = bind-Keeps IsAllowed clock_now _ (clock_now-Keeps IsAllowed) (λ now.
    bind-Keeps IsAllowed (on_error (wrapped "finding work orders scheduled between") port) _
      (port-Keeps IsAllowed)
      (λ _.
        bind-Keeps IsAllowed
          (λ (w : World). (w, select_scheduled_between now (now + 24 * hour) w.tables)) _
          (λ w allowed. allowed) remind_all-Keeps))

-- What the environment brings to a run of the job: the time, and what fails.
pub record Circumstances : Type 0 where
  pub now : Instant
  pub ticks : List ℕ
  pub faults : List (Option String)

-- The job run again and again, on the tables and the messages that the runs before it left.
unfoldable pub run_job : List Circumstances → World → World
run_job [] w = w
run_job (c ∷ cs) w =
    run_job cs
      (urgent_notification (record w { now = c.now; ticks = c.ticks; faults = c.faults })).0

-- However often the job of the urgent reminders is run, at whatever times and whatever fails in its
-- runs: if no reminder of an order had been sent to a user more often than it is stored, and none was
-- stored twice, then so it is after the runs, and so a user gets the reminder of an order at most once.
pub run_job-Allowed :
    (cs : List Circumstances) (w : World)
    → Allowed [] w.tables w.sent
    → Allowed [] (run_job cs w).tables (run_job cs w).sent
unfolding run_job
run_job-Allowed [] w allowed = allowed
run_job-Allowed (c ∷ cs) w allowed =
    let before : World = record w { now = c.now; ticks = c.ticks; faults = c.faults } in
    run_job-Allowed cs (urgent_notification before).0 (urgent_notification-Keeps before allowed)
