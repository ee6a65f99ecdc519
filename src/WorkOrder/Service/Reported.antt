-- ===== src/WorkOrder/Service/Reported.antt =====
-- What ReportCompletion leaves in the tables (internal/domain/work_order/service.go).
use loresuelvo_api.Common.{
  ◌≡◌, refl, sym, ap, ◌∙◌, String, false, List, ok, ℤ, >>=-eq-ok, fail_if-eq-ok, ok-inj,
}
use loresuelvo_api.Time.{Instant}
use loresuelvo_api.User.{User, Role}
use loresuelvo_api.Notification.{Notification}
use loresuelvo_api.WorkOrder.CompletionReport.{CompletionReport, new_completion_report}
use loresuelvo_api.WorkOrder.State.{State, awaiting_payment_state}
use loresuelvo_api.WorkOrder.Order.{WorkOrder, consumer_id}
use loresuelvo_api.Work.{lift, read, port, clock_now, change}
use loresuelvo_api.Work.Hoare.{
  Hoare, bind-Hoare, lift-Hoare, lift-knows, port-keeps, clock_now-keeps, unit_of_work_as-Hoare,
  either, Hoare-weaken, change-knows,
}
use loresuelvo_api.Work.Statements.{read-knows, knowing}
use loresuelvo_api.Payment.World.{Tables, M}
use loresuelvo_api.Payment.World.Orders.{
  find_user_by_auth_id, find_order_by_id, select_order, select_user, put_order, save_notification,
  put_notification,
}
use loresuelvo_api.Payment.Service.{notify}
use loresuelvo_api.WorkOrder.Service.Allowed.{IsReported, reported-IsReported, reporter_role}
use loresuelvo_api.WorkOrder.Service.{
  report_to_read_model, Preparation, prepared_images, check_reporter, reported, put_reported,
  saved_report, save_reported, reported_change, commit_report, report_notification, quietly,
  report_completion, any_taken, with_report,
}

-- The tables after a report: that of an order as it was read, written with it, and one more
-- notification, to its consumer.
pub record Reported (auth_id : String) (id : ℤ) (description : String) (answer : Preparation)
    (t t' : Tables) : Type 0 where
  pub user : User
  pub order : WorkOrder
  pub images : List String
  pub usable : prepared_images answer ≡ ok images
  pub report : CompletionReport
  pub left : WorkOrder
  pub known : select_user auth_id t ≡ ok user
  pub is_provider : user.role ≡ Role.provider
  pub read : select_order id t ≡ ok order
  pub made : (now : Instant) × (new_completion_report description images now ≡ ok report)
  pub allowed : IsReported user order report left
  pub free_images : any_taken left.id report.image_file_ids t.orders ≡ false
  pub written :
      (u : Tables) × (put_order
          (record left { state = awaiting_payment_state (saved_report left report t) })
          t
        ≡ ok u)
      × (recipient : ℤ) × (consumer_id left ≡ ok recipient)
      × (at : Instant) × (t' ≡ put_notification (report_notification recipient left at) u)

put_reported-ok :
    (left : WorkOrder) (report : CompletionReport) (t u : Tables)
    → put_reported left report t ≡ ok u
    → (put_order (record left { state = with_report report left.state }) t ≡ ok u)
      × (any_taken left.id report.image_file_ids t.orders ≡ false)
unfolding put_reported
put_reported-ok left report t u e =
    let (v, e1, e2) =
      >>=-eq-ok (put_order (record left { state = with_report report left.state }) t) _ e in
    let (free, e3) = fail_if-eq-ok (any_taken left.id report.image_file_ids t.orders) _ (ok v) e2 in
    (e1 ∙ e3, free)

-- The report that is saved, and the tables that have it.
abbrev Saved : WorkOrder → CompletionReport → Notification → Tables → Tables → Type 0
Saved left report n t t' =
    (u : Tables) × (put_reported left (saved_report left report t) t ≡ ok u)
    × (t' ≡ put_notification n u)

reported_change-ok :
    (left : WorkOrder) (report : CompletionReport) (t : Tables) (r : Tables × CompletionReport)
    → reported_change left report t ≡ ok r
    → put_reported left (saved_report left report t) t ≡ ok r.0
unfolding reported_change
reported_change-ok left report t r e =
    let (u, e1, e2) = >>=-eq-ok (put_reported left (saved_report left report t) t) _ e in
    e1 ∙ ap (λ (p : Tables × CompletionReport). ok p.0) (ok-inj _ r e2)

commit_report-Saved :
    (left : WorkOrder) (report : CompletionReport) (n : Notification) (t : Tables)
    → Hoare (λ u. u ≡ t) (commit_report left report n) (λ _. Saved left report n t) (λ u. u ≡ t)
unfolding commit_report save_reported save_notification
commit_report-Saved left report n t = unit_of_work_as-Hoare _ _ _ (
    bind-Hoare (change (reported_change left report)) _
      (Hoare-weaken _ (change-knows (reported_change left report) t))
      (λ saved.
        bind-Hoare {R = λ _. Saved left report n t} _ _
          (bind-Hoare port _ (Hoare-weaken port port-keeps) (λ _. record {
            runs = λ w p. (w.tables, reported_change-ok left report t (w.tables, saved) p, refl);
          }))
          (λ a. lift-Hoare (ok (saved, a)) (λ u p. p))))

quietly-keeps :
    {P E : Tables → Type 0} (m : M (Unit {0}))
    → Hoare P m (λ _. P) P
    → Hoare P (quietly m) (λ _. P) E
quietly-keeps {P = P} m h = record { runs = λ w p. either P (m w).0.tables (m w).1 (h.runs w p) }

notify-keeps : {P : Tables → Type 0} (n : Notification) → Hoare P (notify n) (λ _. P) P
unfolding notify
notify-keeps n = bind-Hoare port _ port-keeps (λ _. record { runs = λ w p. p })

module _ (prepare : String → List String → Preparation) (auth_id : String) (id : ℤ)
    (description : String) (files : List String) (t : Tables) where
  Saved-Reported :
      (user : User) (order : WorkOrder) (images : List String) (now at : Instant)
      (made : CompletionReport × WorkOrder) (recipient : ℤ)
      → select_user auth_id t ≡ ok user
      → select_order id t ≡ ok order
      → user.role ≡ Role.provider
      → reported user order description images now ≡ ok made
      → consumer_id made.1 ≡ ok recipient
      → prepared_images (prepare auth_id files) ≡ ok images
      → (u : Tables) → Saved made.1 made.0 (report_notification recipient made.1 at) t u
      → Reported auth_id id description (prepare auth_id files) t u
  Saved-Reported user order images now at made recipient known found role e c usable u (v, w, x) =
      let (new, allowed) = reported-IsReported user order description images now made e in
      let (put, free) = put_reported-ok made.1 (saved_report made.1 made.0 t) t v w in
      record {
        user = user;
        order = order;
        images = images;
        usable = usable;
        report = made.0;
        left = made.1;
        known = known;
        is_provider = role;
        read = found;
        made = (now, new);
        allowed = allowed;
        free_images = free;
        written = (
          v,
          ap
                (λ (s : State).
                  put_order (record made.1 { state = with_report (saved_report made.1 made.0 t) s })
                    t)
                (sym (ap (λ (wo : WorkOrder). wo.state) allowed.is))
              ∙ put,
          recipient,
          c,
          at,
          x,
        );
      }

  -- ReportCompletion fails and leaves the tables as they were, or the caller is the provider of the order,
  -- reports it at or after the time it was scheduled for, no image is one of another report, and the
  -- order is saved with the new report alone changed, and one notification to its consumer with it.
  pub report_completion-Reported :
      Hoare
        (λ u. u ≡ t)
        (report_completion prepare auth_id id description files)
        (λ _. Reported auth_id id description (prepare auth_id files) t)
        (λ u. u ≡ t)
  unfolding report_completion find_user_by_auth_id find_order_by_id
  report_completion-Reported =
      bind-Hoare (read (select_user auth_id)) _ (read-knows (select_user auth_id) t) (λ user.
        knowing (λ known.
          bind-Hoare (read (select_order id)) _ (read-knows (select_order id) t) (λ order.
            knowing (λ found. bind-Hoare (lift (check_reporter user order)) _ (lift-knows _) (λ r.
              knowing (λ checked. bind-Hoare port _ port-keeps (λ _.
                bind-Hoare (lift (prepared_images (prepare auth_id files))) _ (lift-knows _)
                  (λ images. knowing (λ usable. bind-Hoare clock_now _ clock_now-keeps (λ now.
                    bind-Hoare (lift (reported user order description images now)) _ (lift-knows _)
                      (λ made. knowing (λ e.
                        bind-Hoare (lift (consumer_id made.1)) _ (lift-knows _) (λ recipient.
                          knowing (λ c. bind-Hoare clock_now _ clock_now-keeps (λ at.
                            bind-Hoare
                              (commit_report made.1 made.0
                                (report_notification recipient made.1 at))
                              _
                              (commit_report-Saved made.1 made.0
                                (report_notification recipient made.1 at) t)
                              (λ saved.
                                bind-Hoare (quietly (notify saved.1)) _
                                  (quietly-keeps _ (notify-keeps saved.1))
                                  (λ _.
                                    lift-Hoare (ok (report_to_read_model saved.0 images)) (λ u p.
                                      Saved-Reported user order images now at made recipient known
                                        found (reporter_role user order r checked) e c usable u
                                        p))))))))))))))))))
