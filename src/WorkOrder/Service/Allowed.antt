-- ===== src/WorkOrder/Service/Allowed.antt =====
-- What the checks of CreateReview and ReportCompletion (internal/domain/work_order/service.go) say of
-- the order that they are made on.
use loresuelvo_api.Common.{
  ==ℤ_iff, >>=-eq-ok, Bool, List, String, ap, arith, fail_if-eq-ok, false, none, not, ok, ok-inj,
  refl, some, subst, sym, true, ℤ, ◌==ℤ◌, ◌∙◌, ◌≡◌, ◌≤◌,
}
use loresuelvo_api.Time.{Instant}
use loresuelvo_api.User.{Role, User}
use loresuelvo_api.WorkOrder.CompletionReport.{CompletionReport, new_completion_report}
use loresuelvo_api.WorkOrder.State
use loresuelvo_api.WorkOrder.State.{State, awaiting_payment_state, paid_state, scheduled_state}
use loresuelvo_api.WorkOrder.Order.{
  WorkOrder, consumer_id, lacks_identity, provider_id, reported_before, scheduled_on,
}
use loresuelvo_api.WorkOrder.Order.Methods
use loresuelvo_api.WorkOrder.Service.{check_reporter, is_consumer, is_provider, reported, reviewed}
use loresuelvo_api.WorkOrder.Review.{Review, new_review}

-- What a review that is taken says of its order.
pub record IsReviewed (user : User) (order : WorkOrder) (review : Review) (left : WorkOrder)
    : Type 0 where
  pub by_consumer : user.role ≡ Role.consumer
  pub own_order : consumer_id order ≡ ok user.id
  pub paid :
      (report : CompletionReport) × (on : Instant) × (order.state ≡ paid_state report on none)
      × (left ≡ record order { state = paid_state report on (some review) })

not-false : (b : Bool) → not b ≡ false → b ≡ true
not-false b h = ground arith

role_consumer : (r : Role) → not (is_consumer r) ≡ false → r ≡ Role.consumer
role_consumer Role.consumer h = refl
role_consumer Role.provider h = cc
role_consumer Role.admin h = cc

state_reviewed :
    (s next : State) (review : Review)
    → State.add_review s review ≡ ok next
    → (report : CompletionReport) × (on : Instant) × (s ≡ paid_state report on none)
      × (next ≡ paid_state report on (some review))
unfolding State.add_review
state_reviewed scheduled_state next review e = cc
state_reviewed (awaiting_payment_state _) next review e = cc
state_reviewed (paid_state report on none) next review e = (report, on, refl, cc)
state_reviewed (paid_state report on (some _)) next review e = cc

add_review-IsReviewed :
    (user : User) (order left : WorkOrder) (review : Review)
    → user.role ≡ Role.consumer
    → Methods.add_review order (some user) (some review) ≡ ok left
    → IsReviewed user order review left
unfolding Methods.add_review
add_review-IsReviewed user order left review r e =
    let (_, e1) = fail_if-eq-ok (lacks_identity order) _ _ e in
    let (_, e2) = fail_if-eq-ok _ _ _ e1 in
    let (consumer, own, e3) = >>=-eq-ok (consumer_id order) _ e2 in
    let (same, e4) = fail_if-eq-ok (not (user.id ==ℤ consumer)) _ _ e3 in
    let (next, e5, e6) = >>=-eq-ok (State.add_review order.state review) _ e4 in
    let (report, on, was, is) = state_reviewed order.state next review e5 in
    record {
      by_consumer = r;
      own_order = own ∙ ap ok (sym ((==ℤ_iff user.id consumer).0 (not-false _ same)));
      paid = (
        report,
        on,
        was,
        sym (ok-inj _ left e6) ∙ ap (λ (s : State). record order { state = s }) is,
      );
    }

pub reviewed-IsReviewed :
    (user : User) (order : WorkOrder) (rating : ℤ) (description : String)
    (made : Review × WorkOrder)
    → reviewed user order rating description ≡ ok made
    → (new_review rating description ≡ ok made.0) × IsReviewed user order made.0 made.1
unfolding reviewed
reviewed-IsReviewed user order rating description made e =
    let (c, e1) = fail_if-eq-ok (not (is_consumer user.role)) _ _ e in
    let (review, e2, e3) = >>=-eq-ok (new_review rating description) _ e1 in
    let (left, e4, e5) = >>=-eq-ok (Methods.add_review order (some user) (some review)) _ e3 in
    let i = add_review-IsReviewed user order left review (role_consumer user.role c) e4 in
    subst
      (λ (m : Review × WorkOrder).
        (new_review rating description ≡ ok m.0) × IsReviewed user order m.0 m.1)
      (ok-inj _ made e5) (e2, i)

-- What a report that is taken says of its order.
pub record IsReported (user : User) (order : WorkOrder) (report : CompletionReport)
    (left : WorkOrder) : Type 0 where
  pub own_order : provider_id order ≡ ok user.id
  pub on_time : (on : Instant) × (scheduled_on order ≡ ok on) × (on ≤ report.reported_on)
  pub was : order.state ≡ scheduled_state
  pub is : left ≡ record order { state = awaiting_payment_state report }

state_reported :
    (s next : State) (report : CompletionReport)
    → State.report_completion s (some report) ≡ ok next
    → (s ≡ scheduled_state) × (next ≡ awaiting_payment_state report)
unfolding State.report_completion
state_reported scheduled_state next report e = (refl, cc)
state_reported (awaiting_payment_state _) next report e = cc
state_reported (paid_state _ on found) next report e = cc

on_time_of :
    (report : CompletionReport) (on : Instant)
    → reported_before report on ≡ false
    → on ≤ report.reported_on
on_time_of report on h = ground arith

report_completion-IsReported :
    (user : User) (order left : WorkOrder) (report : CompletionReport)
    → Methods.report_completion order user.id (some report) ≡ ok left
    → IsReported user order report left
unfolding Methods.report_completion
report_completion-IsReported user order left report e =
    let (_, e1) = fail_if-eq-ok (lacks_identity order) _ _ e in
    let (_, e2) = fail_if-eq-ok _ _ _ e1 in
    let (assigned, own, e3) = >>=-eq-ok (provider_id order) _ e2 in
    let (same, e4) = fail_if-eq-ok (not (assigned ==ℤ user.id)) _ _ e3 in
    let (on, s, e5) = >>=-eq-ok (scheduled_on order) _ e4 in
    let (late, e6) = fail_if-eq-ok (reported_before report on) _ _ e5 in
    let (next, e7, e8) = >>=-eq-ok (State.report_completion order.state (some report)) _ e6 in
    let (was, is) = state_reported order.state next report e7 in
    record {
      own_order = own ∙ ap ok ((==ℤ_iff assigned user.id).0 (not-false _ same));
      on_time = (on, s, on_time_of report on late);
      was = was;
      is = sym (ok-inj _ left e8) ∙ ap (λ (s : State). record order { state = s }) is;
    }

pub reported-IsReported :
    (user : User) (order : WorkOrder) (description : String) (images : List String) (now : Instant)
    (made : CompletionReport × WorkOrder)
    → reported user order description images now ≡ ok made
    → (new_completion_report description images now ≡ ok made.0)
      × IsReported user order made.0 made.1
unfolding reported
reported-IsReported user order description images now made e =
    let (report, e1, e2) = >>=-eq-ok (new_completion_report description images now) _ e in
    let (left, e3, e4) = >>=-eq-ok (Methods.report_completion order user.id (some report)) _ e2 in
    subst
      (λ (m : CompletionReport × WorkOrder).
        (new_completion_report description images now ≡ ok m.0) × IsReported user order m.0 m.1)
      (ok-inj _ made e4) (e1, report_completion-IsReported user order left report e3)

provider_role : (r : Role) → is_provider r ≡ true → r ≡ Role.provider
provider_role Role.consumer h = cc
provider_role Role.provider h = refl
provider_role Role.admin h = cc

pub reporter_role :
    (user : User) (order : WorkOrder) (r : Unit {0})
    → check_reporter user order ≡ ok r
    → user.role ≡ Role.provider
unfolding check_reporter
reporter_role user order r e =
    provider_role user.role (not-false _ (fail_if-eq-ok (not (is_provider user.role)) _ _ e).0)
