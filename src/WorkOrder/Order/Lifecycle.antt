-- ===== src/WorkOrder/Order/Lifecycle.antt =====
-- The life of a work order (internal/domain/work_order/{work_order,state}.go).
use loresuelvo_api.Common.{
  ◌≤◌, ◌≡◌, ◌≢◌, ◌⊎◌, inr, refl, ◌∙◌, arith, Option, none, some, ok, err, ℤ, List, [], ◌∷◌,
}
use loresuelvo_api.Errors.{Outcome}
use loresuelvo_api.Time.{Instant, zero_time}
use loresuelvo_api.User.{User}
use loresuelvo_api.ServiceProposal.Proposal.{ServiceProposal}
use loresuelvo_api.WorkOrder.CompletionReport.{CompletionReport}
use loresuelvo_api.WorkOrder.Review.{Review}
use loresuelvo_api.WorkOrder.State.{
  State, Status, scheduled_state, awaiting_payment_state, paid_state,
}
use loresuelvo_api.WorkOrder.State
use loresuelvo_api.WorkOrder.Order.{WorkOrder, new_work_order, set_id}
use loresuelvo_api.WorkOrder.Order.Methods.{
  report_completion, register_approved_balance_payment, add_review,
}

-- The calls that change an order.
pub data Call : Type 0 where
  reports : ℤ → Option CompletionReport → Call
  registers_payment : Instant → Call
  reviews : Option User → Option Review → Call

-- A call that fails leaves the order as it was.
abbrev pub after : WorkOrder → Outcome WorkOrder → WorkOrder
after wo (ok wo') = wo'
after wo (err e) = wo

unfoldable pub step : WorkOrder → Call → WorkOrder
step wo (reports reporter report) = after wo (report_completion wo reporter report)
step wo (registers_payment on) = after wo (register_approved_balance_payment wo on)
step wo (reviews reviewer review) = after wo (add_review wo reviewer review)

unfoldable pub run : WorkOrder → List Call → WorkOrder
run wo [] = wo
run wo (c ∷ cs) = run (step wo c) cs

-- Work is reported once it has started, and paid for at a time that is set.
abbrev IsTimelyState : Instant → State → Type 0
IsTimelyState on scheduled_state = Unit {0}
IsTimelyState on (awaiting_payment_state report) = on ≤ report.reported_on
IsTimelyState on (paid_state report paid_on review) =
    (on ≤ report.reported_on) × (paid_on ≢ zero_time)

abbrev IsTimelyFor : Option ServiceProposal → State → Type 0
IsTimelyFor none s = s ≡ scheduled_state
IsTimelyFor (some sp) s = IsTimelyState sp.scheduled_on s

abbrev pub IsTimely : WorkOrder → Type 0
IsTimely wo = IsTimelyFor wo.service_proposal wo.state

step-IsTimely : (wo : WorkOrder) (c : Call) → IsTimely wo → IsTimely (step wo c)
unfolding step report_completion register_approved_balance_payment add_review
step-IsTimely wo (reports reporter report) h = ground arith
step-IsTimely wo (registers_payment on) h = ground arith
step-IsTimely wo (reviews reviewer review) h = ground arith

run-IsTimely_from : (wo : WorkOrder) (cs : List Call) → IsTimely wo → IsTimely (run wo cs)
unfolding run
run-IsTimely_from wo [] h = h
run-IsTimely_from wo (c ∷ cs) h = run-IsTimely_from (step wo c) cs (step-IsTimely wo c h)

-- Whatever is called on a new order once it has got an id, in any order and by anybody: it awaits
-- payment or is paid only with a report made at or after the scheduled time, and is paid only at a
-- time that is set.
pub run-IsTimely :
    (sp : ServiceProposal) (accepted_on : Instant) (id : ℤ) (cs : List Call) {wo : WorkOrder}
    → new_work_order (some sp) accepted_on ≡ ok wo
    → IsTimely (run (set_id wo id) cs)
unfolding new_work_order
run-IsTimely sp accepted_on id cs {wo} e = run-IsTimely_from (set_id wo id) cs (ground arith)

-- Whatever an order has got, it keeps.
pub record Keeps (wo wo' : WorkOrder) : Type 0 where
  pub same_id : wo'.id ≡ wo.id
  pub same_proposal : wo'.service_proposal ≡ wo.service_proposal
  pub same_acceptance : wo'.accepted_on ≡ wo.accepted_on
  pub report_kept :
      (State.completion_report wo.state ≡ none)
      ⊎ (State.completion_report wo'.state ≡ State.completion_report wo.state)
  pub payment_kept :
      (State.status wo.state ≢ Status.paid)
      ⊎ ((State.status wo'.state ≡ Status.paid)
          × (State.paid_on wo'.state ≡ State.paid_on wo.state))
  pub review_kept :
      (State.review wo.state ≡ none) ⊎ (State.review wo'.state ≡ State.review wo.state)

step-Keeps : (wo : WorkOrder) (c : Call) → Keeps wo (step wo c)
unfolding step report_completion register_approved_balance_payment add_review State.status
    State.paid_on State.completion_report State.review
step-Keeps wo (reports reporter report) = ground arith
step-Keeps wo (registers_payment on) = ground arith
step-Keeps wo (reviews reviewer review) = ground arith

Keeps-trans : (a b c : WorkOrder) → Keeps a b → Keeps b c → Keeps a c
Keeps-trans a b c h k = record {
  same_id = k.same_id ∙ h.same_id;
  same_proposal = k.same_proposal ∙ h.same_proposal;
  same_acceptance = k.same_acceptance ∙ h.same_acceptance;
  report_kept = ground (arith, h.report_kept, k.report_kept);
  payment_kept = ground (arith, h.payment_kept, k.payment_kept);
  review_kept = ground (arith, h.review_kept, k.review_kept);
}

-- No sequence of calls changes the order's identity, proposal or acceptance, replaces its report or
-- its review, or takes back or moves its payment.
pub run-Keeps : (wo : WorkOrder) (cs : List Call) → Keeps wo (run wo cs)
unfolding run
run-Keeps wo [] = record {
  same_id = refl;
  same_proposal = refl;
  same_acceptance = refl;
  report_kept = inr refl;
  payment_kept = ground arith;
  review_kept = inr refl;
}
run-Keeps wo (c ∷ cs) =
    Keeps-trans wo (step wo c) (run (step wo c) cs) (step-Keeps wo c) (run-Keeps (step wo c) cs)
