-- ===== src/WorkOrder/Order/Transitions.antt =====
-- The transitions of a work order, described apart from the code, and that the methods of
-- internal/domain/work_order/work_order.go make exactly these.
use loresuelvo_api.Common.{
  ◌≤◌, ◌≡◌, ◌≢◌, ◌⊎◌, inl, inr, refl, arith, Option, none, some, ok, ℤ, pos, ==ℤ_iff, leb_ℤ, ◌≤ℤ◌,
  Option-cases, Result-cases, subst, sym,
}
use loresuelvo_api.Time.{Instant, zero_time}
use loresuelvo_api.User.{User}
use loresuelvo_api.ServiceProposal.Proposal.{ServiceProposal}
use loresuelvo_api.WorkOrder.CompletionReport.{CompletionReport}
use loresuelvo_api.WorkOrder.Review.{Review}
use loresuelvo_api.WorkOrder.State
use loresuelvo_api.WorkOrder.State.{scheduled_state, awaiting_payment_state, paid_state}
use loresuelvo_api.WorkOrder.Order.{WorkOrder}
use loresuelvo_api.WorkOrder.Order.Lifecycle.{Call, reports, registers_payment, reviews, step}
use loresuelvo_api.WorkOrder.Order.Methods.{
  report_completion, register_approved_balance_payment, add_review,
}

-- The three transitions of an order that has an id and a proposal, each with the call that asks for
-- it: a report is that of the assigned provider.
pub record IsFiled (wo : WorkOrder) (c : Call) (wo' : WorkOrder) (sp : ServiceProposal)
    (provider : User) (report : CompletionReport) : Type 0 where
  pub asked : c ≡ reports provider.id (some report)
  pub identified : pos 1 ≤ℤ wo.id
  pub proposed : wo.service_proposal ≡ some sp
  pub assigned : sp.provider ≡ some provider
  pub known : pos 1 ≤ℤ provider.id
  pub started : sp.scheduled_on ≤ report.reported_on
  pub was_scheduled : wo.state ≡ scheduled_state
  pub now_awaiting : wo' ≡ record wo { state = awaiting_payment_state report }

report_completion-IsFiled :
    (wo wo' : WorkOrder) (reporter : ℤ) (report : Option CompletionReport)
    → report_completion wo reporter report ≡ ok wo'
    → (sp : ServiceProposal) × (provider : User) × (r : CompletionReport) × IsFiled wo
        (reports reporter report)
        wo'
        sp
        provider
        r
unfolding report_completion leb_ℤ
report_completion-IsFiled wo wo' reporter none e = absurd (ground arith)
report_completion-IsFiled wo wo' reporter (some r) e = elim (Option-cases wo.service_proposal) [
  | inl p ↦ absurd (ground arith)
  | inr (sp, p) ↦ elim (Option-cases sp.provider) [
    | inl q ↦ absurd (ground arith)
    | inr (u, q) ↦ (sp, u, r, ground (arith, ==ℤ_iff u.id reporter))
  ]
]

pub record IsPaid (wo : WorkOrder) (c : Call) (wo' : WorkOrder) (sp : ServiceProposal)
    (report : CompletionReport) (on : Instant) : Type 0 where
  pub asked : c ≡ registers_payment on
  pub identified : pos 1 ≤ℤ wo.id
  pub proposed : wo.service_proposal ≡ some sp
  pub dated : on ≢ zero_time
  pub was_awaiting : wo.state ≡ awaiting_payment_state report
  pub now_paid : wo' ≡ record wo { state = paid_state report on none }

register_approved_balance_payment-IsPaid :
    (wo wo' : WorkOrder) (on : Instant)
    → register_approved_balance_payment wo on ≡ ok wo'
    → (sp : ServiceProposal) × (report : CompletionReport) × IsPaid wo
        (registers_payment on)
        wo'
        sp
        report
        on
unfolding register_approved_balance_payment leb_ℤ State.completion_report
register_approved_balance_payment-IsPaid wo wo' on e = elim (Option-cases wo.service_proposal) [
  | inl p ↦ absurd (ground arith)
  | inr (sp, p) ↦ elim (Option-cases (State.completion_report wo.state)) [
    | inl q ↦ absurd (ground arith)
    | inr (report, q) ↦ (sp, report, ground arith)
  ]
]

-- A review is that of the consumer.
pub record IsReviewed (wo : WorkOrder) (c : Call) (wo' : WorkOrder) (sp : ServiceProposal)
    (consumer : User) (report : CompletionReport) (on : Instant) (added : Review) : Type 0 where
  pub reviewer : User
  pub asked : c ≡ reviews (some reviewer) (some added)
  pub own : reviewer.id ≡ consumer.id
  pub identified : pos 1 ≤ℤ wo.id
  pub proposed : wo.service_proposal ≡ some sp
  pub assigned : sp.consumer ≡ some consumer
  pub known : pos 1 ≤ℤ consumer.id
  pub was_paid : wo.state ≡ paid_state report on none
  pub now_reviewed : wo' ≡ record wo { state = paid_state report on (some added) }

add_review-IsReviewed :
    (wo wo' : WorkOrder) (reviewer : Option User) (added : Option Review)
    → add_review wo reviewer added ≡ ok wo'
    → (sp : ServiceProposal) × (consumer : User) × (report : CompletionReport) × (on : Instant)
      × (r : Review) × IsReviewed wo (reviews reviewer added) wo' sp consumer report on r
unfolding add_review leb_ℤ State.completion_report State.paid_on
add_review-IsReviewed wo wo' none added e = absurd (ground arith)
add_review-IsReviewed wo wo' (some u) none e = absurd (ground arith)
add_review-IsReviewed wo wo' (some u) (some r) e = elim (Option-cases wo.service_proposal) [
  | inl p ↦ absurd (ground arith)
  | inr (sp, p) ↦ elim (Option-cases sp.consumer) [
    | inl q ↦ absurd (ground arith)
    | inr (c, q) ↦ elim (Option-cases (State.completion_report wo.state)) [
      | inl k ↦ absurd (ground arith)
      | inr (report, k) ↦ (
        sp,
        c,
        report,
        State.paid_on wo.state,
        r,
        record {
          reviewer = u;
          asked = refl;
          own = ground (arith, ==ℤ_iff u.id c.id);
          identified = ground arith;
          proposed = p;
          assigned = q;
          known = ground (arith, ==ℤ_iff u.id c.id);
          was_paid = ground arith;
          now_reviewed = ground arith;
        },
      )
    ]
  ]
]

-- The transition relation, labelled with the call that asks for the transition: the assigned provider
-- files a report once the work was due, an approved payment is registered, the consumer reviews a paid
-- order that has no review. A call of anybody else, or at another time, is the label of none.
pub data Transition (wo : WorkOrder) (c : Call) (wo' : WorkOrder) : Type 0 where
  file :
      (sp : ServiceProposal) (provider : User) (report : CompletionReport)
      → IsFiled wo c wo' sp provider report
      → Transition wo c wo'
  pay :
      (sp : ServiceProposal) (report : CompletionReport) (on : Instant)
      → IsPaid wo c wo' sp report on
      → Transition wo c wo'
  review :
      (sp : ServiceProposal) (consumer : User) (report : CompletionReport) (on : Instant)
      (added : Review)
      → IsReviewed wo c wo' sp consumer report on added
      → Transition wo c wo'

-- Each call leaves the order as it was, or makes a transition that the call may ask for: a report is
-- filed for the assigned provider alone, at or after the scheduled time, and a review is added for the
-- consumer of the order alone.
pub step-Transition : (wo : WorkOrder) (c : Call) → (step wo c ≡ wo) ⊎ Transition wo c (step wo c)
unfolding step
step-Transition wo (reports reporter report) =
    elim (Result-cases (report_completion wo reporter report)) [
      | inl (wo', e) ↦
          let (sp, u, r, h) = report_completion-IsFiled wo wo' reporter report e in
          inr (rw e (file sp u r h))
      | inr (_, e) ↦ inl (rw e)
    ]
step-Transition wo (registers_payment on) =
    elim (Result-cases (register_approved_balance_payment wo on)) [
      | inl (wo', e) ↦
          let (sp, r, h) = register_approved_balance_payment-IsPaid wo wo' on e in
          inr (rw e (pay sp r on h))
      | inr (_, e) ↦ inl (rw e)
    ]
step-Transition wo (reviews reviewer added) = elim (Result-cases (add_review wo reviewer added)) [
  | inl (wo', e) ↦
      let (sp, c, r, on, a, h) = add_review-IsReviewed wo wo' reviewer added e in
      inr (rw e (review sp c r on a h))
  | inr (_, e) ↦ inl (rw e)
]

filed-step :
    (wo wo' : WorkOrder) (sp : ServiceProposal) (u : User) (r : CompletionReport)
    → IsFiled wo (reports u.id (some r)) wo' sp u r
    → step wo (reports u.id (some r)) ≡ wo'
unfolding step report_completion leb_ℤ
filed-step wo wo' sp u r h = ground (
  arith,
  ==ℤ_iff u.id u.id,
  h.identified,
  h.proposed,
  h.assigned,
  h.known,
  h.started,
  h.was_scheduled,
  h.now_awaiting,
)

paid-step :
    (wo wo' : WorkOrder) (sp : ServiceProposal) (r : CompletionReport) (on : Instant)
    → IsPaid wo (registers_payment on) wo' sp r on
    → step wo (registers_payment on) ≡ wo'
unfolding step register_approved_balance_payment leb_ℤ
paid-step wo wo' sp r on h =
    ground (arith, h.identified, h.proposed, h.dated, h.was_awaiting, h.now_paid)

reviewed-step :
    (wo wo' : WorkOrder) (sp : ServiceProposal) (c u : User) (r : CompletionReport) (on : Instant)
    (a : Review)
    → u.id ≡ c.id
    → IsReviewed wo (reviews (some u) (some a)) wo' sp c r on a
    → step wo (reviews (some u) (some a)) ≡ wo'
unfolding step add_review leb_ℤ
reviewed-step wo wo' sp c u r on a own h = ground (
  arith,
  ==ℤ_iff u.id c.id,
  own,
  h.identified,
  h.proposed,
  h.assigned,
  h.known,
  h.was_paid,
  h.now_reviewed,
)

-- Each transition of the relation is made by the call that is its label.
pub Transition-step :
    (wo : WorkOrder) (c : Call) (wo' : WorkOrder) → Transition wo c wo' → step wo c ≡ wo'
Transition-step wo c wo' (file sp u r h) =
    subst (λ x. step wo x ≡ wo') (sym h.asked)
      (filed-step wo wo' sp u r (subst (λ x. IsFiled wo x wo' sp u r) h.asked h))
Transition-step wo c wo' (pay sp r on h) =
    subst (λ x. step wo x ≡ wo') (sym h.asked)
      (paid-step wo wo' sp r on (subst (λ x. IsPaid wo x wo' sp r on) h.asked h))
Transition-step wo c wo' (review sp u r on a h) =
    subst (λ x. step wo x ≡ wo') (sym h.asked)
      (reviewed-step wo wo' sp u h.reviewer r on a h.own
        (subst (λ x. IsReviewed wo x wo' sp u r on a) h.asked h))
