-- ===== src/WorkOrder/Restore/Restored.antt =====
-- Which columns are restored, and to which order (internal/domain/work_order/restore_factory.go).
use loresuelvo_api.Common.{
  ◌≡◌, ◌≢◌, ◌↔◌, arith, refl, Option, none, some, ok, pos, ◌≤ℤ◌, leb_ℤ, Result-cases, inl, inr,
  Option-cases, ◌∙◌, ap, sym, subst,
}
use loresuelvo_api.Time.{zero_time}
use loresuelvo_api.ServiceProposal.Proposal.{ServiceProposal}
use loresuelvo_api.WorkOrder.CompletionReport.{CompletionReport}
use loresuelvo_api.WorkOrder.Review.{Review}
use loresuelvo_api.WorkOrder.State.{
  State, Status, scheduled_state, awaiting_payment_state, paid_state,
}
use loresuelvo_api.WorkOrder.Order.{WorkOrder}
use loresuelvo_api.WorkOrder.Restore.{
  RestoreInput, restore, restore_review, restore_completion_report, restore_state, with_review_id,
}
use loresuelvo_api.WorkOrder.Restore.Columns.{
  ReviewOf, StateOf, IsOrderOf, restore_review-ReviewOf, restore_completion_report-ReportOf,
  no_report, no_review, report_ok, review_ok,
}

-- The order before its state is restored.
abbrev begun : RestoreInput → ServiceProposal → WorkOrder
begun row sp = record {
  id = row.id;
  service_proposal = some sp;
  accepted_on = row.accepted_on;
  state = scheduled_state;
}

-- Each part of a successful restoration.
restore-parts :
    (row : RestoreInput) (wo : WorkOrder)
    → restore row ≡ ok wo
    → (sp : ServiceProposal) × (report : Option CompletionReport) × (found : Option Review) × (pos 1
        ≤ℤ row.id)
      × (row.service_proposal ≡ some sp)
      × (restore_completion_report row.completion_report ≡ ok report)
      × (restore_review row.review ≡ ok found)
      × (restore_state (begun row sp) row.status report row.paid_on (with_review_id row.id found)
          ≡ ok wo)
unfolding restore leb_ℤ
restore-parts row wo e = elim (Option-cases row.service_proposal) [
  | inl p ↦ absurd (ground arith)
  | inr (sp, p) ↦ elim (Result-cases (restore_completion_report row.completion_report)) [
    | inr (_, q) ↦ absurd (ground arith)
    | inl (report, q) ↦ elim (Result-cases (restore_review row.review)) [
      | inr (_, k) ↦ absurd (ground arith)
      | inl (found, k) ↦ (sp, report, found, ground arith, p, q, k, ground arith)
    ]
  ]
]

-- The state that is restored, and that nothing else of the order changes.
restore_state-StateOf :
    (row : RestoreInput) (order wo : WorkOrder) (status : Option Status)
    (report : Option CompletionReport) (review : Option Review)
    → order.state ≡ scheduled_state
    → restore_completion_report row.completion_report ≡ ok report
    → ReviewOf row.id row.review review
    → restore_state order status report row.paid_on review ≡ ok wo
    → (wo ≡ record order { state = wo.state }) × StateOf status row wo.state
unfolding restore_state
restore_state-StateOf row order wo none report review o e v h = absurd (ground arith)
restore_state-StateOf row order wo (some Status.scheduled) (some r) review o e v h =
    absurd (ground arith)
restore_state-StateOf row order wo (some Status.scheduled) none (some r) o e v h =
    absurd (ground arith)
restore_state-StateOf row order wo (some Status.scheduled) none none o e v h =
    let q : order ≡ wo = ground arith in
    let zero : row.paid_on ≡ zero_time = ground arith in
    subst
      (λ (x : WorkOrder).
        (x ≡ record order { state = x.state }) × StateOf (some Status.scheduled) row x.state)
      q
      (
        refl,
        subst (StateOf (some Status.scheduled) row) (sym o)
            (no_report row.completion_report e, zero, no_review row.id row.review v),
      )
restore_state-StateOf row order wo (some Status.awaiting_payment) none review o e v h =
    absurd (ground arith)
restore_state-StateOf row order wo (some Status.awaiting_payment) (some r) (some _) o e v h =
    absurd (ground arith)
restore_state-StateOf row order wo (some Status.awaiting_payment) (some r) none o e v h =
    let q : record order { state = awaiting_payment_state r } ≡ wo = ground arith in
    subst
      (λ (x : WorkOrder).
        (x ≡ record order { state = x.state }) × StateOf (some Status.awaiting_payment) row x.state)
      q
      (
        refl,
        (
          restore_completion_report-ReportOf row.completion_report r e,
          no_review row.id row.review v,
        ),
      )
restore_state-StateOf row order wo (some Status.paid) none review o e v h = absurd (ground arith)
restore_state-StateOf row order wo (some Status.paid) (some r) review o e v h =
    let q : record order { state = paid_state r row.paid_on review } ≡ wo = ground arith in
    let dated : row.paid_on ≢ zero_time = ground arith in
    subst
      (λ (x : WorkOrder).
        (x ≡ record order { state = x.state }) × StateOf (some Status.paid) row x.state)
      q (refl, (restore_completion_report-ReportOf row.completion_report r e, refl, dated, v))

restore-IsOrderOf : (row : RestoreInput) (wo : WorkOrder) → restore row ≡ ok wo → IsOrderOf row wo
restore-IsOrderOf row wo e =
    let (sp, report, found, k, p, er, ev, es) = restore-parts row wo e in
    let (same, state) =
      restore_state-StateOf row (begun row sp) wo row.status report (with_review_id row.id found)
        refl er (restore_review-ReviewOf row.id row.review found ev) es in
    record {
      identified = k;
      same_id = ap (λ (x : WorkOrder). x.id) same;
      proposed = ground (arith, p);
      same_proposal = ap (λ (x : WorkOrder). x.service_proposal) same ∙ sym p;
      same_acceptance = ap (λ (x : WorkOrder). x.accepted_on) same;
      state = state;
    }

restore-state_ok :
    (row : RestoreInput) (sp : ServiceProposal) (status : Option Status) (s : State)
    → pos 1 ≤ℤ row.id
    → row.service_proposal ≡ some sp
    → row.status ≡ status
    → StateOf status row s
    → restore row ≡ ok (record (begun row sp) { state = s })
unfolding restore restore_state leb_ℤ
restore-state_ok row sp none s k p q h = elim h [ ]
restore-state_ok row sp (some Status.scheduled) scheduled_state k p q (r, on, v) =
    ground (arith, p, q, r, on, v)
restore-state_ok row sp (some Status.scheduled) (awaiting_payment_state r) k p q h = elim h [ ]
restore-state_ok row sp (some Status.scheduled) (paid_state r on v) k p q h = elim h [ ]
restore-state_ok row sp (some Status.awaiting_payment) scheduled_state k p q h = elim h [ ]
restore-state_ok row sp (some Status.awaiting_payment) (awaiting_payment_state r) k p q (er, v) =
    ground (arith, p, q, report_ok row.completion_report r er, v)
restore-state_ok row sp (some Status.awaiting_payment) (paid_state r on v) k p q h = elim h [ ]
restore-state_ok row sp (some Status.paid) scheduled_state k p q h = elim h [ ]
restore-state_ok row sp (some Status.paid) (awaiting_payment_state r) k p q h = elim h [ ]
restore-state_ok row sp (some Status.paid) (paid_state r on v) k p q (er, eo, dated, ev) =
    let (found, f, g) = review_ok row.id row.review v ev in
    ground (arith, p, q, report_ok row.completion_report r er, eo, dated, f, g)

restore-ok : (row : RestoreInput) (wo : WorkOrder) → IsOrderOf row wo → restore row ≡ ok wo
restore-ok row wo h = elim (Option-cases row.service_proposal) [
  | inl p ↦ absurd (h.proposed p)
  | inr (sp, p) ↦
      let same : record (begun row sp) { state = wo.state } ≡ wo =
        ground (arith, h.same_id, h.same_proposal, h.same_acceptance, p) in
      subst (λ (x : WorkOrder). restore row ≡ ok x) same
        (restore-state_ok row sp row.status wo.state h.identified p refl h.state)
]

-- RestoreFactory succeeds exactly when the columns are those of an order, and then the order is what
-- the columns say: identity, proposal and acceptance are theirs, the state is that of the status, a
-- report has the id, the time and the trimmed texts of its row, and a review the rating, the trimmed
-- text, the visibility, the version and the hiding decision of its row. A scheduled order has no
-- report, payment or review, one that awaits payment has a report and no review, and a paid one a
-- report and a time of payment.
pub restore-ok_iff :
    (row : RestoreInput) (wo : WorkOrder) → (restore row ≡ ok wo) ↔ IsOrderOf row wo
restore-ok_iff row wo = (restore-IsOrderOf row wo, restore-ok row wo)
