-- ===== src/Witnesses/Orders.antt =====
-- Work orders.
use mathlib.Core.Bool.{Bool}
use loresuelvo_api.Common.{
  none, ◌≡◌, ◌⊎◌, ◌↔◌, refl, arith, List, [], ◌∷◌, some, ok, pos, trim_space, leb_ℤ, ltb_ℤ, ◌==ℤ◌,
  rune_count, map,
}
use loresuelvo_api.WorkOrder.CompletionReport.{new_completion_report}
use loresuelvo_api.WorkOrder.CompletionReport.Images.{IsReportable, new_completion_report-ok_iff}
use loresuelvo_api.WorkOrder.State.{Status, scheduled_state, awaiting_payment_state, paid_state}
use loresuelvo_api.WorkOrder.Order.{WorkOrder, new_work_order}
use loresuelvo_api.WorkOrder.Order.Methods
use loresuelvo_api.WorkOrder.Order.Lifecycle.{
  Call, reports, registers_payment, step, run, IsTimely, run-IsTimely, Keeps, run-Keeps,
}
use loresuelvo_api.WorkOrder.Order.Transitions.{Transition, file, step-Transition, Transition-step}
use loresuelvo_api.WorkOrder.Restore.{RestoreInput, restore}
use loresuelvo_api.WorkOrder.Restore.Columns.{IsOrderOf}
use loresuelvo_api.WorkOrder.Restore.Restored.{restore-ok_iff}
use loresuelvo_api.Witnesses.{now, scheduled, plumber, proposed, order_in, report}

abbrev life : List Call
life = reports (pos 7) (some report) ∷ registers_payment scheduled ∷ []

step-Transition_example :
    (step (order_in scheduled_state) (reports (pos 7) (some report)) ≡ order_in scheduled_state)
    ⊎ Transition
        (order_in scheduled_state)
        (reports (pos 7) (some report))
        (step (order_in scheduled_state) (reports (pos 7) (some report)))
step-Transition_example = step-Transition (order_in scheduled_state) (reports (pos 7) (some report))

Transition-step_example :
    step (order_in scheduled_state) (reports (pos 7) (some report))
    ≡ order_in (awaiting_payment_state report)
Transition-step_example =
    Transition-step (order_in scheduled_state) (reports (pos 7) (some report))
      (order_in (awaiting_payment_state report))
      (file proposed plumber report (record {
        asked = refl;
        identified = omega arith;
        proposed = refl;
        assigned = refl;
        known = omega arith;
        started = omega arith;
        was_scheduled = refl;
        now_awaiting = refl;
      }))

run-IsTimely_example : IsTimely (run (order_in scheduled_state) life)
unfolding new_work_order
run-IsTimely_example =
    run-IsTimely proposed now (pos 4) life {wo = record (order_in scheduled_state) { id = pos 0 }}
      refl

-- The order of that life is paid.
life_paid : run (order_in scheduled_state) life ≡ order_in (paid_state report scheduled none)
unfolding run step Methods.report_completion Methods.register_approved_balance_payment leb_ℤ ◌==ℤ◌
life_paid = refl

run-Keeps_example : Keeps (order_in scheduled_state) (run (order_in scheduled_state) life)
run-Keeps_example = run-Keeps (order_in scheduled_state) life

abbrev columns : RestoreInput
columns = record {
  id = pos 4;
  service_proposal = some proposed;
  status = some Status.paid;
  accepted_on = now;
  completion_report = some (record {
    id = pos 2;
    description = " done ";
    image_file_ids = "a" ∷ " b" ∷ [];
    reported_on = scheduled;
  });
  paid_on = scheduled;
  review = some (record {
    version = pos 2;
    hiding_decision_id = pos 8;
    visible = some Bool.false;
    rating = pos 5;
    description = " good ";
  });
}

abbrev restored : WorkOrder
restored = order_in (
    paid_state (record report { id = pos 2 }) scheduled
      (some (record {
        work_order_id = pos 4;
        rating = pos 5;
        description = "good";
        visible = Bool.false;
        version = pos 2;
        hiding_decision_id = pos 8;
      })))

restore-ok_iff_example : (restore columns ≡ ok restored) ↔ IsOrderOf columns restored
restore-ok_iff_example = restore-ok_iff columns restored

-- A hidden review comes back hidden.
columns_restored : restore columns ≡ ok restored
unfolding restore leb_ℤ ltb_ℤ trim_space rune_count
columns_restored = refl

new_completion_report-ok_iff_example :
    (new_completion_report " done" ("a" ∷ "b " ∷ []) scheduled ≡ ok report) ↔ (
      IsReportable " done" ("a" ∷ "b " ∷ []) scheduled
      × (report ≡ record {
        id = pos 0;
        description = trim_space " done";
        image_file_ids = map trim_space ("a" ∷ "b " ∷ []);
        reported_on = scheduled;
      }))
new_completion_report-ok_iff_example =
    new_completion_report-ok_iff " done" ("a" ∷ "b " ∷ []) scheduled report
