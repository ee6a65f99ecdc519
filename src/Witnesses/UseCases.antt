-- ===== src/Witnesses/UseCases.antt =====
-- Reports and reviews of orders of a small database.
use loresuelvo_api.Common.{
  ◌≡◌, refl, true, List, [], ◌∷◌, ◌+◌, none, some, pos, leb_ℤ, ltb_ℤ, sub_int64, add_int64, String,
  ◌==ℤ◌, is_ok, rune_count, trim_space,
}
use loresuelvo_api.Time.{zero_time}
use loresuelvo_api.WorkOrder.State.{Status}
use loresuelvo_api.Payment.World.{Tables, World, OrderRow}
use loresuelvo_api.Work.{clock_now, port, unit_of_work_as, transactionally}
use loresuelvo_api.Work.Hoare.{Hoare}
use loresuelvo_api.WorkOrder.Service.{Preparation, prepared, create_review, report_completion}
use loresuelvo_api.WorkOrder.Service.Reviewed.{Reviewed, create_review-Reviewed}
use loresuelvo_api.WorkOrder.Service.Reported.{Reported, report_completion-Reported}
use loresuelvo_api.WorkOrder.Restore.{restore}
use loresuelvo_api.Payment.World.Orders.{select_proposal, put_order}
use loresuelvo_api.Witnesses.{now, scheduled, proposed, plumber, client}

abbrev with_order : OrderRow → Tables
with_order row = record {
  intents = [];
  sessions = [];
  transactions = [];
  proposals = proposed ∷ [];
  orders = row ∷ [];
  notifications = [];
  users = plumber ∷ client ∷ [];
  accounts = [];
}

abbrev open_row : OrderRow
open_row = record {
  service_proposal_id = pos 5;
  columns = record {
    id = pos 4;
    service_proposal = none;
    status = some Status.scheduled;
    accepted_on = now;
    completion_report = none;
    paid_on = zero_time;
    review = none;
  };
}

abbrev paid_row : OrderRow
paid_row = record {
  service_proposal_id = pos 5;
  columns = record {
    id = pos 4;
    service_proposal = none;
    status = some Status.paid;
    accepted_on = now;
    completion_report = some (record {
      id = pos 1;
      description = "done";
      image_file_ids = "a" ∷ [];
      reported_on = scheduled;
    });
    paid_on = scheduled;
    review = none;
  };
}

abbrev world_of : Tables → World
world_of t = record {
  tables = t;
  sent = [];
  now = scheduled + 1;
  ticks = [];
  ids = [];
  faults = [];
}

abbrev uploaded : String → List String → Preparation
uploaded auth_id files = prepared files

create_review-Reviewed_example :
    Hoare
      (λ u. u ≡ with_order paid_row)
      (create_review "c" (pos 4) (pos 5) " good ")
      (λ _. Reviewed "c" (pos 4) (pos 5) " good " (with_order paid_row))
      (λ u. u ≡ with_order paid_row)
create_review-Reviewed_example =
    create_review-Reviewed "c" (pos 4) (pos 5) " good " (with_order paid_row)

review_created :
    is_ok (create_review "c" (pos 4) (pos 5) " good " (world_of (with_order paid_row))).1 ≡ true
unfolding create_review unit_of_work_as transactionally ltb_ℤ leb_ℤ sub_int64 add_int64 clock_now
    port ◌==ℤ◌ select_proposal restore trim_space rune_count put_order
review_created = refl

report_completion-Reported_example :
    Hoare
      (λ u. u ≡ with_order open_row)
      (report_completion uploaded "p" (pos 4) "done" ("a" ∷ "b" ∷ []))
      (λ _. Reported "p" (pos 4) "done" (uploaded "p" ("a" ∷ "b" ∷ [])) (with_order open_row))
      (λ u. u ≡ with_order open_row)
report_completion-Reported_example =
    report_completion-Reported uploaded "p" (pos 4) "done" ("a" ∷ "b" ∷ []) (with_order open_row)

completion_reported :
    is_ok
      (report_completion uploaded "p"
        (pos 4)
        "done"
        ("a" ∷ "b" ∷ [])
        (world_of (with_order open_row))).1
    ≡ true
unfolding report_completion unit_of_work_as transactionally ltb_ℤ leb_ℤ sub_int64 add_int64
    clock_now port ◌==ℤ◌ select_proposal restore trim_space
completion_reported = refl
