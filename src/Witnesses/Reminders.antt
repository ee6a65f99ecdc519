-- ===== src/Witnesses/Reminders.antt =====
-- The job of the urgent reminders, run on a small database.
use loresuelvo_api.Work.{clock_now, port}
use loresuelvo_api.Common.{
  ◌≡◌, refl, arith, List, ◌*◌, [], ◌∷◌, ◌+◌, none, some, pos, leb_ℤ, ltb_ℤ, sub_int64, add_int64,
  length, ◌==ℤ◌,
}
use loresuelvo_api.Time.{zero_time, hour}
use loresuelvo_api.WorkOrder.State.{Status}
use loresuelvo_api.Payment.World.{Tables, World}
use loresuelvo_api.WorkOrder.Reminders.{urgent_notification}
use loresuelvo_api.WorkOrder.Reminders.Once.{Allowed, Circumstances, run_job, run_job-Allowed}
use loresuelvo_api.Witnesses.{now, proposed}

abbrev tables : Tables
tables = record {
  intents = [];
  sessions = [];
  transactions = [];
  proposals = proposed ∷ [];
  orders =
      record {
        service_proposal_id = pos 5;
        columns = record {
          id = pos 4;
          service_proposal = none;
          status = some Status.scheduled;
          accepted_on = now;
          completion_report = none;
          paid_on = zero_time;
          review = none;
        };
      }
      ∷ [];
  notifications = [];
  users = [];
  accounts = [];
}

abbrev world : World
world = record { tables = tables; sent = []; now = now; ticks = []; ids = []; faults = [] }

-- An hour before, when the second delivery fails, and once more.
abbrev twice : List Circumstances
twice =
    record {
      now = now + 90 * hour;
      ticks = [];
      faults = none ∷ none ∷ none ∷ none ∷ some "down" ∷ [];
    }
    ∷ record { now = now + 91 * hour; ticks = []; faults = [] }
    ∷ []

two_stored : length (run_job twice world).tables.notifications ≡ 2
unfolding run_job urgent_notification ltb_ℤ leb_ℤ sub_int64 add_int64 clock_now port ◌==ℤ◌
two_stored = refl

one_sent : length (run_job twice world).sent ≡ 1
unfolding run_job urgent_notification ltb_ℤ leb_ℤ sub_int64 add_int64 clock_now port ◌==ℤ◌
one_sent = refl

run_job-Allowed_example : Allowed [] (run_job twice world).tables (run_job twice world).sent
run_job-Allowed_example = run_job-Allowed twice world (λ u o. (omega arith, omega arith))
