-- ===== src/Witnesses/Claims.antt =====
-- Claims that are submitted and closed.
use mathlib.Core.Bool.{Bool}
use loresuelvo_api.Common.{
  ◌≡◌, refl, String, List, [], ◌∷◌, none, some, ok, pos, leb_ℤ, ◌==ℤ◌, trim_space, rune_count,
  contains_nul, itoa,
}
use loresuelvo_api.Work.{World, port, clock_now, new_id, unit_of_work_as}
use loresuelvo_api.Work.Hoare.{Hoare}
use loresuelvo_api.Audit.Event.{new_event, new_state_change}
use loresuelvo_api.Claim.{
  Claim, Claimant, OperationId, OperationKind, Party, new_claim, opened, without_merit,
}
use loresuelvo_api.Claim.References.{ReferenceKind}
use loresuelvo_api.Claim.Submissions.{Submission, Platform, Reason}
use loresuelvo_api.Claim.Administration.{ResolutionInput, start_review}
use loresuelvo_api.Claim.Lifecycle.{
  IsCoherent, Call, starts_review, resolves, run, run-new_claim-IsCoherent,
}
use loresuelvo_api.Claim.Store.{
  Tables, find_locked_claim, find_record, save_lifecycle, save_audit_event, save_record,
}
use loresuelvo_api.Claim.AdminService.{Request, review_started, resolved_with, execute_request}
use loresuelvo_api.Claim.Replay.{execute_request_repeated}
use loresuelvo_api.Claim.Service.{Ports, Prepared, submit_prepared, submitted_row}
use loresuelvo_api.Claim.Resubmission.{Untouched, submit_prepared_known}
use loresuelvo_api.Witnesses.{now}

abbrev key : String
key = "55555555-5555-4555-8555-555555555555"

abbrev platform : Platform
platform = record { parse_uuid = λ s. some s; submission_fingerprint = λ s. s.description }

abbrev author : Claimant
author = record { id = pos 9; party = Party.consumer }

abbrev operation : OperationId
operation = record { kind = OperationKind.job_request; resource_id = pos 3 }

abbrev input : Submission
input = record {
  reference = record { kind = ReferenceKind.work_order; id = "04" };
  reason = Reason.damage;
  description = " wet ";
  image_file_ids = [];
}

abbrev submitted : Claim
submitted = record {
  id = pos 0;
  claimant_id = pos 9;
  claimant_party = Party.consumer;
  operation_id = operation;
  reference = record { kind = ReferenceKind.work_order; id = "4" };
  reason = Reason.damage;
  description = "wet";
  status = opened;
  image_file_ids = [];
  created_on = now;
  review_started_on = none;
  closed_on = none;
  resolution = none;
  actions =
      record {
        id = pos 0;
        type = "submitted";
        actor_id = pos 9;
        actor_party = Party.consumer;
        created_on = now;
      }
      ∷ [];
  submission_key = key;
  submission_fingerprint = "wet";
}

abbrev verdict : ResolutionInput
verdict = record { type = without_merit; reasoning = "no"; suggested_amount_minor = none }

abbrev calls : List Call
calls = starts_review (pos 2) now ∷ resolves (pos 2) verdict now ∷ []

run-new_claim-IsCoherent_example : IsCoherent (run submitted calls)
unfolding new_claim leb_ℤ contains_nul trim_space rune_count itoa
run-new_claim-IsCoherent_example =
    run-new_claim-IsCoherent platform author operation key input now calls {c = submitted} refl

abbrev stored : Claim
stored = record submitted { id = pos 6 }

abbrev tables : Tables
tables = record {
  claims = stored ∷ [];
  next_claim_id = 7;
  next_action_id = 2;
  records = [];
  audit_events = [];
  accounts = record { auth_id = "c"; claimant = author } ∷ [];
}

abbrev world : World Tables (Unit {0})
world = record {
  tables = tables;
  sent = tt;
  now = now;
  ticks = [];
  ids = "66666666-6666-4666-8666-666666666666" ∷ [];
  faults = [];
}

abbrev request : Request
request = record {
  operator_id = pos 2;
  id = pos 6;
  key = key;
  fingerprint = "f";
  correlation_id = "req-1";
}

abbrev later : World Tables (Unit {0})
later = record world { tables = (execute_request request review_started world).0.tables }

execute_request_repeated_example :
    (execute_request request (resolved_with verdict) later).0.tables ≡ later.tables
unfolding execute_request unit_of_work_as port find_locked_claim ◌==ℤ◌ find_record clock_now
    start_review leb_ℤ save_lifecycle new_state_change new_id new_event itoa save_audit_event
    save_record
execute_request_repeated_example =
    execute_request_repeated request request review_started (resolved_with verdict) world later refl
      refl refl refl

abbrev ports : Ports
ports = record { resolve_operation = λ _ _. ok (some operation); validate_images = λ _ _. ok tt }

abbrev prepared : Prepared
prepared = record {
  auth_id = "c";
  claimant = author;
  key = key;
  input = input;
  fingerprint = "wet";
}

submit_prepared_known_example :
    Hoare
      (Untouched tables)
      (submit_prepared platform ports prepared)
      (λ result u. Untouched tables u × (result ≡ record { claim = stored; created = Bool.false }))
      (Untouched tables)
unfolding submitted_row ◌==ℤ◌
submit_prepared_known_example = submit_prepared_known platform ports prepared tables stored refl
