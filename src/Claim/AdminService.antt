-- ===== src/Claim/AdminService.antt =====
-- internal/domain/claim/admin_service.go: `StartReview` and `Resolve`, which run once for each key.
use loresuelvo_api.Common.{
  String, Bool, true, false, not, ◌||◌, ◌=ₛ◌, List, [], ◌∷◌, Option, none, some, ok, err, fail_if,
  if◌then◌else◌, ℤ, pos, leb_ℤ, ◌==ℤ◌, itoa,
}
use loresuelvo_api.Errors.{Error, Outcome, ClaimError, claim, wrapped}
use loresuelvo_api.Time.{Instant}
use loresuelvo_api.Work.{
  first, ◌>>=◌, ◌>>◌, lift, pure, on_error, clock_now, new_id, unit_of_work_as,
}
use loresuelvo_api.Audit.Event.{
  Action as AuditAction, EventResult, StateChange, EventParams, new_event, new_state_change,
}
use loresuelvo_api.Claim.{Claim, Action, Status, opened, in_review, resolved, dismissed}
use loresuelvo_api.Claim.Submissions.{Platform, normalize_idempotency_key}
use loresuelvo_api.Claim.Administration.{
  ResolutionInput, Acted, start_review, resolve, normalize_resolution,
}
use loresuelvo_api.Claim.Store.{
  AdministrationRecord, Call, find_locked_claim, find_record, save_lifecycle, save_audit_event,
  save_record, find_operator_id_by_auth_id,
}

pub record AdministrationResult : Type 0 where
  pub claim : Claim
  pub action : Action

-- What the operator asks for: `actionType` with its input.
pub data Administration : Type 0 where
  review_started : Administration
  resolved_with : ResolutionInput → Administration

-- Who asks, with which key, and SHA-256 of the JSON of what is asked for.
pub record Request : Type 0 where
  pub operator_id : ℤ
  pub id : ℤ
  pub key : String
  pub fingerprint : String
  pub correlation_id : String

abbrev status_name : Status → String
status_name opened = "open"
status_name in_review = "in_review"
status_name resolved = "resolved"
status_name dismissed = "dismissed"

unfoldable pub act : Claim → ℤ → Administration → Instant → Outcome Acted
act c operator_id review_started now = start_review c operator_id now
act c operator_id (resolved_with input) now = resolve c operator_id input now

-- The action that a record of the key names.
abbrev original : Claim → Option Action → Outcome AdministrationResult
original c none =
    err (wrapped "reading original claim action" (claim ClaimError.persistence_conflict))
original c (some action) = ok (record { claim = c; action = action })

unfoldable pub replayed : Claim → AdministrationRecord → Request → Outcome AdministrationResult
replayed c r request =
    if not (r.claim_id ==ℤ request.id) || not (r.fingerprint =ₛ request.fingerprint)
    then err (claim ClaimError.administration_key_conflict)
    else original c (first (λ a. a.id ==ℤ r.action_id) c.actions)

-- The action is the last one of the claim, with the id that saving gave it.
abbrev pub last_action : Action → List Action → Action
last_action action [] = action
last_action action (a ∷ actions) = last_action a actions

abbrev pub audit_params : Request → Instant → StateChange → String → EventParams
audit_params request at change event_id = record {
  id = event_id;
  operator_id = request.operator_id;
  action = AuditAction.execute;
  resource_type = "claim";
  resource_id = itoa request.id;
  occurred_on = at;
  result = EventResult.succeeded;
  correlation_id = request.correlation_id;
  reason = none;
  state_change = some change;
  conversation_id = none;
}

abbrev pub record_for : Request → Action → AdministrationRecord
record_for request action = record {
  operator_id = request.operator_id;
  key = request.key;
  fingerprint = request.fingerprint;
  claim_id = request.id;
  action_id = action.id;
}

-- The record of the key, and the answer.
unfoldable pub keep_record : Request → Action → Claim → Call AdministrationResult
keep_record request action saved = do
  save_record (record_for request action)
  pure (record { claim = saved; action = action })

abbrev pub status_change : Status → Status → Outcome StateChange
status_change before after = new_state_change "status" (status_name before) (status_name after)

-- What follows the saving of the claim.
unfoldable pub record_action : Request → Status → Action → Claim → Call AdministrationResult
unfolding keep_record
record_action request before acted saved = do
  change ← lift (status_change before saved.status)
  event_id ← new_id
  event ← lift (new_event (audit_params request acted.created_on change event_id))
  save_audit_event event
  keep_record request (last_action acted saved.actions) saved

unfoldable pub administer : Request → Administration → Claim → Call AdministrationResult
unfolding act record_action
administer request what c = do
  now ← clock_now
  acted ← lift (act c request.operator_id what now)
  saved ← save_lifecycle acted.claim
  record_action request c.status acted.action saved

unfoldable pub unless_recorded :
    Request → Administration → Claim → Option AdministrationRecord → Call AdministrationResult
unfolding replayed administer
unless_recorded request what c (some r) = lift (replayed c r request)
unless_recorded request what c none = administer request what c

unfoldable pub on_found : Request → Administration → Option Claim → Call AdministrationResult
unfolding unless_recorded
on_found request what none = lift (err (claim ClaimError.not_found))
on_found request what (some c) =
    find_record request.operator_id request.key >>= unless_recorded request what c

-- The unit of work of `execute`.
unfoldable pub attempt : Request → Administration → Call AdministrationResult
unfolding on_found
attempt request what =
    unit_of_work_as "beginning claim administration" "committing claim administration"
      (find_locked_claim request.id >>= on_found request what)

-- `errors.Is(err, ErrAdministrationRecordConflict)`
abbrev is_conflict : ClaimError → Bool
is_conflict ClaimError.administration_record_conflict = true
is_conflict _ = false

abbrev pub is_record_conflict : Error → Bool
is_record_conflict (claim e) = is_conflict e
is_record_conflict (wrapped s e) = is_record_conflict e
is_record_conflict _ = false

-- A first attempt that met the record of another request is made once more.
unfoldable pub retried :
    Call AdministrationResult → Outcome AdministrationResult → Call AdministrationResult
retried again (ok result) = pure result
retried again (err e) = if is_record_conflict e then again else lift (err e)

unfoldable pub execute_request : Request → Administration → Call AdministrationResult
unfolding attempt retried
execute_request request what =
    on_error (wrapped "saving claim administration")
      (λ w. retried (attempt request what) (attempt request what w).1 (attempt request what w).0)

module _ (platform : Platform) (fingerprint : ℤ → Administration → String) where
  unfoldable pub execute : String → ℤ → String → String → Administration → Call AdministrationResult
  unfolding execute_request
  execute auth id raw_key correlation_id what = do
    key ← lift (normalize_idempotency_key platform raw_key)
    operator_id ← on_error (wrapped "finding claim operator") (find_operator_id_by_auth_id auth)
    lift (fail_if (leb_ℤ operator_id (pos 0)) (claim ClaimError.forbidden))
    execute_request
        (record {
          operator_id = operator_id;
          id = id;
          key = key;
          fingerprint = fingerprint id what;
          correlation_id = correlation_id;
        })
        what

  unfoldable pub start_review_of : String → ℤ → String → String → Call AdministrationResult
  unfolding execute
  start_review_of auth id key correlation_id = execute auth id key correlation_id review_started

  unfoldable pub resolve_of :
      String → ℤ → String → String → ResolutionInput → Call AdministrationResult
  unfolding execute
  resolve_of auth id key correlation_id input = do
    normalized ← lift (normalize_resolution input)
    execute auth id key correlation_id (resolved_with normalized)
