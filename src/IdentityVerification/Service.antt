-- ===== src/IdentityVerification/Service.antt =====
-- internal/domain/identityverification/service.go over the tables.
use loresuelvo_api.Common.{
  String, Bool, true, false, not, ◌||◌, ◌=ₛ◌, Option, none, some, err, fail_if, if◌then◌else◌, ℤ,
  pos, leb_ℤ, ltb_ℤ, trim_space, nil_uuid,
}
use loresuelvo_api.Errors.{Outcome, IdentityError, identity, wrapped}
use loresuelvo_api.Time.{Instant, is_zero_time}
use loresuelvo_api.Work.{
  first, or_error, read, ◌>>=◌, ◌>>◌, lift, pure, on_error, port, clock_now, unit_of_work_as,
}
use loresuelvo_api.IdentityVerification.{
  VerificationStatus, unverified, approved, in_progress, can_apply_result, IdentityVerification,
  VerificationResult, VerificationEvent, new_verification, new_verification_event,
  provider_vendor_data, invalid_verification, apply_result,
}
use loresuelvo_api.IdentityVerification.Store.{
  ProviderAccount, Tables, Call, save, save_event, find_by_session_id, find_latest_by_provider_id,
}

pub record SessionRequest : Type 0 where
  pub provider_id : ℤ
  pub vendor_data : String
  pub first_name : String
  pub last_name : String
  pub existing_session_id : Option String

pub record SessionCredentials : Type 0 where
  pub session_id : String
  pub session_token : String
  pub verification_url : String
  pub status : VerificationStatus
  pub verifier : String
  pub workflow_id : String
  pub workflow_version : ℤ

pub record StartResult : Type 0 where
  pub verification : IdentityVerification
  pub credentials : SessionCredentials

pub record VerificationStatusDetails : Type 0 where
  pub status : VerificationStatus
  pub verified_on : Option Instant

-- The guard of `ApplyResult`.
unfoldable pub is_invalid_result : VerificationResult → Bool
unfolding can_apply_result
is_invalid_result result =
    (result.event_id =ₛ nil_uuid)
    || (result.session_id =ₛ nil_uuid)
    || leb_ℤ result.provider_id (pos 0)
    || (result.workflow_id =ₛ nil_uuid)
    || ltb_ℤ result.workflow_version (pos 0)
    || not (can_apply_result result.status)
    || is_zero_time result.occurred_on

unfoldable pub details_of : Option IdentityVerification → VerificationStatusDetails
details_of none = record { status = unverified; verified_on = none }
details_of (some v) = record { status = v.status; verified_on = v.verified_on }

-- `latest != nil && latest.Status == StatusApproved`, and the same for a session in progress.
abbrev is_approved : VerificationStatus → Bool
is_approved approved = true
is_approved _ = false

abbrev is_in_progress : VerificationStatus → Bool
is_in_progress in_progress = true
is_in_progress _ = false

abbrev already_approved : Option IdentityVerification → Bool
already_approved none = false
already_approved (some v) = is_approved v.status

abbrev resumed : Option IdentityVerification → Option IdentityVerification
resumed none = none
resumed (some v) = if is_in_progress v.status then some v else none

abbrev session_id_of : Option IdentityVerification → Option String
session_id_of none = none
session_id_of (some v) = some v.external_session_id

unfoldable pub session_request : ProviderAccount → Option IdentityVerification → SessionRequest
session_request provider latest = record {
  provider_id = provider.id;
  vendor_data = provider_vendor_data provider.id;
  first_name = provider.name;
  last_name = provider.surname;
  existing_session_id = session_id_of (resumed latest);
}

abbrev find_provider : String → Tables → Outcome ProviderAccount
find_provider auth_id t =
    or_error (identity IdentityError.provider_required)
      (first (λ p. p.auth_id =ₛ auth_id) t.providers)

-- `strings.ToUpper` is a parameter.
module _ (to_upper : String → String) where
  -- What follows the search for the session.
  unfoldable pub apply_found :
      VerificationResult → Instant → Option IdentityVerification → Call (Unit {0})
  apply_found result now none = lift (err (identity IdentityError.session_not_found))
  apply_found result now (some verification) = do
    applied ← lift (apply_result to_upper verification result now)
    on_error (wrapped "saving identity verification result") (save applied)

  unfoldable pub unless_stored : VerificationResult → Instant → Bool → Call (Unit {0})
  unfolding apply_found
  unless_stored result now false = pure tt
  unless_stored result now true = do
    found ←
        on_error (wrapped "finding identity verification session")
          (find_by_session_id to_upper result.session_id)
    apply_found result now found

  -- The operation of the unit of work.
  unfoldable pub record_result : VerificationResult → VerificationEvent → Instant → Call (Unit {0})
  unfolding unless_stored
  record_result result event now = do
    stored ← on_error (wrapped "saving identity verification event") (save_event event)
    unless_stored result now stored

  unfoldable pub in_unit_of_work :
      VerificationResult → Instant → VerificationEvent → Call (Unit {0})
  unfolding record_result
  in_unit_of_work result now event = on_error (wrapped "applying identity verification result") (
      unit_of_work_as "beginning identity verification unit of work"
        "committing identity verification unit of work" (record_result result event now))

  -- `ApplyResult` behind its guard.
  unfoldable pub apply_valid : VerificationResult → Call (Unit {0})
  unfolding in_unit_of_work
  apply_valid result = do
    now ← clock_now
    event ← lift (new_verification_event result now)
    in_unit_of_work result now event

  unfoldable pub apply_verification_result : VerificationResult → Call (Unit {0})
  unfolding is_invalid_result apply_valid
  apply_verification_result result = do
    lift (fail_if (is_invalid_result result) invalid_verification)
    apply_valid result

  unfoldable pub current_status_details : ℤ → Call VerificationStatusDetails
  current_status_details provider_id = do
    latest ←
        on_error (wrapped "finding current identity verification")
          (find_latest_by_provider_id to_upper provider_id)
    pure (details_of latest)

  unfoldable pub current_status : ℤ → Call VerificationStatus
  unfolding current_status_details
  current_status provider_id = do details ← current_status_details provider_id; pure details.status

  -- The hosted service that makes sessions.
  module _ (create_session : SessionRequest → Outcome SessionCredentials) where
    unfoldable pub save_new : ProviderAccount → SessionCredentials → Call StartResult
    save_new provider credentials = do
      now ← clock_now
      verification ←
          on_error (λ _. identity IdentityError.verifier_misconfigured)
            (lift (
              new_verification provider.id credentials.session_id credentials.workflow_id
                credentials.verifier credentials.workflow_version now))
      on_error (wrapped "saving identity verification") (save verification)
      pure (record { verification = verification; credentials = credentials })

    unfoldable pub answer :
        ProviderAccount → SessionCredentials → Option IdentityVerification → Call StartResult
    unfolding save_new
    answer provider credentials none = save_new provider credentials
    answer provider credentials (some v) =
        pure (record { verification = v; credentials = credentials })

    unfoldable pub start : String → Call StartResult
    unfolding session_request answer
    start auth_id = do
      provider ←
          on_error (λ _. identity IdentityError.provider_required)
            (read (find_provider (trim_space auth_id)))
      latest ←
          on_error (wrapped "finding latest identity verification")
            (find_latest_by_provider_id to_upper provider.id)
      lift
          (fail_if (already_approved latest) (identity IdentityError.verification_already_approved))
      credentials ← (do port; lift (create_session (session_request provider latest)))
      answer provider credentials (resumed latest)
