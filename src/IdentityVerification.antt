-- ===== src/IdentityVerification.antt =====
-- internal/domain/identityverification/{status,verification,event,identity_verifier}.go: the hosted
-- sessions in which providers prove their identity. An id is its canonical text.
pub mod RiskCodes
pub mod Store
pub mod Service
pub mod Results
pub mod Order
pub mod Stored
pub mod Redelivery
use loresuelvo_api.Common.{
  String, Bool, true, false, not, ◌||◌, ◌&&◌, ◌=ₛ◌, List, [], ◌∷◌, Option, none, some, ok, ◌>>=◌,
  ◌>>◌, fail_if, if◌then◌else◌, ℤ, pos, leb_ℤ, ltb_ℤ, ◌==ℤ◌, trim_space, is_blank, itoa, nil_uuid,
}
use loresuelvo_api.Errors.{Error, Outcome, IdentityError, identity}
use loresuelvo_api.Time.{Instant, is_zero_time, before}
use loresuelvo_api.IdentityVerification.RiskCodes.{sanitize_risk_codes}

-- The constants of status.go, and any other text.
pub data VerificationStatus : Type 0 where
  unverified not_started in_progress awaiting_user in_review approved : VerificationStatus
  declined resubmitted abandoned expired kyc_expired : VerificationStatus
  other : String → VerificationStatus

unfoldable pub can_apply_result : VerificationStatus → Bool
can_apply_result unverified = false
can_apply_result not_started = false
can_apply_result (other s) = false
can_apply_result _ = true

pub record IdentityVerification : Type 0 where
  pub external_session_id : String
  pub provider_id : ℤ
  pub verifier : String
  pub workflow_id : String
  pub workflow_version : ℤ
  pub status : VerificationStatus
  pub risk_codes : List String
  pub last_result_on : Option Instant
  pub verified_on : Option Instant
  pub created_on : Instant
  pub updated_on : Instant

pub record VerificationResult : Type 0 where
  pub event_id : String
  pub session_id : String
  pub provider_id : ℤ
  pub vendor_data : String
  pub workflow_id : String
  pub workflow_version : ℤ
  pub status : VerificationStatus
  pub risk_codes : List String
  pub occurred_on : Instant

pub record VerificationEvent : Type 0 where
  pub event_id : String
  pub session_id : String
  pub occurred_on : Instant
  pub received_on : Instant

abbrev pub invalid_verification : Error
invalid_verification = identity IdentityError.invalid_verification

unfoldable pub new_verification :
    ℤ → String → String → String → ℤ → Instant → Outcome IdentityVerification
new_verification provider_id session_id workflow_id verifier workflow_version now = do
  fail_if
      (leb_ℤ provider_id (pos 0)
        || (session_id =ₛ nil_uuid)
        || (workflow_id =ₛ nil_uuid)
        || is_blank verifier
        || ltb_ℤ workflow_version (pos 0)
        || is_zero_time now)
      invalid_verification
  ok (record {
    external_session_id = session_id;
    provider_id = provider_id;
    verifier = trim_space verifier;
    workflow_id = workflow_id;
    workflow_version = workflow_version;
    status = not_started;
    risk_codes = [];
    last_result_on = none;
    verified_on = none;
    created_on = now;
    updated_on = now;
  })

-- The statuses that `RehydrateWithMetadata` refuses.
unfoldable pub is_no_session_status : VerificationStatus → Bool
is_no_session_status unverified = true
is_no_session_status (other s) = true
is_no_session_status _ = false

abbrev pub provider_vendor_data : ℤ → String
provider_vendor_data provider_id = itoa provider_id

unfoldable pub new_verification_event : VerificationResult → Instant → Outcome VerificationEvent
new_verification_event result received_on = do
  fail_if
      ((result.event_id =ₛ nil_uuid)
        || (result.session_id =ₛ nil_uuid)
        || is_zero_time result.occurred_on
        || is_zero_time received_on)
      invalid_verification
  ok (record {
    event_id = result.event_id;
    session_id = result.session_id;
    occurred_on = result.occurred_on;
    received_on = received_on;
  })

-- The guard of `ApplyResult`: the result is not one of this session.
unfoldable pub is_foreign : IdentityVerification → VerificationResult → Instant → Bool
unfolding can_apply_result
is_foreign verification result now =
    (result.event_id =ₛ nil_uuid)
    || not (result.session_id =ₛ verification.external_session_id)
    || not (result.provider_id ==ℤ verification.provider_id)
    || not (result.workflow_id =ₛ verification.workflow_id)
    || not (result.workflow_version ==ℤ verification.workflow_version)
    || not (result.vendor_data =ₛ provider_vendor_data verification.provider_id)
    || not (can_apply_result result.status)
    || is_zero_time result.occurred_on
    || is_zero_time now

-- The result is older than the last one that was applied.
abbrev pub is_outdated : Option Instant → Instant → Bool
is_outdated none occurred_on = false
is_outdated (some last) occurred_on = before occurred_on last

abbrev pub verified_at : VerificationStatus → Instant → Option Instant
verified_at approved now = some now
verified_at _ now = none

-- `strings.ToUpper` is the parameter.
module _ (to_upper : String → String) where
  unfoldable pub rehydrate_with_metadata : IdentityVerification → Outcome IdentityVerification
  unfolding is_no_session_status new_verification sanitize_risk_codes
  rehydrate_with_metadata row = do
    fail_if (is_no_session_status row.status || is_zero_time row.updated_on) invalid_verification
    verification ←
        new_verification row.provider_id row.external_session_id row.workflow_id row.verifier
          row.workflow_version row.created_on
    ok (record verification {
      status = row.status;
      risk_codes = sanitize_risk_codes to_upper row.risk_codes;
      last_result_on = row.last_result_on;
      verified_on = row.verified_on;
      updated_on = row.updated_on;
    })

  abbrev pub risk_codes_of : VerificationStatus → List String → List String
  risk_codes_of declined codes = sanitize_risk_codes to_upper codes
  risk_codes_of _ codes = []

  -- What `ApplyResult` leaves; with an error it leaves the verification as it was.
  unfoldable pub apply_result :
      IdentityVerification → VerificationResult → Instant → Outcome IdentityVerification
  unfolding is_foreign sanitize_risk_codes
  apply_result verification result now = do
    fail_if (is_foreign verification result now) invalid_verification
    if is_outdated verification.last_result_on result.occurred_on
        then ok verification
        else ok (record verification {
          status = result.status;
          last_result_on = some result.occurred_on;
          risk_codes = risk_codes_of result.status result.risk_codes;
          verified_on = verified_at result.status now;
          updated_on = now;
        })
