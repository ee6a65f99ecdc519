-- ===== src/Claim.antt =====
-- internal/domain/claim/claim.go: the claims that the parties of an operation make. The parser of
-- UUIDs and the hashes of claims are parameters.
pub mod References
pub mod Submissions
pub mod Administration
pub mod Lifecycle
pub mod Store
pub mod Service
pub mod AdminService
pub mod Replay
pub mod Resubmission
use loresuelvo_api.Common.{
  String, Bool, true, false, not, ◌||◌, ◌&&◌, List, [], ◌∷◌, Option, none, some, ok, ◌>>=◌, ◌>>◌,
  fail_if, ℤ, pos, leb_ℤ,
}
use loresuelvo_api.Errors.{Error, Outcome, ClaimError, claim}
use loresuelvo_api.Time.{Instant, is_zero_time, truncate_to_microsecond}
use loresuelvo_api.Claim.References.{Reference}
use loresuelvo_api.Claim.Submissions.{
  Reason, Submission, Platform, normalize, normalize_idempotency_key,
}

pub data Party : Type 0 where
  consumer provider operator : Party
  other : String → Party

pub data Status : Type 0 where
  opened in_review resolved dismissed : Status

pub data ResolutionType : Type 0 where
  consumer_favor provider_favor agreement without_merit : ResolutionType
  other : String → ResolutionType

pub record SuggestedCompensation : Type 0 where
  pub amount_minor : ℤ
  pub currency : String
  pub unit : String

pub record Resolution : Type 0 where
  pub type : ResolutionType
  pub reasoning : String
  pub resolved_on : Instant
  pub suggested_compensation : Option SuggestedCompensation

pub record Action : Type 0 where
  pub id : ℤ
  pub type : String
  pub actor_id : ℤ
  pub actor_party : Party
  pub created_on : Instant

pub record Claimant : Type 0 where
  pub id : ℤ
  pub party : Party

-- internal/domain/operation/read_model/operation_summary.go
pub data OperationKind : Type 0 where
  job_request service_proposal : OperationKind
  other : String → OperationKind

pub record OperationId : Type 0 where
  pub kind : OperationKind
  pub resource_id : ℤ

pub record Claim : Type 0 where
  pub id : ℤ
  pub claimant_id : ℤ
  pub claimant_party : Party
  pub operation_id : OperationId
  pub reference : Reference
  pub reason : Reason
  pub description : String
  pub status : Status
  pub image_file_ids : List String
  pub created_on : Instant
  pub review_started_on : Option Instant
  pub closed_on : Option Instant
  pub resolution : Option Resolution
  pub actions : List Action
  pub submission_key : String
  pub submission_fingerprint : String

unfoldable pub is_party_of_claims : Party → Bool
is_party_of_claims consumer = true
is_party_of_claims provider = true
is_party_of_claims _ = false

unfoldable pub is_operation_kind : OperationKind → Bool
is_operation_kind job_request = true
is_operation_kind service_proposal = true
is_operation_kind (other s) = false

unfoldable pub new_claim :
    Platform → Claimant → OperationId → String → Submission → Instant → Outcome Claim
unfolding is_party_of_claims is_operation_kind normalize normalize_idempotency_key
new_claim platform claimant operation_id key input now = do
  fail_if (leb_ℤ claimant.id (pos 0) || not (is_party_of_claims claimant.party))
      (claim ClaimError.forbidden)
  fail_if
      (not (is_operation_kind operation_id.kind)
        || leb_ℤ operation_id.resource_id (pos 0)
        || is_zero_time now)
      (claim ClaimError.invalid_submission)
  let at = truncate_to_microsecond now
  normalized ← normalize platform input
  normal_key ← normalize_idempotency_key platform key
  ok (record {
    id = pos 0;
    claimant_id = claimant.id;
    claimant_party = claimant.party;
    operation_id = operation_id;
    reference = normalized.reference;
    reason = normalized.reason;
    description = normalized.description;
    status = opened;
    image_file_ids = normalized.image_file_ids;
    created_on = at;
    review_started_on = none;
    closed_on = none;
    resolution = none;
    actions =
        record {
          id = pos 0;
          type = "submitted";
          actor_id = claimant.id;
          actor_party = claimant.party;
          created_on = at;
        }
        ∷ [];
    submission_key = normal_key;
    submission_fingerprint = platform.submission_fingerprint normalized;
  })
