-- ===== src/Claim/Service.antt =====
-- internal/domain/claim/service.go: `Submit` and its replay by the key of the submission. The search
-- for an operation and the check of its images belong to other parts, and are parameters.
use loresuelvo_api.Common.{
  suc, String, Bool, true, false, not, ◌||◌, ◌&&◌, ◌=ₛ◌, List, ◌∷◌, Option, none, some, ok, err,
  is_some, if◌then◌else◌, ltb, length, ℤ, pos, leb_ℤ, ◌==ℤ◌,
}
use loresuelvo_api.Errors.{Error, Outcome, ClaimError, claim, wrapped}
use loresuelvo_api.Work.{
  first, ◌>>=◌, ◌>>◌, lift, pure, port, on_error, query, change, clock_now, unit_of_work_as,
}
use loresuelvo_api.Claim.{
  Claim, Claimant, OperationId, OperationKind, is_party_of_claims, Status, opened, in_review,
  new_claim,
}
use loresuelvo_api.Claim.References.{Reference}
use loresuelvo_api.Claim.Submissions.{Submission, Platform, normalize, normalize_idempotency_key}
use loresuelvo_api.Claim.Store.{Account, Tables, Call, number_actions}

-- `operations.ResolveClaimOperationReference` and `images.ValidateClaimEvidenceImages`.
pub record Ports : Type 0 where
  pub resolve_operation : Claimant → Reference → Outcome (Option OperationId)
  pub validate_images : String → List String → Outcome (Unit {0})

pub record SubmissionResult : Type 0 where
  pub claim : Claim
  pub created : Bool

unfoldable pub submitted_row : ℤ → String → Tables → Option Claim
submitted_row claimant_id key t =
    first (λ c. (c.claimant_id ==ℤ claimant_id) && (c.submission_key =ₛ key)) t.claims

abbrev account_of : String → Tables → Option Account
account_of auth_id t = first (λ a. a.auth_id =ₛ auth_id) t.accounts

abbrev enabled_claimant : Option Account → Outcome Claimant
enabled_claimant none = err (claim ClaimError.forbidden)
enabled_claimant (some a) =
    if leb_ℤ a.claimant.id (pos 0) || not (is_party_of_claims a.claimant.party)
    then err (claim ClaimError.forbidden)
    else ok a.claimant

unfoldable pub find_claimant : String → Call Claimant
unfolding is_party_of_claims
find_claimant auth_id = do
  found ← on_error (wrapped "finding claim account") (query (account_of auth_id))
  lift (enabled_claimant found)

-- Unfinished claims of one operation: the index `claims_unfinished_operation_unique`.
abbrev same_kind : OperationKind → OperationKind → Bool
same_kind OperationKind.job_request OperationKind.job_request = true
same_kind OperationKind.service_proposal OperationKind.service_proposal = true
same_kind _ _ = false

abbrev is_unfinished : Status → Bool
is_unfinished opened = true
is_unfinished in_review = true
is_unfinished _ = false

abbrev competes : Claim → Claim → Bool
competes c row =
    (row.claimant_id ==ℤ c.claimant_id)
    && same_kind row.operation_id.kind c.operation_id.kind
    && (row.operation_id.resource_id ==ℤ c.operation_id.resource_id)
    && is_unfinished row.status

-- `INSERT` of a claim with its actions, under the two unique indexes.
unfoldable pub insert_claim : Claim → Tables → Outcome (Tables × Claim)
unfolding submitted_row number_actions
insert_claim c t =
    let numbered = number_actions t.next_action_id c.actions in
    let saved = record c { id = pos t.next_claim_id; actions = numbered.1 } in
    if is_some (submitted_row c.claimant_id c.submission_key t)
    then err (claim ClaimError.persistence_conflict)
    else if is_some (first (competes c) t.claims)
    then err (claim ClaimError.open_claim_conflict)
    else ok (
      record t {
        claims = saved ∷ t.claims;
        next_claim_id = suc t.next_claim_id;
        next_action_id = numbered.0;
      },
      saved,
    )

-- claim_repository.go: `Save` of a new claim, in a transaction of its own.
unfoldable pub save_claim : Claim → Call Claim
unfolding insert_claim
save_claim c =
    unit_of_work_as "beginning claim transaction" "committing claim transaction"
      (change (insert_claim c))

unfoldable pub find_by_submission_key : ℤ → String → Call (Option Claim)
unfolding submitted_row
find_by_submission_key claimant_id key =
    on_error (wrapped "querying owned claim") (query (submitted_row claimant_id key))

abbrev is_replayable : ClaimError → Bool
is_replayable ClaimError.persistence_conflict = true
is_replayable ClaimError.open_claim_conflict = true
is_replayable ClaimError.invalid_evidence = true
is_replayable _ = false

-- The three errors after which `Submit` looks for a submission that came first.
abbrev pub may_be_replay : Error → Bool
may_be_replay (claim e) = is_replayable e
may_be_replay (wrapped s e) = may_be_replay e
may_be_replay _ = false

-- `replay`, of a claim that was found.
abbrev pub matched : String → Option Claim → Outcome (Option SubmissionResult)
matched fingerprint none = ok none
matched fingerprint (some c) =
    if c.submission_fingerprint =ₛ fingerprint
    then ok (some (record { claim = c; created = false }))
    else err (claim ClaimError.submission_key_conflict)

-- A key in its normal form, a normalised submission and its fingerprint.
pub record Prepared : Type 0 where
  pub auth_id : String
  pub claimant : Claimant
  pub key : String
  pub input : Submission
  pub fingerprint : String

unfoldable pub replay : Prepared → Call (Option SubmissionResult)
unfolding find_by_submission_key
replay p = do
  found ←
      on_error (wrapped "finding prior claim submission")
        (find_by_submission_key p.claimant.id p.key)
  lift (matched p.fingerprint found)

abbrev required : Option OperationId → Outcome OperationId
required none = err (claim ClaimError.not_found)
required (some id) = ok id

-- What follows a saving that failed.
unfoldable pub after_conflict : Error → Option SubmissionResult → Call SubmissionResult
after_conflict e none = lift (err (wrapped "saving claim" e))
after_conflict e (some prior) = pure prior

unfoldable pub after_save : Prepared → Outcome Claim → Call SubmissionResult
unfolding replay after_conflict
after_save p (ok saved) = pure (record { claim = saved; created = true })
after_save p (err e) =
    if may_be_replay e then replay p >>= after_conflict e else lift (err (wrapped "saving claim" e))

module _ (platform : Platform) (ports : Ports) where
  -- The images are checked when there are any.
  abbrev pub check_images : Prepared → Call (Unit {0})
  check_images p =
      if ltb 0 (length p.input.image_file_ids)
      then (do port; lift (ports.validate_images p.auth_id p.input.image_file_ids))
      else pure tt

  -- A submission that was not made before.
  unfoldable pub submit_new : Prepared → Call SubmissionResult
  unfolding after_save save_claim new_claim
  submit_new p = do
    operation ←
        on_error (wrapped "resolving claim operation")
          (do port; lift (ports.resolve_operation p.claimant p.input.reference))
    operation_id ← lift (required operation)
    on_error (wrapped "validating claim evidence") (check_images p)
    now ← clock_now
    new ← lift (new_claim platform p.claimant operation_id p.key p.input now)
    λ w. after_save p (save_claim new w).1 (save_claim new w).0

  unfoldable pub unless_replayed : Prepared → Option SubmissionResult → Call SubmissionResult
  unfolding submit_new
  unless_replayed p (some prior) = pure prior
  unless_replayed p none = submit_new p

  unfoldable pub submit_prepared : Prepared → Call SubmissionResult
  unfolding replay unless_replayed
  submit_prepared p = replay p >>= unless_replayed p

  unfoldable pub submit : String → String → Submission → Call SubmissionResult
  unfolding find_claimant submit_prepared normalize normalize_idempotency_key
  submit auth_id raw_key raw = do
    claimant ← find_claimant auth_id
    key ← lift (normalize_idempotency_key platform raw_key)
    input ← lift (normalize platform raw)
    submit_prepared (record {
      auth_id = auth_id;
      claimant = claimant;
      key = key;
      input = input;
      fingerprint = platform.submission_fingerprint input;
    })
