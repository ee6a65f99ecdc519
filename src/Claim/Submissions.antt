-- ===== src/Claim/Submissions.antt =====
-- internal/domain/claim/submission.go: what a claimant submits. Text is well-formed.
use Prim.Native.Nat.{Ordering}
use Prim.Native.String
use loresuelvo_api.Common.{
  String, Bool, true, false, not, ◌||◌, ◌=ₛ◌, List, [], ◌∷◌, Option, ok, ◌>>=◌, ◌>>◌, fail_if,
  if◌then◌else◌, ltb, length, trim_space, rune_count, contains_nul,
}
use loresuelvo_api.Errors.{Outcome, ClaimError, claim}
use loresuelvo_api.Claim.References.{Reference, new_reference, normalize_uuid, invalid_submission}

pub data Reason : Type 0 where
  noncompliance improper_charge damage poor_quality : Reason
  other : String → Reason

pub record Submission : Type 0 where
  pub reference : Reference
  pub reason : Reason
  pub description : String
  pub image_file_ids : List String

-- `uuid.Parse`, and SHA-256 of the JSON of a normalised submission.
pub record Platform : Type 0 where
  pub parse_uuid : String → Option String
  pub submission_fingerprint : Submission → String

unfoldable pub valid_reason : Reason → Bool
valid_reason (other s) = false
valid_reason _ = true

unfoldable pub parse_images : Platform → List String → Outcome (List String)
unfolding normalize_uuid
parse_images platform [] = ok []
parse_images platform (id ∷ ids) = do
  parsed ← normalize_uuid platform.parse_uuid invalid_submission id
  rest ← parse_images platform ids
  ok (parsed ∷ rest)

-- `slices.Sort`: the ascending order of bytes.
abbrev pub text_leb : String → String → Bool
text_leb s t = elim (Prim.Native.String.compare s t) [ Ordering.gt ↦ false | _ ↦ true ]

unfoldable pub insert : String → List String → List String
insert s [] = s ∷ []
insert s (t ∷ ts) = let rest = insert s ts in if text_leb s t then s ∷ t ∷ ts else t ∷ rest

unfoldable pub sort : List String → List String
unfolding insert
sort [] = []
sort (s ∷ ss) = insert s (sort ss)

-- `images[i] == images[i-1]` for some i.
unfoldable pub has_repeat : List String → Bool
has_repeat (s ∷ t ∷ ss) = (t =ₛ s) || has_repeat (t ∷ ss)
has_repeat _ = false

unfoldable pub normalize : Platform → Submission → Outcome Submission
unfolding new_reference valid_reason parse_images sort has_repeat
normalize platform s = do
  reference ← new_reference platform.parse_uuid s.reference.kind s.reference.id
  let description = trim_space s.description
  fail_if
      (contains_nul description
        || not (valid_reason s.reason)
        || ltb (rune_count description) 1
        || ltb 5000 (rune_count description)
        || ltb 3 (length s.image_file_ids))
      invalid_submission
  parsed ← parse_images platform s.image_file_ids
  let images = sort parsed
  fail_if (has_repeat images) invalid_submission
  ok (record {
    reference = reference;
    reason = s.reason;
    description = description;
    image_file_ids = images;
  })

unfoldable pub normalize_idempotency_key : Platform → String → Outcome String
unfolding normalize_uuid
normalize_idempotency_key platform key =
    normalize_uuid platform.parse_uuid (claim ClaimError.invalid_idempotency_key) key
