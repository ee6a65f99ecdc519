-- ===== src/Claim/Administration.antt =====
-- internal/domain/claim/administration.go: what operators do to a claim. With an error the claim stays
-- as it was.
use loresuelvo_api.Common.{
  String, Bool, true, false, not, ◌||◌, [], ◌∷◌, ◌++◌, Option, none, some, ok, ◌>>=◌, ◌>>◌, fail_if,
  ltb, ℤ, pos, leb_ℤ, trim_space, rune_count, contains_nul,
}
use loresuelvo_api.Errors.{Outcome, ClaimError, claim}
use loresuelvo_api.Time.{Instant, truncate_to_microsecond, before}
use loresuelvo_api.Claim.{
  Claim, Status, opened, in_review, resolved, dismissed, ResolutionType, without_merit, Resolution,
  SuggestedCompensation, Action, Party,
}

pub record ResolutionInput : Type 0 where
  pub type : ResolutionType
  pub reasoning : String
  pub suggested_amount_minor : Option ℤ

-- The claim after an action, and the action.
pub record Acted : Type 0 where
  pub claim : Claim
  pub action : Action

unfoldable pub is_known_type : ResolutionType → Bool
is_known_type (ResolutionType.other s) = false
is_known_type _ = true

abbrev not_positive : Option ℤ → Bool
not_positive none = false
not_positive (some amount) = leb_ℤ amount (pos 0)

unfoldable pub normalize_resolution : ResolutionInput → Outcome ResolutionInput
unfolding is_known_type
normalize_resolution input = do
  fail_if (contains_nul input.reasoning) (claim ClaimError.invalid_resolution)
  let reasoning = trim_space input.reasoning
  fail_if (ltb (rune_count reasoning) 1 || ltb 5000 (rune_count reasoning))
      (claim ClaimError.invalid_resolution)
  fail_if (not (is_known_type input.type)) (claim ClaimError.invalid_resolution)
  fail_if (not_positive input.suggested_amount_minor) (claim ClaimError.invalid_resolution)
  ok (record input { reasoning = reasoning })

abbrev pub is_open : Status → Bool
is_open opened = true
is_open _ = false

abbrev pub is_in_review : Status → Bool
is_in_review in_review = true
is_in_review _ = false

abbrev pub operator_action : String → ℤ → Instant → Action
operator_action type operator_id at = record {
  id = pos 0;
  type = type;
  actor_id = operator_id;
  actor_party = Party.operator;
  created_on = at;
}

unfoldable pub start_review : Claim → ℤ → Instant → Outcome Acted
start_review c operator_id now = do
  fail_if (leb_ℤ operator_id (pos 0)) (claim ClaimError.forbidden)
  let at = truncate_to_microsecond now
  fail_if (not (is_open c.status) || before at c.created_on) (claim ClaimError.invalid_transition)
  let action = operator_action "review_started" operator_id at
  ok (record {
    claim = record c {
      status = in_review;
      review_started_on = some at;
      actions = c.actions ++ (action ∷ []);
    };
    action = action;
  })

-- `c.ReviewStartedOn == nil || now.Before(*c.ReviewStartedOn)`
abbrev pub precedes_review : Instant → Option Instant → Bool
precedes_review at none = true
precedes_review at (some started_on) = before at started_on

unfoldable pub closing_status : ResolutionType → Status
closing_status without_merit = dismissed
closing_status _ = resolved

abbrev compensation_of : Option ℤ → Option SuggestedCompensation
compensation_of none = none
compensation_of (some amount) =
    some (record { amount_minor = amount; currency = "ARS"; unit = "minor" })

abbrev pub resolution_of : ResolutionInput → Instant → Resolution
resolution_of input at = record {
  type = input.type;
  reasoning = input.reasoning;
  resolved_on = at;
  suggested_compensation = compensation_of input.suggested_amount_minor;
}

unfoldable pub resolve : Claim → ℤ → ResolutionInput → Instant → Outcome Acted
unfolding normalize_resolution closing_status
resolve c operator_id raw now = do
  input ← normalize_resolution raw
  fail_if (leb_ℤ operator_id (pos 0)) (claim ClaimError.forbidden)
  let at = truncate_to_microsecond now
  fail_if (not (is_in_review c.status) || precedes_review at c.review_started_on)
      (claim ClaimError.invalid_transition)
  let action = operator_action "resolved" operator_id at
  ok (record {
    claim = record c {
      status = closing_status input.type;
      closed_on = some at;
      resolution = some (resolution_of input at);
      actions = c.actions ++ (action ∷ []);
    };
    action = action;
  })
