-- ===== src/Claim/References.antt =====
-- internal/domain/claim/reference.go: what a claim refers to.
use Prim.Native.Char.{code}
use loresuelvo_api.Common.{
  ℕ, ◌+◌, ◌-◌, ◌*◌, String, Bool, true, not, ◌||◌, ◌&&◌, ◌=ₛ◌, Option, none, some, ok, err, ◌>>◌,
  fail_if, ltb, leb, ◌==◌, is_empty, pos, itoa, nil_uuid,
}
use loresuelvo_api.Audit.{byte_len}
use loresuelvo_api.Errors.{Error, Outcome, ClaimError, claim}

pub data ReferenceKind : Type 0 where
  job_request service_proposal work_order payment_intent : ReferenceKind
  other : String → ReferenceKind

pub record Reference : Type 0 where
  pub kind : ReferenceKind
  pub id : String

unfoldable pub all_digits : String → Bool
all_digits String.[] = true
all_digits (String.◌∷◌ c s) = leb b'0' (code c) && leb (code c) b'9' && all_digits s

-- The number that decimal digits write, after the digits of a number.
unfoldable pub decimal_from : ℕ → String → ℕ
decimal_from n String.[] = n
decimal_from n (String.◌∷◌ c s) = decimal_from (n * 10 + (code c - b'0')) s

abbrev pub invalid_submission : Error
invalid_submission = claim ClaimError.invalid_submission

-- The positive numbers that `strconv.ParseInt(id, 10, 32)` lets through, in canonical form.
unfoldable pub normalize_number : String → Outcome String
unfolding all_digits decimal_from
normalize_number id = do
  fail_if (is_empty id || not (all_digits id)) invalid_submission
  let parsed = decimal_from 0 id
  fail_if (ltb 2147483647 parsed || parsed == 0) invalid_submission
  ok (itoa (pos parsed))

-- `err != nil || parsed == uuid.Nil || len(id) != 36`; an id of another length or form is left out.
abbrev checked_uuid : Error → String → Option String → Outcome String
checked_uuid e id none = err e
checked_uuid e id (some parsed) = do
  fail_if ((parsed =ₛ nil_uuid) || not (byte_len id == 36)) e
  ok parsed

-- `uuid.Parse` is the parameter; it gives the canonical form.
unfoldable pub normalize_uuid : (String → Option String) → Error → String → Outcome String
unfolding byte_len
normalize_uuid parse_uuid e id = checked_uuid e id (parse_uuid id)

abbrev with_kind : ReferenceKind → Outcome String → Outcome Reference
with_kind kind (ok id) = ok (record { kind = kind; id = id })
with_kind kind (err e) = err e

unfoldable pub new_reference : (String → Option String) → ReferenceKind → String → Outcome Reference
unfolding normalize_number normalize_uuid
new_reference parse_uuid payment_intent id =
    with_kind payment_intent (normalize_uuid parse_uuid invalid_submission id)
new_reference parse_uuid (other s) id = err invalid_submission
new_reference parse_uuid kind id = with_kind kind (normalize_number id)
