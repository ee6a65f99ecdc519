-- ===== src/Audit/Event.antt =====
-- internal/domain/audit/event.go: the events of the audit trail. The two patterns are tests on the
-- characters of a text.
use Prim.Native.Char.{code}
use loresuelvo_api.Common.{
  ℕ, String, Bool, true, false, not, ◌||◌, ◌&&◌, ◌==◌, ◌=ₛ◌, Option, none, some, ok, ◌>>=◌, ◌>>◌,
  fail_if, ltb, leb, is_empty, ℤ, pos, leb_ℤ, nil_uuid,
}
use loresuelvo_api.Errors.{Outcome, message}
use loresuelvo_api.Time.{Instant, is_zero_time}
use loresuelvo_api.Audit.{byte_len, new_reason}

pub data Action : Type 0 where
  create access execute : Action
  other : String → Action

pub data EventResult : Type 0 where
  succeeded prepared failed : EventResult
  other : String → EventResult

pub record StateChange : Type 0 where
  pub field : String
  pub from : String
  pub to : String

-- The reason is the text that `NewReason` keeps.
pub record EventParams : Type 0 where
  pub id : String
  pub operator_id : ℤ
  pub action : Action
  pub resource_type : String
  pub resource_id : String
  pub occurred_on : Instant
  pub result : EventResult
  pub correlation_id : String
  pub reason : Option String
  pub state_change : Option StateChange
  pub conversation_id : Option ℤ

abbrev pub Event : Type 0
Event = EventParams

unfoldable pub is_lower : ℕ → Bool
is_lower c = leb b'a' c && leb c b'z'

unfoldable pub is_digit : ℕ → Bool
is_digit c = leb b'0' c && leb c b'9'

unfoldable pub is_alphanumeric : ℕ → Bool
unfolding is_lower is_digit
is_alphanumeric c = is_lower c || is_digit c || (leb b'A' c && leb c b'Z')

-- `[a-z0-9_]*`
unfoldable pub is_snake_rest : String → Bool
unfolding is_lower is_digit
is_snake_rest String.[] = true
is_snake_rest (String.◌∷◌ c s) =
    (is_lower (code c) || is_digit (code c) || code c == b'_') && is_snake_rest s

-- `^[a-z][a-z0-9_]*$`
unfoldable pub is_snake_case : String → Bool
unfolding is_lower is_snake_rest
is_snake_case String.[] = false
is_snake_case (String.◌∷◌ c s) = is_lower (code c) && is_snake_rest s

-- `[A-Za-z0-9._:-]*`
unfoldable pub is_safe_rest : String → Bool
unfolding is_alphanumeric
is_safe_rest String.[] = true
is_safe_rest (String.◌∷◌ c s) =
    (is_alphanumeric (code c)
      || code c == b'.'
      || code c == b'_'
      || code c == b':'
      || code c == b'-')
    && is_safe_rest s

-- `^[A-Za-z0-9][A-Za-z0-9._:-]*$`
unfoldable pub is_safe_identifier : String → Bool
unfolding is_alphanumeric is_safe_rest
is_safe_identifier String.[] = false
is_safe_identifier (String.◌∷◌ c s) = is_alphanumeric (code c) && is_safe_rest s

unfoldable pub valid_snake_case : String → ℕ → Bool
unfolding is_snake_case byte_len
valid_snake_case value max_bytes =
    ltb 0 (byte_len value) && leb (byte_len value) max_bytes && is_snake_case value

unfoldable pub valid_safe_identifier : String → ℕ → Bool
unfolding is_safe_identifier byte_len
valid_safe_identifier value max_bytes =
    ltb 0 (byte_len value) && leb (byte_len value) max_bytes && is_safe_identifier value

unfoldable pub valid_action_result : Action → EventResult → Bool
valid_action_result Action.create EventResult.succeeded = true
valid_action_result Action.create EventResult.failed = true
valid_action_result Action.execute EventResult.succeeded = true
valid_action_result Action.execute EventResult.failed = true
valid_action_result Action.access EventResult.prepared = true
valid_action_result Action.access EventResult.failed = true
valid_action_result _ _ = false

unfoldable pub new_state_change : String → String → String → Outcome StateChange
unfolding valid_snake_case
new_state_change field from to = do
  fail_if
      (not (valid_snake_case field 64)
        || not (valid_snake_case from 64)
        || not (valid_snake_case to 64)
        || (from =ₛ to))
      (message "invalid audit event: state change requires distinct bounded snake_case states")
  ok (record { field = field; from = from; to = to })

abbrev not_positive : Option ℤ → Bool
not_positive none = false
not_positive (some id) = leb_ℤ id (pos 0)

-- The checks of an optional reason and of an optional change of state.
unfoldable pub check_reason : Option String → Outcome (Unit {0})
unfolding new_reason
check_reason none = ok tt
check_reason (some text) = do _ ← new_reason text; ok tt

unfoldable pub check_state_change : Option StateChange → Outcome (Unit {0})
unfolding new_state_change
check_state_change none = ok tt
check_state_change (some change) = do _ ← new_state_change change.field change.from change.to; ok tt

unfoldable pub new_event : EventParams → Outcome Event
unfolding valid_action_result valid_snake_case valid_safe_identifier check_reason check_state_change
new_event params = do
  fail_if (params.id =ₛ nil_uuid) (message "invalid audit event: ID is required")
  fail_if (leb_ℤ params.operator_id (pos 0))
      (message "invalid audit event: operator ID must be positive")
  fail_if (not (valid_action_result params.action params.result))
      (message "invalid audit event: action and result are invalid or incompatible")
  fail_if (not (valid_snake_case params.resource_type 64))
      (message "invalid audit event: resource type must be bounded snake_case")
  fail_if (not (is_empty params.resource_id) && not (valid_safe_identifier params.resource_id 128))
      (message "invalid audit event: resource ID is invalid")
  fail_if (not_positive params.conversation_id)
      (message "invalid audit event: conversation ID must be positive")
  fail_if (is_zero_time params.occurred_on)
      (message "invalid audit event: occurrence time is required")
  fail_if (not (valid_safe_identifier params.correlation_id 128))
      (message "invalid audit event: correlation ID is invalid")
  check_reason params.reason
  check_state_change params.state_change
  ok params
