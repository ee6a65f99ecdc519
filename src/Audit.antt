-- ===== src/Audit.antt =====
-- internal/domain/audit/event.go: the reasons that operators give. Text is well-formed, so
-- `utf8.ValidString` holds.
pub mod Event
use Prim.Native.Char.{code}
use loresuelvo_api.Common.{
  ℕ, ◌+◌, String, Bool, false, ◌||◌, ◌&&◌, ok, ◌>>◌, fail_if, ltb, leb, trim_space, is_empty,
  if◌then◌else◌,
}
use loresuelvo_api.Errors.{Outcome, message}

-- The bytes of a character in UTF-8.
unfoldable pub rune_len : ℕ → ℕ
rune_len c = if ltb c 0x80 then 1 else if ltb c 0x800 then 2 else if ltb c 0x10000 then 3 else 4

-- `len(s)`
unfoldable pub byte_len : String → ℕ
unfolding rune_len
byte_len String.[] = 0
byte_len (String.◌∷◌ c s) = rune_len (code c) + byte_len s

-- `unicode.IsControl`
unfoldable pub is_control : ℕ → Bool
is_control c = ltb c 0x20 || (leb 0x7F c && ltb c 0xA0)

unfoldable pub has_control : String → Bool
unfolding is_control
has_control String.[] = false
has_control (String.◌∷◌ c s) = is_control (code c) || has_control s

-- `NewReason`, and the text of the reason.
unfoldable pub new_reason : String → Outcome String
unfolding byte_len has_control
new_reason raw = do
  let text = trim_space raw
  fail_if (is_empty text || ltb 500 (byte_len text) || has_control text)
      (message "invalid audit event: reason must be 1-500 bytes of printable UTF-8")
  ok text
