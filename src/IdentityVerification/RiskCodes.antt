-- ===== src/IdentityVerification/RiskCodes.antt =====
-- internal/domain/identityverification/verification.go: the codes of the risks that a verifier found.
-- The nil slice and the empty one are the empty list.
use Prim.Native.Char.{code}
use loresuelvo_api.Common.{
  ℕ, String, Bool, true, false, not, ◌||◌, ◌&&◌, ◌==◌, ◌=ₛ◌, List, [], ◌∷◌, leb, is_empty,
  trim_space, if◌then◌else◌,
}

unfoldable pub is_risk_code_rune : ℕ → Bool
is_risk_code_rune c =
    (leb b'A' c && leb c b'Z') || (leb b'0' c && leb c b'9') || c == b'_' || c == b'-'

unfoldable pub is_risk_code : String → Bool
unfolding is_risk_code_rune
is_risk_code String.[] = true
is_risk_code (String.◌∷◌ c s) = is_risk_code_rune (code c) && is_risk_code s

unfoldable pub contains : List String → String → Bool
contains [] s = false
contains (t ∷ ts) s = (t =ₛ s) || contains ts s

-- A code that `sanitizeRiskCodes` leaves out.
abbrev pub is_left_out : List String → String → Bool
is_left_out seen normalized =
    is_empty normalized || not (is_risk_code normalized) || contains seen normalized

module _ (to_upper : String → String) where
  -- The loop, with the codes seen before.
  unfoldable pub sanitize : List String → List String → List String
  unfolding is_risk_code contains
  sanitize seen [] = []
  sanitize seen (c ∷ codes) =
      let normalized = to_upper (trim_space c) in
      let left_out = is_left_out seen normalized in
      let rest = sanitize (if left_out then seen else normalized ∷ seen) codes in
      if left_out then rest else normalized ∷ rest

  unfoldable pub sanitize_risk_codes : List String → List String
  unfolding sanitize
  sanitize_risk_codes codes = sanitize [] codes
