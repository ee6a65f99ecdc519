-- ===== src/Common/Trim.antt =====
-- Trimming twice is trimming once.
use Prim.Native.Char.{Char, code}
use Prim.Native.String.{String}
use mathlib.Core.Path.{◌≡◌, refl}
use mathlib.Core.Logic.{inl, inr}
use mathlib.Core.Bool.{false, ◌&&◌}
use loresuelvo_api.Common.Tests.{Bool-cases}
use loresuelvo_api.Common.Text.{is_space, is_empty, trim_left, trim_right, trim_space, keep}

-- The text is empty or begins with a character that is no space.
abbrev IsSolid : String → Type 0
IsSolid String.[] = Unit {0}
IsSolid (String.◌∷◌ c s) = is_space (code c) ≡ false

trim_left-IsSolid : (s : String) → IsSolid (trim_left s)
unfolding trim_left
trim_left-IsSolid String.[] = tt
trim_left-IsSolid (String.◌∷◌ c s) = elim (Bool-cases (is_space (code c))) [
  | inl e ↦ rw e (trim_left-IsSolid s)
  | inr e ↦ rw e e
]

trim_left_of_IsSolid : (s : String) → IsSolid s → trim_left s ≡ s
unfolding trim_left
trim_left_of_IsSolid String.[] h = refl
trim_left_of_IsSolid (String.◌∷◌ c s) h = rw h

trim_right-IsSolid : (s : String) → IsSolid s → IsSolid (trim_right s)
unfolding trim_right
trim_right-IsSolid String.[] h = tt
trim_right-IsSolid (String.◌∷◌ c s) h = rw h h

trim_right-keep : (c : Char) (s : String) → trim_right s ≡ s → trim_right (keep c s) ≡ keep c s
unfolding trim_right
trim_right-keep c s h = elim (Bool-cases (is_space (code c) && is_empty s)) [
  | inl e ↦ rw e
  | inr e ↦ rw e (rw h (rw e))
]

trim_right_idem : (s : String) → trim_right (trim_right s) ≡ trim_right s
unfolding trim_right
trim_right_idem String.[] = refl
trim_right_idem (String.◌∷◌ c s) = trim_right-keep c (trim_right s) (trim_right_idem s)

pub trim_space_idem : (s : String) → trim_space (trim_space s) ≡ trim_space s
unfolding trim_space
trim_space_idem s =
    rw
      (trim_left_of_IsSolid (trim_right (trim_left s)) (trim_right-IsSolid _ (trim_left-IsSolid s)))
      (trim_right_idem (trim_left s))
