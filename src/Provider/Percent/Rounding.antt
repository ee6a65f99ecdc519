-- ===== src/Provider/Percent/Rounding.antt =====
-- The rounding of `percentChange` (internal/domain/provider/activity_service.go).
use loresuelvo_api.Common.{
  ℕ, ◌+◌, ◌*◌, ◌/◌, ◌%◌, ◌≤◌, ◌<◌, ◌≡◌, ◌↔◌, sym, ◌∙◌, ==ℤ_iff, arith, Bool, true, false, Option,
  none, some, leb, ℤ, pos, ◌-ℤ◌, ltb_ℤ, ◌==ℤ◌, inl, inr, Bool-cases,
}
use native.Mathlib.Nat.{div-add-mod', mod-lt, add-mul}
use loresuelvo_api.Provider.Percent.{Percent, abs, rounded, percent_change}

-- The nearest multiple, halves upwards.
rounded_bounds :
    (n base : ℕ)
    → 0 < base
    → (2 * (rounded n base * base) ≤ 2 * n + base) × (2 * n < 2 * (rounded n base * base) + base)
rounded_bounds n base h =
    let e = div-add-mod' n base in
    let l = mod-lt n h in
    let more = add-mul (n / base) 1 base in
    elim (Bool-cases (leb base (n % base * 2))) [
      | inl up ↦ rw up (ground (arith, e, l, more))
      | inr down ↦ rw down (ground (arith, e, l))
    ]

sign_iff : {a b : Bool} → a ≡ b → (a ≡ true) ↔ (b ≡ true)
sign_iff e = (λ h. sym e ∙ h, λ h. e ∙ h)

-- The nearest hundredth, halves away from zero, and the sign of the exact change.
abbrev pub IsNearest : ℤ → ℤ → Option Percent → Type 0
IsNearest current previous none = previous ≡ pos 0
IsNearest current previous (some p) =
    let exact = 2 * (abs (current -ℤ previous) * 10000) in
    let written = 2 * (p.hundredths * abs previous) in
    (written ≤ exact + abs previous)
    × (exact < written + abs previous)
    × ((p.negative ≡ true) ↔ (ltb_ℤ current previous ≡ true))

sub-negative : (a b : ℤ) → ltb_ℤ (a -ℤ b) (pos 0) ≡ ltb_ℤ a b
unfolding ltb_ℤ ◌-ℤ◌
sub-negative a b = ground arith

abs_pos : (a : ℤ) → (a ==ℤ pos 0) ≡ false → 0 < abs a
unfolding ◌==ℤ◌
abs_pos a h = ground arith

-- The change that is returned is that of the exact numbers in hundredths of a per cent, to the
-- nearest one and halves away from zero, and it is negative exactly when `current` is less than
-- `previous`; only a previous amount of zero has none.
pub percent_change-IsNearest :
    (current previous : ℤ) → IsNearest current previous (percent_change current previous)
unfolding percent_change
percent_change-IsNearest current previous = elim (Bool-cases (previous ==ℤ pos 0)) [
  | inl z ↦ rw z ((==ℤ_iff previous (pos 0)).0 z)
  | inr z ↦
      let (low, high) =
        rounded_bounds (abs (current -ℤ previous) * 10000) (abs previous) (abs_pos previous z) in
      rw z (low, high, sign_iff (sub-negative current previous))
]
