-- ===== src/Provider/Percent.antt =====
-- `percentChange` of internal/domain/provider/activity_service.go, up to the conversion of the
-- quotient to a float64: the hundredths of a per cent, and the sign.
pub mod Rounding
use loresuelvo_api.Common.{
  ℕ, ◌+◌, ◌*◌, ◌/◌, ◌%◌, Bool, Option, none, some, if◌then◌else◌, leb, ℤ, pos, pos_part, neg_part,
  ◌-ℤ◌, ltb_ℤ, ◌==ℤ◌,
}

pub record Percent : Type 0 where
  pub hundredths : ℕ
  pub negative : Bool

-- `Abs` of a big integer.
abbrev pub abs : ℤ → ℕ
abs z = pos_part z + neg_part z

-- `QuoRem`, and one more when twice the remainder reaches the base.
abbrev pub rounded : ℕ → ℕ → ℕ
rounded n base = let q = n / base in if leb base (n % base * 2) then q + 1 else q

unfoldable pub percent_change : ℤ → ℤ → Option Percent
unfolding ◌-ℤ◌ ltb_ℤ ◌==ℤ◌
percent_change current previous =
    let delta = current -ℤ previous in
    if previous ==ℤ pos 0
    then none
    else some (record {
      hundredths = rounded (abs delta * 10000) (abs previous);
      negative = ltb_ℤ delta (pos 0);
    })
