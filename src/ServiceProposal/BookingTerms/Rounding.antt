-- ===== src/ServiceProposal/BookingTerms/Rounding.antt =====
-- The rounding of `percentageOf` (internal/domain/service_proposal/booking_terms.go).
use loresuelvo_api.Common.{
  ℕ, ◌+◌, ◌*◌, ◌/◌, ◌%◌, ◌≤◌, ap, ◌≡◌, arith, pos, add_int64, mul_int64, quot_int64, rem_int64,
}
use loresuelvo_api.ServiceProposal.BookingTerms.{percentage_of, booking_deposit_rate_basis_points}

pub mul_int64_pos :
    (a b : ℕ) → a * b ≤ 9223372036854775807 → mul_int64 (pos a) (pos b) ≡ pos (a * b)
unfolding mul_int64
mul_int64_pos a b h = ground arith

pub add_int64_pos :
    (a b : ℕ) → a + b ≤ 9223372036854775807 → add_int64 (pos a) (pos b) ≡ pos (a + b)
unfolding add_int64
add_int64_pos a b h = ground arith

-- Twenty per cent of an amount that an int64 holds is computed without overflow, and is the exact
-- fifth rounded to the nearest cent, halves upwards.
pub percentage_of-deposit_rate :
    (n : ℕ)
    → n ≤ 9223372036854775807
    → percentage_of (pos n) booking_deposit_rate_basis_points ≡ pos ((n * 2000 + 5000) / 10000)
unfolding percentage_of quot_int64 rem_int64
percentage_of-deposit_rate n h =
    rw
      (
        mul_int64_pos (n / 10000) 2000 (omega arith),
        mul_int64_pos (n % 10000) 2000 (omega arith),
        add_int64_pos (n % 10000 * 2000) 5000 (omega arith),
        add_int64_pos (n / 10000 * 2000) ((n % 10000 * 2000 + 5000) / 10000) (omega arith),
      )
      (ap pos (omega arith))
