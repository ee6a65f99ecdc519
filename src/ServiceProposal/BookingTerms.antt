-- ===== src/ServiceProposal/BookingTerms.antt =====
-- internal/domain/service_proposal/booking_terms.go. Amounts are `int64` cents.
pub mod Rounding
pub mod Totals
pub mod Pricing
use loresuelvo_api.Common.{
  ℕ, zero, suc, ◌+◌, ◌-◌, ◌*◌, ◌/◌, String, Bool, true, not, ◌||◌, ◌=ₛ◌, ok, err, ◌>>=◌, ◌>>◌,
  fail_if, ℤ, pos, ltb_ℤ, leb_ℤ, max_int64, add_int64, sub_int64, mul_int64, quot_int64, rem_int64,
}
use loresuelvo_api.Errors.{Outcome, ProposalError, proposal, message}
use loresuelvo_api.Time.{Instant, hour, is_zero_time}

abbrev pub booking_currency_ars : String
booking_currency_ars = "ARS"

abbrev pub booking_deposit_rate_basis_points : ℤ
booking_deposit_rate_basis_points = pos 2000

abbrev pub booking_platform_fee_total_cents : ℤ
booking_platform_fee_total_cents = pos 500000

abbrev pub percentage_basis_points_denominator : ℕ
percentage_basis_points_denominator = 10000

-- service_proposal.go
abbrev pub minimum_booking_lead_time : ℕ
minimum_booking_lead_time = 24 * hour

pub record BookingPolicy : Type 0 where
  pub configured : Bool

unfoldable pub new_booking_policy : BookingPolicy
new_booking_policy = record { configured = true }

pub record BookingTerms : Type 0 where
  pub currency : String
  pub service_total_cents : ℤ
  pub deposit_cents : ℤ
  pub remaining_service_balance_cents : ℤ
  pub platform_fee_total_cents : ℤ
  pub platform_fee_due_now_cents : ℤ
  pub remaining_platform_fee_cents : ℤ
  pub amount_due_now_cents : ℤ
  pub remaining_amount_due_cents : ℤ
  pub contract_total_cents : ℤ
  pub booking_payment_deadline : Instant

unfoldable pub percentage_of : ℤ → ℤ → ℤ
percentage_of amount_cents rate_basis_points =
    let whole =
      mul_int64 (quot_int64 amount_cents percentage_basis_points_denominator) rate_basis_points in
    let remainder = rem_int64 amount_cents percentage_basis_points_denominator in
    let fraction =
      quot_int64
        (add_int64 (mul_int64 remainder rate_basis_points)
          (pos (percentage_basis_points_denominator / 2)))
        percentage_basis_points_denominator in
    add_int64 whole fraction

unfoldable pub validate : String → ℤ → ℤ → ℤ → ℤ → Instant → Outcome (Unit {0})
validate currency service_total deposit fee_total fee_due_now deadline = do
  fail_if (leb_ℤ service_total (pos 0)) (proposal ProposalError.invalid_amount)
  fail_if (not (currency =ₛ booking_currency_ars))
      (message "creating booking terms: unsupported currency")
  fail_if (leb_ℤ deposit (pos 0) || ltb_ℤ service_total deposit)
      (message "creating booking terms: invalid deposit")
  fail_if (ltb_ℤ fee_total (pos 0)) (message "creating booking terms: invalid platform fee")
  fail_if (ltb_ℤ (sub_int64 max_int64 fee_total) service_total)
      (message "creating booking terms: total amount exceeds supported range")
  fail_if (ltb_ℤ fee_due_now (pos 0) || ltb_ℤ fee_total fee_due_now)
      (message "creating booking terms: invalid platform fee due now")
  fail_if (is_zero_time deadline)
      (message "creating booking terms: booking payment deadline is required")
  ok tt

unfoldable pub new_booking_terms : String → ℤ → ℤ → ℤ → ℤ → Instant → Outcome BookingTerms
unfolding validate
new_booking_terms currency service_total deposit fee_total fee_due_now deadline = do
  validate currency service_total deposit fee_total fee_due_now deadline
  let remaining_service_balance = sub_int64 service_total deposit
  let remaining_platform_fee = sub_int64 fee_total fee_due_now
  ok (record {
    currency = currency;
    service_total_cents = service_total;
    deposit_cents = deposit;
    remaining_service_balance_cents = remaining_service_balance;
    platform_fee_total_cents = fee_total;
    platform_fee_due_now_cents = fee_due_now;
    remaining_platform_fee_cents = remaining_platform_fee;
    amount_due_now_cents = add_int64 deposit fee_due_now;
    remaining_amount_due_cents = add_int64 remaining_service_balance remaining_platform_fee;
    contract_total_cents = add_int64 service_total fee_total;
    booking_payment_deadline = deadline;
  })

-- `scheduledOn.Add(-minimumBookingLeadTime)`: the least instant is far below any that occurs.
unfoldable pub calculate : BookingPolicy → ℤ → Instant → Outcome BookingTerms
calculate policy service_total scheduled_on = do
  fail_if (not policy.configured) (message "calculating booking terms: booking policy is required")
  fail_if (leb_ℤ service_total (pos 0)) (proposal ProposalError.invalid_amount)
  fail_if (ltb_ℤ (sub_int64 max_int64 booking_platform_fee_total_cents) service_total)
      (proposal ProposalError.invalid_amount)
  let deposit = percentage_of service_total booking_deposit_rate_basis_points
  let platform_fee_due_now =
      percentage_of booking_platform_fee_total_cents booking_deposit_rate_basis_points
  new_booking_terms booking_currency_ars service_total deposit booking_platform_fee_total_cents
      platform_fee_due_now (scheduled_on - minimum_booking_lead_time)
