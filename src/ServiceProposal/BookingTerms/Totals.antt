-- ===== src/ServiceProposal/BookingTerms/Totals.antt =====
-- The amounts of `NewBookingTerms` and of `BookingPolicy.Calculate`
-- (internal/domain/service_proposal/booking_terms.go).
use loresuelvo_api.Common.{
  ℕ, ◌+◌, ◌-◌, ◌≤◌, ◌<◌, ◌≡◌, ◌≢◌, subst, refl, arith, ok, ℤ, pos, negsuc, leb_ℤ, ltb_ℤ, ◌+ℤ◌, ◌≤ℤ◌,
  max_int64, IsInt64, sub_int64, String, eq_iff,
}
use loresuelvo_api.Time.{Instant, zero_time}
use loresuelvo_api.ServiceProposal.BookingTerms.Rounding.{add_int64_pos}
use loresuelvo_api.ServiceProposal.BookingTerms.{
  BookingTerms, new_booking_terms, booking_currency_ars,
}

pub sub_int64_pos :
    (a b : ℕ) → b ≤ a → a ≤ 9223372036854775807 → sub_int64 (pos a) (pos b) ≡ pos (a - b)
unfolding sub_int64
sub_int64_pos a b h k = ground arith

-- The terms in unbounded arithmetic.
abbrev pub exact_terms : String → ℕ → ℕ → ℕ → ℕ → Instant → BookingTerms
exact_terms currency service deposit fee fee_now deadline = record {
  currency = currency;
  service_total_cents = pos service;
  deposit_cents = pos deposit;
  remaining_service_balance_cents = pos (service - deposit);
  platform_fee_total_cents = pos fee;
  platform_fee_due_now_cents = pos fee_now;
  remaining_platform_fee_cents = pos (fee - fee_now);
  amount_due_now_cents = pos (deposit + fee_now);
  remaining_amount_due_cents = pos (service + fee - (deposit + fee_now));
  contract_total_cents = pos (service + fee);
  booking_payment_deadline = deadline;
}

-- What the guards let through.
pub record IsPayable (service deposit fee fee_now : ℕ) (deadline : Instant) : Type 0 where
  pub deposit_positive : 0 < deposit
  pub deposit_fits : deposit ≤ service
  pub fee_now_fits : fee_now ≤ fee
  pub total_fits : service + fee ≤ 9223372036854775807
  pub deadline_set : deadline ≢ zero_time

pub new_booking_terms_exact :
    (service deposit fee fee_now : ℕ) (deadline : Instant)
    → IsPayable service deposit fee fee_now deadline
    → new_booking_terms booking_currency_ars
        (pos service)
        (pos deposit)
        (pos fee)
        (pos fee_now)
        deadline
      ≡ ok (exact_terms booking_currency_ars service deposit fee fee_now deadline)
unfolding new_booking_terms leb_ℤ ltb_ℤ
new_booking_terms_exact service deposit fee fee_now deadline h =
    rw
      (
        sub_int64_pos 9223372036854775807 fee (omega arith) (omega arith),
        sub_int64_pos service deposit (omega arith) (omega arith),
        sub_int64_pos fee fee_now (omega arith) (omega arith),
        add_int64_pos deposit fee_now (omega arith),
        add_int64_pos (service - deposit) (fee - fee_now) (omega arith),
        add_int64_pos service fee (omega arith),
      )
      (ground arith)

-- The guards of `NewBookingTerms` on amounts that are not negative.
pub new_booking_terms-IsPayable :
    (currency : String) (service deposit fee fee_now : ℕ) (deadline : Instant)
    {terms : BookingTerms}
    → fee ≤ 9223372036854775807
    → new_booking_terms currency (pos service) (pos deposit) (pos fee) (pos fee_now) deadline
      ≡ ok terms
    → (currency ≡ booking_currency_ars) × IsPayable service deposit fee fee_now deadline
unfolding new_booking_terms leb_ℤ ltb_ℤ
new_booking_terms-IsPayable currency service deposit fee fee_now deadline h e = ground (
  arith,
  eq_iff currency booking_currency_ars,
  sub_int64_pos 9223372036854775807 fee h (omega arith),
)

-- No negative amount passes them.
new_booking_terms-pos :
    (currency : String) (s d f u : ℤ) (deadline : Instant) {terms : BookingTerms}
    → new_booking_terms currency s d f u deadline ≡ ok terms
    → (service deposit fee fee_now : ℕ) × (s ≡ pos service)
      × (d ≡ pos deposit)
      × (f ≡ pos fee)
      × (u ≡ pos fee_now)
unfolding new_booking_terms leb_ℤ ltb_ℤ
new_booking_terms-pos currency (negsuc s) d f u deadline e = ground arith
new_booking_terms-pos currency (pos s) (negsuc d) f u deadline e = ground arith
new_booking_terms-pos currency (pos s) (pos d) (negsuc f) u deadline e = ground arith
new_booking_terms-pos currency (pos s) (pos d) (pos f) (negsuc u) deadline e = ground arith
new_booking_terms-pos currency (pos s) (pos d) (pos f) (pos u) deadline e =
    (s, d, f, u, refl, refl, refl, refl)

-- Terms whose parts add up, in unbounded arithmetic, to totals that an int64 holds.
pub record IsBalanced (terms : BookingTerms) : Type 0 where
  pub service_split :
      terms.deposit_cents +ℤ terms.remaining_service_balance_cents ≡ terms.service_total_cents
  pub fee_split :
      terms.platform_fee_due_now_cents +ℤ terms.remaining_platform_fee_cents
      ≡ terms.platform_fee_total_cents
  pub due_now : terms.deposit_cents +ℤ terms.platform_fee_due_now_cents ≡ terms.amount_due_now_cents
  pub due_later :
      terms.remaining_service_balance_cents +ℤ terms.remaining_platform_fee_cents
      ≡ terms.remaining_amount_due_cents
  pub contract :
      terms.amount_due_now_cents +ℤ terms.remaining_amount_due_cents ≡ terms.contract_total_cents
  pub contract_split :
      terms.service_total_cents +ℤ terms.platform_fee_total_cents ≡ terms.contract_total_cents
  pub deposit_positive : pos 1 ≤ℤ terms.deposit_cents
  pub service_balance_nonneg : pos 0 ≤ℤ terms.remaining_service_balance_cents
  pub fee_now_nonneg : pos 0 ≤ℤ terms.platform_fee_due_now_cents
  pub fee_balance_nonneg : pos 0 ≤ℤ terms.remaining_platform_fee_cents
  pub contract_fits : terms.contract_total_cents ≤ℤ max_int64
  pub currency_ars : terms.currency ≡ booking_currency_ars
  pub deadline_set : terms.booking_payment_deadline ≢ zero_time

pub exact_terms-IsBalanced :
    (service deposit fee fee_now : ℕ) (deadline : Instant)
    → IsPayable service deposit fee fee_now deadline
    → IsBalanced (exact_terms booking_currency_ars service deposit fee fee_now deadline)
unfolding ◌+ℤ◌
exact_terms-IsBalanced service deposit fee fee_now deadline h = ground arith

new_booking_terms-IsBalanced_pos :
    (currency : String) (service deposit fee fee_now : ℕ) (deadline : Instant)
    {terms : BookingTerms}
    → fee ≤ 9223372036854775807
    → new_booking_terms currency (pos service) (pos deposit) (pos fee) (pos fee_now) deadline
      ≡ ok terms
    → IsBalanced terms
new_booking_terms-IsBalanced_pos currency service deposit fee fee_now deadline {terms} h e =
    let (c, p) = new_booking_terms-IsPayable currency service deposit fee fee_now deadline h e in
    subst IsBalanced (cc (new_booking_terms_exact service deposit fee fee_now deadline p))
      (exact_terms-IsBalanced service deposit fee fee_now deadline p)

-- Whatever amounts `NewBookingTerms` is given, the fee total an int64, the terms that it accepts are
-- balanced: no sum or difference overflows, and each total is the sum of its parts.
pub new_booking_terms-IsBalanced :
    (currency : String) (s d f u : ℤ) (deadline : Instant) {terms : BookingTerms}
    → IsInt64 f
    → new_booking_terms currency s d f u deadline ≡ ok terms
    → IsBalanced terms
new_booking_terms-IsBalanced currency s d f u deadline {terms} h e =
    let (service, deposit, fee, fee_now, es, ed, ef, eu) =
      new_booking_terms-pos currency s d f u deadline e in
    new_booking_terms-IsBalanced_pos currency service deposit fee fee_now deadline
      (ground (arith, h.0)) (cc)
