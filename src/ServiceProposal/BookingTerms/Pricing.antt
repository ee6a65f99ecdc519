-- ===== src/ServiceProposal/BookingTerms/Pricing.antt =====
-- What `BookingPolicy.Calculate` accepts (internal/domain/service_proposal/booking_terms.go).
use loresuelvo_api.Common.{
  ℕ, ◌+◌, ◌*◌, ◌-◌, ◌/◌, ◌≤◌, ◌≡◌, ◌≢◌, ◌↔◌, subst, sym, refl, arith, ok, ℤ, pos, negsuc, leb_ℤ,
  ltb_ℤ,
}
use loresuelvo_api.Time.{Instant, zero_time}
use loresuelvo_api.ServiceProposal.BookingTerms.Rounding.{percentage_of-deposit_rate}
use loresuelvo_api.ServiceProposal.BookingTerms.{
  BookingTerms, new_booking_terms, calculate, new_booking_policy, booking_currency_ars,
  minimum_booking_lead_time,
}
use loresuelvo_api.ServiceProposal.BookingTerms.Totals.{
  sub_int64_pos, exact_terms, new_booking_terms_exact, new_booking_terms-IsPayable, IsBalanced,
  exact_terms-IsBalanced,
}

-- `Calculate` in unbounded arithmetic: a fifth of the service, to the nearest cent, and a fifth of
-- the platform's 5000.00 are due now.
abbrev pub calculated : ℕ → Instant → BookingTerms
calculated n scheduled_on =
    exact_terms booking_currency_ars n ((n * 2000 + 5000) / 10000) 500000 100000
      (scheduled_on - minimum_booking_lead_time)

calculate_exact :
    (n : ℕ) (scheduled_on : Instant)
    → 3 ≤ n
    → n ≤ 9223372036854275807
    → scheduled_on - minimum_booking_lead_time ≢ zero_time
    → calculate new_booking_policy (pos n) scheduled_on ≡ ok (calculated n scheduled_on)
unfolding calculate new_booking_policy leb_ℤ ltb_ℤ
calculate_exact n scheduled_on h k z =
    rw
      (
        sub_int64_pos 9223372036854775807 500000 (omega arith) (omega arith),
        percentage_of-deposit_rate n (omega arith),
        percentage_of-deposit_rate 500000 (omega arith),
      )
      (ground (
        arith,
        new_booking_terms_exact n ((n * 2000 + 5000) / 10000) 500000 100000
            (scheduled_on - minimum_booking_lead_time)
            (record {
              deposit_positive = omega arith;
              deposit_fits = omega arith;
              fee_now_fits = omega arith;
              total_fits = omega arith;
              deadline_set = z;
            }),
      ))

-- An amount that is not refused at once is priced by `NewBookingTerms`.
calculate-new_booking_terms :
    (n : ℕ) (scheduled_on : Instant) {terms : BookingTerms}
    → calculate new_booking_policy (pos n) scheduled_on ≡ ok terms
    → (n ≤ 9223372036854275807)
      × (new_booking_terms booking_currency_ars
            (pos n)
            (pos ((n * 2000 + 5000) / 10000))
            (pos 500000)
            (pos 100000)
            (scheduled_on - minimum_booking_lead_time)
          ≡ ok terms)
unfolding calculate new_booking_policy leb_ℤ ltb_ℤ
calculate-new_booking_terms n scheduled_on e = ground (
  arith,
  sub_int64_pos 9223372036854775807 500000 (omega arith) (omega arith),
  percentage_of-deposit_rate n,
  percentage_of-deposit_rate 500000 (omega arith),
)

calculate-pos :
    (service : ℤ) (scheduled_on : Instant) {terms : BookingTerms}
    → calculate new_booking_policy service scheduled_on ≡ ok terms
    → (n : ℕ) × (service ≡ pos n)
unfolding calculate new_booking_policy leb_ℤ
calculate-pos (negsuc n) scheduled_on e = ground arith
calculate-pos (pos n) scheduled_on e = (n, refl)

-- What `Calculate` accepts, and the terms that it answers with.
abbrev pub IsPriced : ℤ → Instant → BookingTerms → Type 0
IsPriced service scheduled_on terms =
    (n : ℕ) × (service ≡ pos n)
    × (3 ≤ n)
    × (n ≤ 9223372036854275807)
    × (scheduled_on - minimum_booking_lead_time ≢ zero_time)
    × (terms ≡ calculated n scheduled_on)

-- `Calculate` accepts exactly the amounts from three cents, below which a fifth rounds to nothing,
-- up to the largest whose total an int64 holds, with a deadline that is not the zero time; and its
-- terms are then the exact ones.
pub calculate-ok_iff :
    (service : ℤ) (scheduled_on : Instant) (terms : BookingTerms)
    → (calculate new_booking_policy service scheduled_on ≡ ok terms)
      ↔ IsPriced service scheduled_on terms
calculate-ok_iff service scheduled_on terms = (accepted, priced)
  where
    accepted :
        calculate new_booking_policy service scheduled_on ≡ ok terms
        → IsPriced service scheduled_on terms
    accepted e =
        let (n, es) = calculate-pos service scheduled_on e in
        let e' : calculate new_booking_policy (pos n) scheduled_on ≡ ok terms = cc in
        let (fits, en) = calculate-new_booking_terms n scheduled_on e' in
        let (_, p) =
          new_booking_terms-IsPayable booking_currency_ars n ((n * 2000 + 5000) / 10000) 500000
            100000 (scheduled_on - minimum_booking_lead_time) (omega arith) en in
        (
          n,
          es,
          omega (arith, p.deposit_positive),
          fits,
          p.deadline_set,
          cc (
              calculate_exact n scheduled_on (omega (arith, p.deposit_positive)) fits
                p.deadline_set),
        )

    priced :
        IsPriced service scheduled_on terms
        → calculate new_booking_policy service scheduled_on ≡ ok terms
    priced (n, es, low, high, z, et) = cc (calculate_exact n scheduled_on low high z)

pub calculate-IsBalanced :
    (service : ℤ) (scheduled_on : Instant) {terms : BookingTerms}
    → calculate new_booking_policy service scheduled_on ≡ ok terms
    → IsBalanced terms
calculate-IsBalanced service scheduled_on {terms} e =
    let (n, _, low, high, z, et) = (calculate-ok_iff service scheduled_on terms).0 e in
    subst IsBalanced (sym et) (
      exact_terms-IsBalanced n ((n * 2000 + 5000) / 10000) 500000 100000
        (scheduled_on - minimum_booking_lead_time)
        (record {
          deposit_positive = omega arith;
          deposit_fits = omega arith;
          fee_now_fits = omega arith;
          total_fits = omega arith;
          deadline_set = z;
        }))
