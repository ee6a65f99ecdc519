-- ===== src/Payment/Service/Checkout/Retries.antt =====
-- A checkout opened again after the remote service failed (internal/domain/payment/service.go).
use loresuelvo_api.Common.{
  false, ◌≡◌, refl, ◌⊎◌, inl, inr, Option, none, some, ok, err, is_ok, ap, ◌∙◌, arith, ℤ,
}
use loresuelvo_api.Errors.{Error, Outcome, PaymentError, payment, external}
use loresuelvo_api.Time.{Instant}
use loresuelvo_api.User.{User}
use loresuelvo_api.ServiceProposal.Proposal.{ServiceProposal}
use loresuelvo_api.Work.{bind_result, ◌>>=◌}
use loresuelvo_api.Payment.Intent.{Intent, IntentStatus, Purpose}
use loresuelvo_api.Payment.Intent.Lifecycle.{prepare_checkout_no_session}
use loresuelvo_api.Payment.World.{World, M}
use loresuelvo_api.Work.Runs.{clock_now-ok, read-cases}
use loresuelvo_api.Payment.World.Repositories.{
  select_latest_intent, find_latest_by_proposal_id_and_purpose,
}
use loresuelvo_api.Payment.BookingCheckoutPolicy.{authorize}
use loresuelvo_api.Payment.Service.{Gateway, CheckoutResult}
use loresuelvo_api.Payment.Service.Checkout.{
  create_booking_checkout, reuse_or_create, booking_checkout, optional_intent,
}

-- While the latest intent has no session and was neither rejected nor expired, no checkout is opened:
-- the call fails with `ErrInvalidCheckoutSession` and leaves the world as it was.
pub reuse_or_create_stuck :
    (shown : Intent → Intent) (now : Instant) (i : Intent) (create : M Intent) (w : World)
    → i.status ≡ IntentStatus.requires_checkout
    → i.checkout_session ≡ none
    → reuse_or_create shown now (some i) create w
      ≡ (w, err (payment PaymentError.invalid_checkout_session))
unfolding reuse_or_create
reuse_or_create_stuck shown now i create w s h = elim (prepare_checkout_no_session i now h) [
  | inl (q, k) ↦ absurd (ground (arith, s, k))
  | inr q ↦ simp (q)
]

optional_latest_intent :
    (id : ℤ) (purpose : Purpose) (w : World) (i : Intent)
    → select_latest_intent id purpose w.tables ≡ ok i
    → (v : World) × (v.tables ≡ w.tables)
      × ((optional_intent (find_latest_by_proposal_id_and_purpose id purpose) w ≡ (v, ok (some i)))
          ⊎ ((e : Error) × (optional_intent (find_latest_by_proposal_id_and_purpose id purpose) w
                ≡ (v, err e))))
unfolding find_latest_by_proposal_id_and_purpose
optional_latest_intent id purpose w i h =
    let (v, t, _, r) = read-cases (select_latest_intent id purpose) w in
    elim r [ inl q ↦ (v, t, inl (simp (q, h))) | inr (e, q) ↦ (v, t, inr (external e, simp (q))) ]

-- What follows the reading of the clock, on the result of the authorization.
abbrev resumed :
    Gateway
    → User
    → ServiceProposal
    → ℤ
    → Instant
    → World
    → Outcome (Unit {0})
    → World × Outcome CheckoutResult
resumed g user proposal id now w r = bind_result w r (λ _.
    optional_intent (find_latest_by_proposal_id_and_purpose id Purpose.booking_deposit) >>= λ found.
    reuse_or_create (λ i. record i { booking_terms = proposal.booking_terms }) now found
      (create_booking_checkout g user proposal now))

resumed_stuck :
    (g : Gateway) (user : User) (proposal : ServiceProposal) (id : ℤ) (i : Intent) (now : Instant)
    (w : World) (r : Outcome (Unit {0}))
    → select_latest_intent id Purpose.booking_deposit w.tables ≡ ok i
    → i.status ≡ IntentStatus.requires_checkout
    → i.checkout_session ≡ none
    → (u : World) × (e : Error) × (resumed g user proposal id now w r ≡ (u, err e))
      × (u.tables ≡ w.tables)
resumed_stuck g user proposal id i now w (err e) h s n = (w, e, refl, refl)
resumed_stuck g user proposal id i now w (ok _) h s n =
    let shown : Intent → Intent = λ j. record j { booking_terms = proposal.booking_terms } in
    let create = create_booking_checkout g user proposal now in
    let then : World × Outcome (Option Intent) → World × Outcome CheckoutResult =
      λ p. bind_result p.0 p.1 (λ found. reuse_or_create shown now found create) in
    let (u, t, found) = optional_latest_intent id Purpose.booking_deposit w i h in
    elim found [
      | inl q ↦ (u, _, ap then q ∙ reuse_or_create_stuck shown now i create u s n, t)
      | inr (e, q) ↦ (u, e, ap then q, t)
    ]

-- While the latest intent for a proposal's booking waits for a checkout and has no session, the
-- checkout of the booking fails and changes no table.
pub booking_checkout_stuck :
    (g : Gateway) (user : User) (proposal : ServiceProposal) (id : ℤ) (i : Intent) (w : World)
    → select_latest_intent id Purpose.booking_deposit w.tables ≡ ok i
    → i.status ≡ IntentStatus.requires_checkout
    → i.checkout_session ≡ none
    → (is_ok (booking_checkout g user proposal id w).1 ≡ false)
      × ((booking_checkout g user proposal id w).0.tables ≡ w.tables)
unfolding booking_checkout
booking_checkout_stuck g user proposal id i w h s n =
    let (v, now, q, t, _) = clock_now-ok w in
    let (u, e, k, t') =
      resumed_stuck g user proposal id i now v (authorize proposal user.id now)
        (ap (select_latest_intent id Purpose.booking_deposit) t ∙ h) s n in
    let then : World × Outcome Instant → World × Outcome CheckoutResult = λ p.
      bind_result p.0 p.1
        (λ now v. resumed g user proposal id now v (authorize proposal user.id now)) in
    let failed : booking_checkout g user proposal id w ≡ (u, err e) = ap then q ∙ k in
    (ap (λ p. is_ok p.1) failed, ap (λ p. p.0.tables) failed ∙ t' ∙ t)
