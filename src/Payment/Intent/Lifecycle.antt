-- ===== src/Payment/Intent/Lifecycle.antt =====
-- The life of a payment intent (internal/domain/payment/intent.go).
use loresuelvo_api.Common.{
  ◌<◌, ◌≡◌, ◌⊎◌, inl, inr, refl, ◌∙◌, arith, String, true, false, Option, none, some, List, [], ◌∷◌,
  ok, err, ==ℤ_iff, eq_iff, ◌↔◌, ◌||◌, is_some, sym, Result-cases,
}
use mathlib.Core.List.{Memᴰ}
use loresuelvo_api.Errors.{Outcome, PaymentError, payment}
use loresuelvo_api.Time.{Instant}
use loresuelvo_api.Payment.Intent.{
  Intent, IntentStatus, ExternalPayment, ExternalPaymentStatus, is_requires_checkout,
  CheckoutSession,
}
use loresuelvo_api.Payment.Intent.Marks.{
  Url, mark_checkout_ready, mark_paid, mark_processing, mark_rejected, expire, prepare_session,
  prepare_checkout,
}

-- The calls that change an intent.
pub data Call : Type 0 where
  gets_checkout : String → String → Instant → Instant → Call
  gets_paid gets_processed gets_rejected : ExternalPayment → Instant → Call
  expires : Instant → Call

abbrev pub after : Intent → Outcome Intent → Intent
after i (ok i') = i'
after i (err e) = i

-- What stays the same over the life of an intent.
pub record SameContract (i i' : Intent) : Type 0 where
  pub same_id : i'.id ≡ i.id
  pub same_proposal : i'.service_proposal_id ≡ i.service_proposal_id
  pub same_purpose : i'.purpose ≡ i.purpose
  pub same_currency : i'.currency ≡ i.currency
  pub same_total : i'.total_amount_cents ≡ i.total_amount_cents
  pub same_seller : i'.seller_amount_cents ≡ i.seller_amount_cents
  pub same_fee : i'.platform_fee_cents ≡ i.platform_fee_cents

-- The statuses from which nothing leads on, but that a rejection may be repeated.
abbrev pub IsFinal : IntentStatus → Type 0
IsFinal s = (s ≡ IntentStatus.paid) ⊎ ((s ≡ IntentStatus.rejected) ⊎ (s ≡ IntentStatus.expired))

-- A status past the first one comes with a checkout session.
abbrev pub HasCheckout : Intent → Type 0
HasCheckout i = (is_requires_checkout i.status || is_some i.checkout_session) ≡ true

-- An approved payment of the intent: its reference, its currency and the whole amount.
pub record Pays (i : Intent) (p : ExternalPayment) : Type 0 where
  pub approved : p.status ≡ ExternalPaymentStatus.approved
  pub referenced : p.external_reference ≡ i.id
  pub in_currency : p.currency ≡ i.currency
  pub whole : p.amount_cents ≡ i.total_amount_cents

module _ (parse_request_uri : String → Option Url) where
  unfoldable pub step : Intent → Call → Intent
  step i (gets_checkout external_id url expires_on now) =
      after i (mark_checkout_ready parse_request_uri i external_id url expires_on now)
  step i (gets_paid p now) = after i (mark_paid i p now)
  step i (gets_processed p now) = after i (mark_processing i p now)
  step i (gets_rejected p now) = after i (mark_rejected i p now)
  step i (expires now) = after i (expire i now)

  unfoldable pub run : Intent → List Call → Intent
  unfolding step
  run i [] = i
  run i (c ∷ cs) = run (step i c) cs

  step-SameContract : (i : Intent) (c : Call) → SameContract i (step i c)
  unfolding step mark_checkout_ready mark_paid mark_processing mark_rejected expire
  step-SameContract i (gets_checkout external_id url expires_on now) = ground arith
  step-SameContract i (gets_paid p now) = ground arith
  step-SameContract i (gets_processed p now) = ground arith
  step-SameContract i (gets_rejected p now) = ground arith
  step-SameContract i (expires now) = ground arith

  step-IsFinal : (i : Intent) (c : Call) → IsFinal i.status → (step i c).status ≡ i.status
  unfolding step mark_checkout_ready mark_paid mark_processing mark_rejected expire
  step-IsFinal i (gets_checkout external_id url expires_on now) f = ground arith
  step-IsFinal i (gets_paid p now) f = ground arith
  step-IsFinal i (gets_processed p now) f = ground arith
  step-IsFinal i (gets_rejected p now) f = ground arith
  step-IsFinal i (expires now) f = ground arith

  step-HasCheckout : (i : Intent) (c : Call) → HasCheckout i → HasCheckout (step i c)
  unfolding step mark_checkout_ready mark_paid mark_processing mark_rejected expire
  step-HasCheckout i (gets_checkout external_id url expires_on now) f = ground arith
  step-HasCheckout i (gets_paid p now) f = ground arith
  step-HasCheckout i (gets_processed p now) f = ground arith
  step-HasCheckout i (gets_rejected p now) f = ground arith
  step-HasCheckout i (expires now) f = ground arith

  -- No call changes an intent's amounts or what it is for.
  run-SameContract : (i : Intent) (cs : List Call) → SameContract i (run i cs)
  unfolding run
  run-SameContract i [] = ground arith
  run-SameContract i (c ∷ cs) =
      ground (arith, step-SameContract i c, run-SameContract (step i c) cs)

  -- A paid, rejected or expired intent stays so, whatever is called.
  pub run-IsFinal : (i : Intent) (cs : List Call) → IsFinal i.status → (run i cs).status ≡ i.status
  unfolding run
  run-IsFinal i [] f = refl
  run-IsFinal i (c ∷ cs) f =
      let e = step-IsFinal i c f in run-IsFinal (step i c) cs (ground (arith, f)) ∙ e

  -- An intent that needed a checkout at first has one in every later status.
  run-HasCheckout : (i : Intent) (cs : List Call) → HasCheckout i → HasCheckout (run i cs)
  unfolding run
  run-HasCheckout i [] h = h
  run-HasCheckout i (c ∷ cs) h = run-HasCheckout (step i c) cs (step-HasCheckout i c h)

  mark_paid-Pays :
      (i i' : Intent) (p : ExternalPayment) (now : Instant) → mark_paid i p now ≡ ok i' → Pays i p
  unfolding mark_paid
  mark_paid-Pays i i' p now e = ground (
    arith,
    eq_iff p.external_reference i.id,
    eq_iff p.currency i.currency,
    ==ℤ_iff p.amount_cents i.total_amount_cents,
  )

  step-paid :
      (i : Intent) (c : Call)
      → (step i c).status ≡ IntentStatus.paid
      → (i.status ≡ IntentStatus.paid)
        ⊎ ((p : ExternalPayment) × (now : Instant) × (c ≡ gets_paid p now) × Pays i p)
  unfolding step mark_checkout_ready mark_processing mark_rejected expire
  step-paid i (gets_checkout external_id url expires_on now) e = inl (ground arith)
  step-paid i (gets_paid p now) e = elim (Result-cases (mark_paid i p now)) [
    | inl (i', q) ↦ inr (p, now, refl, mark_paid-Pays i i' p now q)
    | inr (_, q) ↦ inl (ground arith)
  ]
  step-paid i (gets_processed p now) e = inl (ground arith)
  step-paid i (gets_rejected p now) e = inl (ground arith)
  step-paid i (expires now) e = inl (ground arith)

  run-paid_from :
      (i : Intent) (cs : List Call)
      → (run i cs).status ≡ IntentStatus.paid
      → (i.status ≡ IntentStatus.paid)
        ⊎ ((p : ExternalPayment) × (now : Instant) × Memᴰ (gets_paid p now) cs × Pays i p)
  unfolding run
  run-paid_from i [] e = inl e
  run-paid_from i (c ∷ cs) e = elim (run-paid_from (step i c) cs e) [
    | inr (p, now, m, h) ↦ inr (p, now, Memᴰ.tail m, ground (arith, h, step-SameContract i c))
    | inl k ↦ elim (step-paid i c k) [
      | inl z ↦ inl z
      | inr (p, now, q, h) ↦ inr (p, now, Memᴰ.head (sym q), h)
    ]
  ]

  -- An intent is paid only by an approved payment of it, in full and in its currency.
  pub run-paid :
      (i : Intent) (cs : List Call)
      → i.status ≡ IntentStatus.requires_checkout
      → (run i cs).status ≡ IntentStatus.paid
      → (p : ExternalPayment) × (now : Instant) × Memᴰ (gets_paid p now) cs × Pays i p
  run-paid i cs q e = elim (run-paid_from i cs e) [
    | inl k ↦ absurd (ground arith)
    | inr found ↦ found
  ]

-- What `PrepareCheckout` decides.
abbrev pub IsReusable : Intent → CheckoutSession → Instant → Type 0
IsReusable i s now =
    (i.status ≡ IntentStatus.processing)
    ⊎ ((i.status ≡ IntentStatus.checkout_ready) × (now < s.expires_on))

prepare_session-reuse :
    (i i' : Intent) (now : Instant) (s : CheckoutSession)
    → prepare_session i (some s) now ≡ ok (i', true)
    → IsReusable i s now × (i' ≡ i)
unfolding prepare_session
prepare_session-reuse i i' now s q = ground arith

reuse-prepare_session :
    (i : Intent) (now : Instant) (s : CheckoutSession)
    → IsReusable i s now
    → prepare_session i (some s) now ≡ ok (i, true)
unfolding prepare_session
reuse-prepare_session i now s h = ground arith

-- A checkout is used again exactly while it is being processed or is open and has not run out; the
-- intent is then as it was.
pub prepare_checkout-reuse_iff :
    (i i' : Intent) (now : Instant) (s : CheckoutSession)
    → i.checkout_session ≡ some s
    → (prepare_checkout i now ≡ ok (i', true)) ↔ (IsReusable i s now × (i' ≡ i))
unfolding prepare_checkout
prepare_checkout-reuse_iff i i' now s e =
    (λ q. prepare_session-reuse i i' now s (cc), λ h. cc (reuse-prepare_session i now s h.0, h.1))

-- With no session an intent can only be followed by a new one after a rejection or an expiry; in any
-- other status `PrepareCheckout` fails.
pub prepare_checkout_no_session :
    (i : Intent) (now : Instant)
    → i.checkout_session ≡ none
    → ((prepare_checkout i now ≡ ok (i, false))
        × ((i.status ≡ IntentStatus.rejected) ⊎ (i.status ≡ IntentStatus.expired)))
      ⊎ (prepare_checkout i now ≡ err (payment PaymentError.invalid_checkout_session))
unfolding prepare_checkout prepare_session
prepare_checkout_no_session i now e = ground arith
