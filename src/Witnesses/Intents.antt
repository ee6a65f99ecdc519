-- ===== src/Witnesses/Intents.antt =====
-- Payment intents.
use loresuelvo_api.Common.{
  ◌≡◌, ◌↔◌, ◌+◌, ◌*◌, inl, refl, String, List, [], ◌∷◌, Option, none, some, ok, pos, ◌==ℤ◌,
  is_blank,
}
use mathlib.Core.Bool.{Bool}
use mathlib.Core.List.{Memᴰ}
use loresuelvo_api.Time.{Instant, minute, hour}
use loresuelvo_api.Payment.Intent.{
  Intent, Purpose, IntentStatus, CheckoutSession, ExternalPayment, ExternalPaymentStatus,
}
use loresuelvo_api.Payment.Intent.Marks.{
  Url, prepare_checkout, mark_checkout_ready, mark_paid, expire,
}
use loresuelvo_api.Payment.Intent.Lifecycle.{
  Call, gets_checkout, gets_paid, expires, run, Pays, IsReusable, run-IsFinal, run-paid,
  prepare_checkout-reuse_iff,
}
use loresuelvo_api.Witnesses.{now, terms}

abbrev pub parsed : String → Option Url
parsed s = some (record { scheme = "https"; host = "pay" })

abbrev pub intent : Intent
intent = record {
  id = "i";
  service_proposal_id = pos 5;
  purpose = Purpose.booking_deposit;
  currency = "ARS";
  seller_amount_cents = pos 200000;
  platform_fee_cents = pos 100000;
  total_amount_cents = pos 300000;
  status = IntentStatus.requires_checkout;
  checkout_session = none;
  booking_terms = terms;
  created_on = now;
  updated_on = now;
}

abbrev pub approved : ExternalPayment
approved = record {
  id = "e";
  seller_account_id = "s";
  external_reference = "i";
  status = ExternalPaymentStatus.approved;
  currency = "ARS";
  amount_cents = pos 300000;
}

abbrev calls : List Call
calls =
    gets_checkout "x" "https://pay/x" (now + hour) now
    ∷ gets_paid approved (now + minute)
    ∷ expires (now + 2 * hour)
    ∷ []

abbrev session : CheckoutSession
session = record {
  external_id = "x";
  url = "https://pay/x";
  expires_on = now + hour;
  created_on = now;
}

abbrev ready : Intent
ready = record intent { status = IntentStatus.checkout_ready; checkout_session = some session }

abbrev pub paid : Intent
paid = record ready { status = IntentStatus.paid }

run-IsFinal_example : (run parsed paid calls).status ≡ IntentStatus.paid
run-IsFinal_example = run-IsFinal parsed paid calls (inl refl)

run-paid_example :
    (p : ExternalPayment) × (t : Instant) × Memᴰ (gets_paid p t) calls × Pays intent p
unfolding run mark_checkout_ready mark_paid expire is_blank ◌==ℤ◌
run-paid_example = run-paid parsed intent calls refl refl

prepare_checkout-reuse_iff_example :
    (prepare_checkout ready (now + minute) ≡ ok (ready, Bool.true))
    ↔ (IsReusable ready session (now + minute) × (ready ≡ ready))
prepare_checkout-reuse_iff_example =
    prepare_checkout-reuse_iff ready ready (now + minute) session refl
