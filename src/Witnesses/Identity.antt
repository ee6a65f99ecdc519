-- ===== src/Witnesses/Identity.antt =====
-- Sessions in which providers prove their identity.
use mathlib.Core.List.{Permᴰ}
use loresuelvo_api.Common.{
  ◌≡◌, ◌≢◌, refl, arith, [], ◌∷◌, none, pos, ltb_ℤ, leb_ℤ, ◌==ℤ◌, itoa, trim_space, is_blank,
}
use loresuelvo_api.Work.{World, port, clock_now, unit_of_work_as}
use loresuelvo_api.IdentityVerification.{
  not_started, approved, declined, IdentityVerification, VerificationResult, new_verification,
  apply_result, new_verification_event, rehydrate_with_metadata,
}
use loresuelvo_api.IdentityVerification.Results.{Delivery, IsCoherent, run, run-IsCoherent}
use loresuelvo_api.IdentityVerification.Order.{verdict, verdict-run-Perm}
use loresuelvo_api.IdentityVerification.Store.{Tables, save_event, save, find_by_session_id}
use loresuelvo_api.IdentityVerification.Service.{apply_verification_result}
use loresuelvo_api.IdentityVerification.Redelivery.{apply_verification_result_redelivered}
use loresuelvo_api.Time.{zero_time}
use loresuelvo_api.Witnesses.{now}

abbrev session : IdentityVerification
session = record {
  external_session_id = "11111111-1111-4111-8111-111111111111";
  provider_id = pos 5;
  verifier = "didit";
  workflow_id = "22222222-2222-4222-8222-222222222222";
  workflow_version = pos 1;
  status = not_started;
  risk_codes = [];
  last_result_on = none;
  verified_on = none;
  created_on = now;
  updated_on = now;
}

abbrev approval : VerificationResult
approval = record {
  event_id = "33333333-3333-4333-8333-333333333333";
  session_id = session.external_session_id;
  provider_id = pos 5;
  vendor_data = "5";
  workflow_id = session.workflow_id;
  workflow_version = pos 1;
  status = approved;
  risk_codes = [];
  occurred_on = now;
}

abbrev refusal : VerificationResult
refusal = record approval {
  event_id = "44444444-4444-4444-8444-444444444444";
  status = declined;
  risk_codes = "DUPLICATE" ∷ [];
  occurred_on = 7;
}

abbrev early : Delivery
early = record { result = refusal; now = now }

abbrev late : Delivery
late = record { result = approval; now = now }

run-IsCoherent_example : IsCoherent (run (λ s. s) session (early ∷ late ∷ []))
unfolding new_verification leb_ℤ ltb_ℤ trim_space is_blank
run-IsCoherent_example =
    run-IsCoherent (λ s. s) (pos 5) session.external_session_id session.workflow_id "didit" (pos 1)
      now (early ∷ late ∷ []) {v = session} refl

now-live : now ≢ zero_time
now-live e = ground arith

verdict-run-Perm_example :
    verdict (run (λ s. s) session (early ∷ late ∷ []))
    ≡ verdict (run (λ s. s) session (late ∷ early ∷ []))
verdict-run-Perm_example =
    verdict-run-Perm (λ s. s) session (early ∷ late ∷ []) (late ∷ early ∷ [])
      (now-live, (now-live, tt)) (now-live, (now-live, tt)) (((λ e. ground arith), tt), (tt, tt))
      (Permᴰ.swap refl refl)

abbrev tables : Tables
tables = record { sessions = session ∷ []; events = []; providers = [] }

abbrev world : World Tables (Unit {0})
world = record { tables = tables; sent = tt; now = now; ticks = []; ids = []; faults = [] }

abbrev later : World Tables (Unit {0})
later = record world { tables = (apply_verification_result (λ s. s) approval world).0.tables }

-- Another verdict under the id of the event that was applied.
abbrev forged : VerificationResult
forged = record refusal { event_id = approval.event_id }

apply_verification_result_redelivered_example :
    (apply_verification_result (λ s. s) forged later).0.tables ≡ later.tables
unfolding apply_verification_result leb_ℤ ltb_ℤ clock_now new_verification_event unit_of_work_as
    port save_event find_by_session_id rehydrate_with_metadata is_blank apply_result ◌==ℤ◌ itoa save
apply_verification_result_redelivered_example =
    apply_verification_result_redelivered (λ s. s) approval forged world later refl refl refl
