-- ===== src/IdentityVerification/Results.antt =====
-- Results that are applied to a session (internal/domain/identityverification/verification.go).
use loresuelvo_api.Common.{
  ◌≡◌, ◌≢◌, ◌⊎◌, inl, inr, refl, arith, String, true, false, none, some, List, [], ◌∷◌, ok, err,
  is_some, ◌||◌, Bool-cases, ℤ,
}
use loresuelvo_api.Errors.{Outcome}
use loresuelvo_api.Time.{Instant}
use loresuelvo_api.IdentityVerification.{
  VerificationStatus, approved, declined, IdentityVerification, VerificationResult, apply_result,
  is_foreign, is_outdated, verified_at, risk_codes_of, new_verification,
}

-- A result and the time at which it is applied.
pub record Delivery : Type 0 where
  pub result : VerificationResult
  pub now : Instant

abbrev after : IdentityVerification → Outcome IdentityVerification → IdentityVerification
after v (ok v') = v'
after v (err e) = v

-- A verified session is an approved one, and only a declined one has risk codes.
pub record IsCoherent (v : IdentityVerification) : Type 0 where
  pub verified : v.status ≡ approved → is_some v.verified_on ≡ true
  pub unverified : v.status ≢ approved → v.verified_on ≡ none
  pub harmless : v.status ≢ declined → v.risk_codes ≡ []

module _ (to_upper : String → String) where
  unfoldable pub step : IdentityVerification → Delivery → IdentityVerification
  step v d = after v (apply_result to_upper v d.result d.now)

  unfoldable pub run : IdentityVerification → List Delivery → IdentityVerification
  unfolding step
  run v [] = v
  run v (d ∷ ds) = run (step v d) ds

  verdict-IsCoherent :
      (v : IdentityVerification) (status : VerificationStatus) (codes : List String) (now : Instant)
      → v.status ≡ status
      → v.verified_on ≡ verified_at status now
      → v.risk_codes ≡ risk_codes_of to_upper status codes
      → IsCoherent v
  verdict-IsCoherent v approved codes now s a r = record {
    verified = λ _. ground arith;
    unverified = λ n. absurd (n s);
    harmless = λ _. r;
  }
  verdict-IsCoherent v declined codes now s a r = record {
    verified = λ e. ground arith;
    unverified = λ _. a;
    harmless = λ n. absurd (n s);
  }
  verdict-IsCoherent v _ codes now s a r = record {
    verified = λ e. ground arith;
    unverified = λ _. a;
    harmless = λ _. r;
  }

  -- What a result that is taken in leaves.
  abbrev applied : IdentityVerification → Delivery → IdentityVerification
  applied v d = record v {
    status = d.result.status;
    last_result_on = some d.result.occurred_on;
    risk_codes = risk_codes_of to_upper d.result.status d.result.risk_codes;
    verified_on = verified_at d.result.status d.now;
    updated_on = d.now;
  }

  step-cases :
      (v : IdentityVerification) (d : Delivery)
      → (((is_foreign v d.result d.now || is_outdated v.last_result_on d.result.occurred_on) ≡ true)
          × (step v d ≡ v))
        ⊎ ((is_foreign v d.result d.now ≡ false)
            × (is_outdated v.last_result_on d.result.occurred_on ≡ false)
            × (step v d ≡ applied v d))
  unfolding step apply_result
  step-cases v d = elim (Bool-cases (is_foreign v d.result d.now)) [
    | inl f ↦ inl (rw f refl, rw f refl)
    | inr f ↦ elim (Bool-cases (is_outdated v.last_result_on d.result.occurred_on)) [
      | inl o ↦ inl (rw f o, rw f (rw o refl))
      | inr o ↦ inr (f, o, rw f (rw o refl))
    ]
  ]

  step-IsCoherent : (v : IdentityVerification) (d : Delivery) → IsCoherent v → IsCoherent (step v d)
  step-IsCoherent v d h = elim (step-cases v d) [
    | inl (_, e) ↦ rw e h
    | inr (_, _, e) ↦
        rw e (
          verdict-IsCoherent (applied v d) d.result.status d.result.risk_codes d.now refl refl refl)
  ]

  run_of-IsCoherent :
      (v : IdentityVerification) (ds : List Delivery) → IsCoherent v → IsCoherent (run v ds)
  unfolding run
  run_of-IsCoherent v [] h = h
  run_of-IsCoherent v (d ∷ ds) h = run_of-IsCoherent (step v d) ds (step-IsCoherent v d h)

  -- A new session, whatever results are applied to it, has a time of verification exactly while it is
  -- approved, and risk codes only while it is declined.
  pub run-IsCoherent :
      (provider_id : ℤ) (session_id workflow_id verifier : String) (version : ℤ) (now : Instant)
      (ds : List Delivery) {v : IdentityVerification}
      → new_verification provider_id session_id workflow_id verifier version now ≡ ok v
      → IsCoherent (run v ds)
  unfolding new_verification
  run-IsCoherent provider_id session_id workflow_id verifier version now ds {v} e =
      run_of-IsCoherent v ds (record {
        verified = λ a. ground arith;
        unverified = λ _. ground arith;
        harmless = λ _. ground arith;
      })
