-- ===== src/IdentityVerification/Order.antt =====
-- The order in which results arrive (internal/domain/identityverification/verification.go).
use loresuelvo_api.Common.{
  ◌≡◌, ◌≢◌, inl, inr, refl, sym, ◌∙◌, ap, subst, arith, String, true, false, none, some, List, [],
  ◌∷◌, map, All, Bool-cases, if◌then◌else◌,
}
use mathlib.Core.List.{Permᴰ}
use loresuelvo_api.Time.{zero_time}
use loresuelvo_api.IdentityVerification.{
  IdentityVerification, VerificationResult, is_foreign, is_outdated, risk_codes_of, apply_result,
}
use loresuelvo_api.IdentityVerification.Results.{Delivery, step, run}

-- A session without the times at which it was changed.
abbrev pub verdict : IdentityVerification → IdentityVerification
verdict v = record v { verified_on = none; updated_on = 0 }

abbrev pub IsLive : Delivery → Type 0
IsLive d = d.now ≢ zero_time

-- No two of the results occurred at one time.
abbrev pub Distinct : List VerificationResult → Type 0
Distinct [] = Unit
Distinct (r ∷ rs) = All (λ s. r.occurred_on ≢ s.occurred_on) rs × Distinct rs

All-Perm {ℓ κ} : {A : Type ℓ} (P : A → Type κ) {xs ys : List A} → Permᴰ xs ys → All P xs → All P ys
All-Perm P Permᴰ.nil h = h
All-Perm P (Permᴰ.cons e p) (h, hs) = (subst P e h, All-Perm P p hs)
All-Perm P (Permᴰ.swap e e') (h, (h', hs)) = (subst P e' h', (subst P e h, hs))
All-Perm P (Permᴰ.trans p q) h = All-Perm P q (All-Perm P p h)

Distinct-Perm : {rs ss : List VerificationResult} → Permᴰ rs ss → Distinct rs → Distinct ss
Distinct-Perm Permᴰ.nil h = h
Distinct-Perm (Permᴰ.cons {l₂ = ss} e p) (h, hs) = (
  subst (λ a. All (λ s. a.occurred_on ≢ s.occurred_on) ss) e (All-Perm _ p h),
  Distinct-Perm p hs,
)
Distinct-Perm (Permᴰ.swap {l = l} e e') ((n, h), (h', hs)) = (
  (
    λ q. n (ap (λ r. r.occurred_on) e ∙ sym q ∙ ap (λ r. r.occurred_on) (sym e')),
    subst (λ a. All (λ s. a.occurred_on ≢ s.occurred_on) l) e' h',
  ),
  (subst (λ a. All (λ s. a.occurred_on ≢ s.occurred_on) l) e h, hs),
)
Distinct-Perm (Permᴰ.trans p q) h = Distinct-Perm q (Distinct-Perm p h)

module _ (to_upper : String → String) where
  -- The verdict after a result of the session.
  unfoldable renewed : IdentityVerification → VerificationResult → IdentityVerification
  renewed c r = if is_outdated c.last_result_on r.occurred_on then c else record c {
    status = r.status;
    last_result_on = some r.occurred_on;
    risk_codes = risk_codes_of to_upper r.status r.risk_codes;
  }

  -- The verdict after any result.
  unfoldable judge : IdentityVerification → VerificationResult → IdentityVerification
  judge c r = if is_foreign c r 0 then c else renewed c r

  unfoldable judge_all : IdentityVerification → List VerificationResult → IdentityVerification
  judge_all c [] = c
  judge_all c (r ∷ rs) = judge_all (judge c r) rs

  step-judge :
      (v : IdentityVerification) (d : Delivery)
      → IsLive d
      → verdict (step to_upper v d) ≡ judge (verdict v) d.result
  unfolding step judge renewed apply_result is_foreign
  step-judge v d n = ground arith

  is_foreign-judge :
      (c : IdentityVerification) (a b : VerificationResult)
      → is_foreign (judge c b) a 0 ≡ is_foreign c a 0
  unfolding judge renewed is_foreign
  is_foreign-judge c a b = elim (Bool-cases (is_foreign c b 0)) [
    | inl f ↦ rw f refl
    | inr f ↦ elim (Bool-cases (is_outdated c.last_result_on b.occurred_on)) [
      | inl o ↦ rw f (rw o refl)
      | inr o ↦ rw f (rw o refl)
    ]
  ]

  judge_foreign :
      (c : IdentityVerification) (r : VerificationResult) → is_foreign c r 0 ≡ true → judge c r ≡ c
  unfolding judge
  judge_foreign c r f = rw f refl

  judge_own :
      (c : IdentityVerification) (r : VerificationResult)
      → is_foreign c r 0 ≡ false
      → judge c r ≡ renewed c r
  unfolding judge
  judge_own c r f = rw f refl

  renewed_swap :
      (c : IdentityVerification) (a b : VerificationResult)
      → a.occurred_on ≢ b.occurred_on
      → renewed (renewed c a) b ≡ renewed (renewed c b) a
  unfolding renewed
  renewed_swap c a b n = ground arith

  judge_own_twice :
      (c : IdentityVerification) (a b : VerificationResult)
      → is_foreign c a 0 ≡ false
      → is_foreign c b 0 ≡ false
      → judge (judge c a) b ≡ renewed (renewed c a) b
  judge_own_twice c a b f f' =
      judge_own (judge c a) b (is_foreign-judge c b a ∙ f')
      ∙ ap (λ d. renewed d b) (judge_own c a f)

  judge_swap :
      (c : IdentityVerification) (a b : VerificationResult)
      → a.occurred_on ≢ b.occurred_on
      → judge (judge c a) b ≡ judge (judge c b) a
  judge_swap c a b n = elim (Bool-cases (is_foreign c a 0)) [
    | inl f ↦
        ap (λ d. judge d b) (judge_foreign c a f)
        ∙ sym (judge_foreign (judge c b) a (is_foreign-judge c a b ∙ f))
    | inr f ↦ elim (Bool-cases (is_foreign c b 0)) [
      | inl f' ↦
          judge_foreign (judge c a) b (is_foreign-judge c b a ∙ f')
          ∙ sym (ap (λ d. judge d a) (judge_foreign c b f'))
      | inr f' ↦
          judge_own_twice c a b f f' ∙ renewed_swap c a b n ∙ sym (judge_own_twice c b a f' f)
    ]
  ]

  judge_all-Perm :
      {rs ss : List VerificationResult}
      → Permᴰ rs ss
      → (c : IdentityVerification) → Distinct rs
      → judge_all c rs ≡ judge_all c ss
  unfolding judge_all
  judge_all-Perm Permᴰ.nil c h = refl
  judge_all-Perm (Permᴰ.cons {a = a} {l₂ = l₂} e p) c (_, h) =
      judge_all-Perm p (judge c a) h ∙ ap (λ r. judge_all (judge c r) l₂) e
  judge_all-Perm (Permᴰ.swap {a = a} {b = b} {a' = a'} {l = l} e e') c ((n, _), _) =
      ap (λ d. judge_all d l) (judge_swap c a b n)
      ∙ ap (λ r. judge_all (judge (judge c r) a) l) e'
      ∙ ap (λ r. judge_all (judge (judge c a') r) l) e
  judge_all-Perm (Permᴰ.trans p q) c h =
      judge_all-Perm p c h ∙ judge_all-Perm q c (Distinct-Perm p h)

  verdict-run :
      (v : IdentityVerification) (ds : List Delivery)
      → All IsLive ds
      → verdict (run to_upper v ds) ≡ judge_all (verdict v) (map (λ d. d.result) ds)
  unfolding run judge_all
  verdict-run v [] h = refl
  verdict-run v (d ∷ ds) (n, h) =
      verdict-run (step to_upper v d) ds h
      ∙ ap (λ c. judge_all c (map (λ d. d.result) ds)) (step-judge v d n)

  -- The same results in any other order, each delivered at any time that is set, give the same
  -- verdict, if no two of them occurred at one time.
  pub verdict-run-Perm :
      (v : IdentityVerification) (ds es : List Delivery)
      → All IsLive ds
      → All IsLive es
      → Distinct (map (λ d. d.result) ds)
      → Permᴰ (map (λ d. d.result) ds) (map (λ d. d.result) es)
      → verdict (run to_upper v ds) ≡ verdict (run to_upper v es)
  verdict-run-Perm v ds es h k n p =
      verdict-run v ds h ∙ judge_all-Perm p (verdict v) n ∙ sym (verdict-run v es k)
