-- ===== src/Installation/Laws.antt =====
-- What is done to an installation (internal/domain/installation/installation.go).
use loresuelvo_api.Common.{
  ◌≡◌, inl, inr, refl, sym, ◌∙◌, ap, subst, arith, String, true, false, eq_iff, List, [], ◌∷◌, ok,
  err, All, ℤ, ◌==ℤ◌, Result-cases, Bool-cases,
}
use loresuelvo_api.Errors.{Error, Outcome}
use loresuelvo_api.Installation.{
  Installation, Registration, Platform, validate, proves_possession, same_hash, check_binding,
  register, unregister, invalidate,
}

-- The calls that change an installation.
pub data Call : Type 0 where
  registers : ℤ → String → Registration → Call
  unregisters : ℤ → String → String → Call
  is_invalidated : Call

abbrev pub after : Installation → Outcome Installation → Installation
after i (ok i') = i'
after i (err e) = i

-- The binding that a call is about.
abbrev pub About : String → Call → Type 0
About binding_id (registers user_id role r) = r.binding_id ≡ binding_id
About binding_id (unregisters user_id secret id) = id ≡ binding_id
About binding_id is_invalidated = Unit

-- The call does not know the secret.
abbrev pub Ignorant : Platform → Installation → Call → Type 0
Ignorant platform i (registers user_id role r) = proves_possession platform i r.secret ≡ false
Ignorant platform i (unregisters user_id secret id) = proves_possession platform i secret ≡ false
Ignorant platform i is_invalidated = Unit

abbrev pub IsRevoked : Installation → Type 0
IsRevoked i = (i.enabled ≡ false) × (i.revoked ≡ true)

-- What only the owner of the secret changes.
pub record SameLogin (i j : Installation) : Type 0 where
  pub same_user : j.user_id ≡ i.user_id
  pub same_token : j.token ≡ i.token
  pub same_binding : j.binding_id ≡ i.binding_id
  pub same_revoked : j.revoked ≡ i.revoked
  pub same_secret : j.secret_hash ≡ i.secret_hash

invalidate_revoked : (i : Installation) → IsRevoked i → invalidate i ≡ i
unfolding invalidate
invalidate_revoked i (d, v) = ap (λ b. record i { enabled = b }) (sym d)

same_login : (i : Installation) → SameLogin i i
same_login i = ground arith

module _ (platform : Platform) where
  unfoldable pub step : Installation → Call → Installation
  step i (registers user_id role r) = after i (register platform i user_id role r)
  step i (unregisters user_id secret id) = after i (unregister platform i user_id secret id)
  step i is_invalidated = invalidate i

  unfoldable pub run : Installation → List Call → Installation
  unfolding step
  run i [] = i
  run i (c ∷ cs) = run (step i c) cs

  register_refused :
      (i : Installation) (user_id : ℤ) (role : String) (r : Registration)
      → proves_possession platform i r.secret ≡ false
      → after i (register platform i user_id role r) ≡ i
  unfolding register
  register_refused i user_id role r h = elim (Result-cases (validate platform r)) [
    | inr (_, e) ↦ rw e refl
    | inl (_, e) ↦ ground (arith, e, h)
  ]

  check_binding-revoked :
      (i : Installation) (user_id : ℤ) (r : Registration)
      → IsRevoked i
      → r.binding_id ≡ i.binding_id
      → (e : Error) × (check_binding i user_id r ≡ err e)
  unfolding check_binding
  check_binding-revoked i user_id r (d, v) same =
      rw ((eq_iff i.binding_id r.binding_id).1 (sym same))
        (elim (Bool-cases (i.user_id ==ℤ user_id)) [
          | inl u ↦ rw u (rw d (rw v (_, refl)))
          | inr u ↦ rw u (_, refl)
        ])

  register_revoked :
      (i : Installation) (user_id : ℤ) (role : String) (r : Registration)
      → IsRevoked i
      → r.binding_id ≡ i.binding_id
      → after i (register platform i user_id role r) ≡ i
  unfolding register
  register_revoked i user_id role r h same =
      let (x, q) = check_binding-revoked i user_id r h same in
      elim (Result-cases (validate platform r)) [
        | inr (_, e) ↦ rw e refl
        | inl (_, e) ↦ ground (arith, e, q)
      ]

  unregister_shape :
      (i j : Installation) (user_id : ℤ) (secret binding_id : String)
      → unregister platform i user_id secret binding_id ≡ ok j
      → j ≡ record i { enabled = false; revoked = true }
  unfolding unregister
  unregister_shape i j user_id secret binding_id e = ground arith

  unregister_revoked :
      (i : Installation) (user_id : ℤ) (secret binding_id : String)
      → IsRevoked i
      → after i (unregister platform i user_id secret binding_id) ≡ i
  unregister_revoked i user_id secret binding_id (d, v) =
      elim (Result-cases (unregister platform i user_id secret binding_id)) [
        | inr (_, e) ↦ rw e refl
        | inl (j, e) ↦ rw e (
            unregister_shape i j user_id secret binding_id e
            ∙ ap (λ b. record i { enabled = b; revoked = true }) (sym d)
            ∙ ap (λ b. record i { revoked = b }) (sym v))
      ]

  unregister-IsRevoked :
      (i j : Installation) (user_id : ℤ) (secret binding_id : String)
      → unregister platform i user_id secret binding_id ≡ ok j
      → IsRevoked j × (j.binding_id ≡ i.binding_id)
  unfolding unregister
  unregister-IsRevoked i j user_id secret binding_id e = ground arith

  run_revoked :
      (i : Installation) (calls : List Call)
      → IsRevoked i
      → All (About i.binding_id) calls
      → run i calls ≡ i
  unfolding run step invalidate
  run_revoked i [] h a = refl
  run_revoked i (registers user_id role r ∷ calls) h (s, a) =
      ap (λ j. run j calls) (register_revoked i user_id role r h s) ∙ run_revoked i calls h a
  run_revoked i (unregisters user_id secret id ∷ calls) h (s, a) =
      ap (λ j. run j calls) (unregister_revoked i user_id secret id h) ∙ run_revoked i calls h a
  run_revoked i (is_invalidated ∷ calls) h (s, a) =
      ap (λ j. run j calls) (invalidate_revoked i h) ∙ run_revoked i calls h a

  -- Once a device has been unregistered, no call about the same binding changes its installation, by
  -- whomever: a delayed registration does not bring the binding back.
  pub run-unregister :
      (i : Installation) (user_id : ℤ) (secret binding_id : String) (calls : List Call)
      {j : Installation}
      → unregister platform i user_id secret binding_id ≡ ok j
      → All (About i.binding_id) calls
      → run j calls ≡ j
  run-unregister i user_id secret binding_id calls {j} e a =
      let (h, same) = unregister-IsRevoked i j user_id secret binding_id e in
      run_revoked j calls h (subst (λ b. All (About b) calls) (sym same) a)

  step-SameLogin :
      (i : Installation) (call : Call) → Ignorant platform i call → SameLogin i (step i call)
  unfolding step invalidate unregister
  step-SameLogin i (registers user_id role r) h =
      subst (SameLogin i) (sym (register_refused i user_id role r h)) (same_login i)
  step-SameLogin i (unregisters user_id secret id) h = ground (arith, h)
  step-SameLogin i is_invalidated h = ground arith

  Ignorant-SameLogin :
      (i j : Installation) (call : Call)
      → SameLogin i j
      → Ignorant platform i call
      → Ignorant platform j call
  unfolding proves_possession
  Ignorant-SameLogin i j (registers user_id role r) s h =
      ap (λ stored. same_hash stored (platform.hash r.secret)) s.same_secret ∙ h
  Ignorant-SameLogin i j (unregisters user_id secret id) s h =
      ap (λ stored. same_hash stored (platform.hash secret)) s.same_secret ∙ h
  Ignorant-SameLogin i j is_invalidated s h = tt

  All-Ignorant :
      (i j : Installation) (calls : List Call)
      → SameLogin i j
      → All (Ignorant platform i) calls
      → All (Ignorant platform j) calls
  All-Ignorant i j [] s h = tt
  All-Ignorant i j (c ∷ calls) s (h, hs) =
      (Ignorant-SameLogin i j c s h, All-Ignorant i j calls s hs)

  -- Calls that do not know the secret of an installation, and confirmations that its token is invalid,
  -- in any order, change neither its user, its token, its binding, its secret nor its revocation.
  pub run-SameLogin :
      (i : Installation) (calls : List Call)
      → All (Ignorant platform i) calls
      → SameLogin i (run i calls)
  unfolding run
  run-SameLogin i [] h = same_login i
  run-SameLogin i (c ∷ calls) (h, hs) =
      let s = step-SameLogin i c h in
      let r = run-SameLogin (step i c) calls (All-Ignorant i (step i c) calls s hs) in
      record {
        same_user = r.same_user ∙ s.same_user;
        same_token = r.same_token ∙ s.same_token;
        same_binding = r.same_binding ∙ s.same_binding;
        same_revoked = r.same_revoked ∙ s.same_revoked;
        same_secret = r.same_secret ∙ s.same_secret;
      }
