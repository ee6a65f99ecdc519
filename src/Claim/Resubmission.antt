-- ===== src/Claim/Resubmission.antt =====
-- Submissions with a key that was used before (internal/domain/claim/service.go).
use loresuelvo_api.Common.{
  ◌≡◌, refl, sym, ◌∙◌, ap, subst, arith, String, false, Option, none, some, ok, ◌=ₛ◌, inl, inr,
  Bool-cases,
}
use loresuelvo_api.Errors.{wrapped}
use loresuelvo_api.Work.{on_error, query}
use loresuelvo_api.Work.Hoare.{
  Hoare, Branches, bind-Hoare, lift-Hoare, on_error-Hoare, change-Hoare,
}
use loresuelvo_api.Claim.{Claim}
use loresuelvo_api.Claim.Submissions.{Platform}
use loresuelvo_api.Claim.Store.{Tables}
use loresuelvo_api.Claim.Service.{
  Ports, SubmissionResult, Prepared, submitted_row, find_by_submission_key, matched, replay,
  unless_replayed, submit_prepared,
}

abbrev pub Untouched : Tables → Tables → Type 0
Untouched t u = u ≡ t

matched-Branches :
    (fingerprint : String) (c : Claim) (t u : Tables)
    → Untouched t u
    → Branches
        (λ (found : Option SubmissionResult) v.
          Untouched t v × (found ≡ some (record { claim = c; created = false })))
        (Untouched t)
        u
        (matched fingerprint (some c))
matched-Branches fingerprint c t u p = elim (Bool-cases (c.submission_fingerprint =ₛ fingerprint)) [
  | inl e ↦ rw e (p, refl)
  | inr e ↦ rw e p
]

replay_known :
    (p : Prepared) (t : Tables) (c : Claim)
    → submitted_row p.claimant.id p.key t ≡ some c
    → Hoare
        (Untouched t)
        (replay p)
        (λ found u. Untouched t u × (found ≡ some (record { claim = c; created = false })))
        (Untouched t)
unfolding replay find_by_submission_key
replay_known p t c known =
    bind-Hoare {R = λ found u. Untouched t u × (found ≡ some c)}
      (on_error (wrapped "finding prior claim submission")
        (find_by_submission_key p.claimant.id p.key))
      _
      (on_error-Hoare _ (find_by_submission_key p.claimant.id p.key) (
        on_error-Hoare _ (query (submitted_row p.claimant.id p.key)) (
          change-Hoare (λ u. ok (u, submitted_row p.claimant.id p.key u))
            (λ u same. (same, ap (submitted_row p.claimant.id p.key) same ∙ known)))))
      (λ found. lift-Hoare (matched p.fingerprint found) (λ u (same, e).
        subst
          (λ o.
            Branches (λ r v. Untouched t v × (r ≡ some (record { claim = c; created = false })))
              (Untouched t) u (matched p.fingerprint o))
          (sym e) (matched-Branches p.fingerprint c t u same)))

module _ (platform : Platform) (ports : Ports) where
  unless_replayed_known :
      (p : Prepared) (t : Tables) (c : Claim) (found : Option SubmissionResult)
      → Hoare
          (λ u. Untouched t u × (found ≡ some (record { claim = c; created = false })))
          (unless_replayed platform ports p found)
          (λ result u. Untouched t u × (result ≡ record { claim = c; created = false }))
          (Untouched t)
  unfolding unless_replayed
  unless_replayed_known p t c (some prior) =
      lift-Hoare (ok prior) (λ u (same, e). (same, ground (arith, e)))
  unless_replayed_known p t c none = record { runs = λ w (same, e). absurd (ground (arith, e)) }

  -- A submission with a key that its claimant has used before changes no table: it fails, or it
  -- answers the claim of that key as not created.
  pub submit_prepared_known :
      (p : Prepared) (t : Tables) (c : Claim)
      → submitted_row p.claimant.id p.key t ≡ some c
      → Hoare
          (Untouched t)
          (submit_prepared platform ports p)
          (λ result u. Untouched t u × (result ≡ record { claim = c; created = false }))
          (Untouched t)
  unfolding submit_prepared
  submit_prepared_known p t c known =
      bind-Hoare (replay p) (unless_replayed platform ports p) (replay_known p t c known)
        (λ found. unless_replayed_known p t c found)
