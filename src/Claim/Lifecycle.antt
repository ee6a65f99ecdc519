-- ===== src/Claim/Lifecycle.antt =====
-- The life of a claim (internal/domain/claim/{claim,administration}.go).
use loresuelvo_api.Common.{
  ◌≡◌, ◌↔◌, inl, inr, refl, sym, ◌∙◌, ap, subst, arith, ◌+◌, ◌≤◌, String, true, none, some, List,
  [], ◌∷◌, ◌++◌, ok, err, length, length-append, ℤ, Result-cases,
}
use loresuelvo_api.Errors.{Outcome}
use loresuelvo_api.Time.{Instant, truncate_to_microsecond}
use loresuelvo_api.Claim.{
  Claim, Claimant, OperationId, Status, opened, in_review, resolved, dismissed, without_merit,
  consumer_favor, provider_favor, agreement, ResolutionType, Resolution, new_claim,
}
use loresuelvo_api.Claim.Submissions.{Submission, Platform, normalize, normalize_idempotency_key}
use loresuelvo_api.Claim.Administration.{
  ResolutionInput, Acted, start_review, resolve, is_open, is_in_review, operator_action,
  resolution_of, closing_status, normalize_resolution,
}

-- A claim that is closed by a resolution, with the three actions that led there.
pub record IsClosed (c : Claim) : Type 0 where
  pub started_on : Instant
  pub closed_on : Instant
  pub resolution : Resolution
  pub started : c.review_started_on ≡ some started_on
  pub closed : c.closed_on ≡ some closed_on
  pub decided : c.resolution ≡ some resolution
  pub at_once : resolution.resolved_on ≡ closed_on
  pub created_before : c.created_on ≤ started_on
  pub started_before : started_on ≤ closed_on
  pub judged : (c.status ≡ dismissed) ↔ (resolution.type ≡ without_merit)
  pub three_actions : length c.actions ≡ 3

pub record IsOpen (c : Claim) : Type 0 where
  pub not_started : c.review_started_on ≡ none
  pub not_closed : c.closed_on ≡ none
  pub undecided : c.resolution ≡ none
  pub one_action : length c.actions ≡ 1

pub record IsInReview (c : Claim) : Type 0 where
  pub started_on : Instant
  pub started : c.review_started_on ≡ some started_on
  pub created_before : c.created_on ≤ started_on
  pub not_closed : c.closed_on ≡ none
  pub undecided : c.resolution ≡ none
  pub two_actions : length c.actions ≡ 2

-- What a claim with a status is like.
abbrev pub Stage : Status → Claim → Type 0
Stage opened c = IsOpen c
Stage in_review c = IsInReview c
Stage resolved c = IsClosed c
Stage dismissed c = IsClosed c

abbrev pub IsCoherent : Claim → Type 0
IsCoherent c = Stage c.status c

new_claim-IsCoherent :
    (platform : Platform) (claimant : Claimant) (operation_id : OperationId) (key : String)
    (input : Submission) (now : Instant) (c : Claim)
    → new_claim platform claimant operation_id key input now ≡ ok c
    → (c.status ≡ opened) × IsOpen c
unfolding new_claim
new_claim-IsCoherent platform claimant operation_id key input now c e =
    elim (Result-cases (normalize platform input)) [
      | inr (_, q) ↦ absurd (ground arith)
      | inl (n, q) ↦ elim (Result-cases (normalize_idempotency_key platform key)) [
        | inr (_, q') ↦ absurd (ground arith)
        | inl (k, q') ↦ ground arith
      ]
    ]

opened_of : (s : Status) → is_open s ≡ true → s ≡ opened
opened_of s e = ground arith

in_review_of : (s : Status) → is_in_review s ≡ true → s ≡ in_review
in_review_of s e = ground arith

start_review-inv :
    (c : Claim) (operator_id : ℤ) (now : Instant) (a : Acted)
    → start_review c operator_id now ≡ ok a
    → (is_open c.status ≡ true)
      × (c.created_on ≤ truncate_to_microsecond now)
      × (a.claim ≡ record c {
        status = in_review;
        review_started_on = some (truncate_to_microsecond now);
        actions =
            c.actions
            ++ (operator_action "review_started" operator_id (truncate_to_microsecond now) ∷ []);
      })
unfolding start_review
start_review-inv c operator_id now a e = ground arith

normalize_resolution-type :
    (raw input : ResolutionInput) → normalize_resolution raw ≡ ok input → input.type ≡ raw.type
unfolding normalize_resolution
normalize_resolution-type raw input e = ground arith

resolve-inv :
    (c : Claim) (operator_id : ℤ) (raw : ResolutionInput) (now : Instant) (a : Acted)
    → resolve c operator_id raw now ≡ ok a
    → (is_in_review c.status ≡ true)
      × ((r : Instant) → c.review_started_on ≡ some r → r ≤ truncate_to_microsecond now)
      × (a.claim.status ≡ closing_status raw.type)
      × (a.claim.review_started_on ≡ c.review_started_on)
      × (a.claim.created_on ≡ c.created_on)
      × (a.claim.closed_on ≡ some (truncate_to_microsecond now))
      × (length a.claim.actions ≡ length c.actions + 1)
      × ((res : Resolution) × (a.claim.resolution ≡ some res)
          × (res.type ≡ raw.type)
          × (res.resolved_on ≡ truncate_to_microsecond now))
unfolding resolve
resolve-inv c operator_id raw now a e = elim (Result-cases (normalize_resolution raw)) [
  | inr (_, q) ↦ absurd (ground arith)
  | inl (input, q) ↦
      let same = normalize_resolution-type raw input q in
      (
        ground arith,
        (λ r h. ground arith),
        ground arith,
        ground arith,
        ground arith,
        ground arith,
        ground (
          arith,
          length-append c.actions
              (operator_action "resolved" operator_id (truncate_to_microsecond now) ∷ []),
        ),
        (
          resolution_of input (truncate_to_microsecond now),
          ground arith,
          ground arith,
          ground arith,
        ),
      )
]

-- Without merit, and nothing else, dismisses a claim.
closing_status-dismissed_iff :
    (type : ResolutionType) → (closing_status type ≡ dismissed) ↔ (type ≡ without_merit)
unfolding closing_status
closing_status-dismissed_iff without_merit = (λ _. refl, λ _. refl)
closing_status-dismissed_iff consumer_favor = (λ h. cc, λ h. cc)
closing_status-dismissed_iff provider_favor = (λ h. cc, λ h. cc)
closing_status-dismissed_iff agreement = (λ h. cc, λ h. cc)
closing_status-dismissed_iff (ResolutionType.other s) = (λ h. cc, λ h. cc)

closed-Stage : (type : ResolutionType) (c : Claim) → IsClosed c → Stage (closing_status type) c
unfolding closing_status
closed-Stage without_merit c h = h
closed-Stage consumer_favor c h = h
closed-Stage provider_favor c h = h
closed-Stage agreement c h = h
closed-Stage (ResolutionType.other s) c h = h

pub data Call : Type 0 where
  starts_review : ℤ → Instant → Call
  resolves : ℤ → ResolutionInput → Instant → Call

abbrev pub after : Claim → Outcome Acted → Claim
after c (ok a) = a.claim
after c (err e) = c

unfoldable pub step : Claim → Call → Claim
step c (starts_review operator_id now) = after c (start_review c operator_id now)
step c (resolves operator_id input now) = after c (resolve c operator_id input now)

unfoldable pub run : Claim → List Call → Claim
unfolding step
run c [] = c
run c (a ∷ calls) = run (step c a) calls

start_review-Stage :
    (c : Claim) (operator_id : ℤ) (now : Instant) (a : Acted)
    → start_review c operator_id now ≡ ok a
    → IsCoherent c
    → IsCoherent a.claim
start_review-Stage c operator_id now a e h =
    let (is, le, same) = start_review-inv c operator_id now a e in
    let o = subst (λ s. Stage s c) (opened_of c.status is) h in
    subst IsCoherent (sym same) (record {
      started_on = truncate_to_microsecond now;
      started = refl;
      created_before = le;
      not_closed = o.not_closed;
      undecided = o.undecided;
      two_actions = ground (
        arith,
        length-append c.actions
            (operator_action "review_started" operator_id (truncate_to_microsecond now) ∷ []),
        o.one_action,
      );
    })

resolve-Stage :
    (c : Claim) (operator_id : ℤ) (input : ResolutionInput) (now : Instant) (a : Acted)
    → resolve c operator_id input now ≡ ok a
    → IsCoherent c
    → IsCoherent a.claim
resolve-Stage c operator_id input now a e h =
    let (is, le, judged, same, created, closed, more, (res, decided, type, on)) =
      resolve-inv c operator_id input now a e in
    let i = subst (λ s. Stage s c) (in_review_of c.status is) h in
    subst (λ s. Stage s a.claim) (sym judged)
      (closed-Stage input.type a.claim (record {
        started_on = i.started_on;
        closed_on = truncate_to_microsecond now;
        resolution = res;
        started = same ∙ i.started;
        closed = closed;
        decided = decided;
        at_once = on;
        created_before = subst (λ t. t ≤ i.started_on) (sym created) i.created_before;
        started_before = le i.started_on i.started;
        judged =
            subst (λ s. (s ≡ dismissed) ↔ (res.type ≡ without_merit))
              (ap closing_status type ∙ sym judged) (closing_status-dismissed_iff res.type);
        three_actions = more ∙ ap (λ n. n + 1) i.two_actions;
      }))

step-IsCoherent : (c : Claim) (call : Call) → IsCoherent c → IsCoherent (step c call)
unfolding step
step-IsCoherent c (starts_review operator_id now) h =
    elim (Result-cases (start_review c operator_id now)) [
      | inl (a, e) ↦ rw e (start_review-Stage c operator_id now a e h)
      | inr (x, e) ↦ rw e h
    ]
step-IsCoherent c (resolves operator_id input now) h =
    elim (Result-cases (resolve c operator_id input now)) [
      | inl (a, e) ↦ rw e (resolve-Stage c operator_id input now a e h)
      | inr (x, e) ↦ rw e h
    ]

run_of-IsCoherent : (c : Claim) (calls : List Call) → IsCoherent c → IsCoherent (run c calls)
unfolding run
run_of-IsCoherent c [] h = h
run_of-IsCoherent c (a ∷ calls) h = run_of-IsCoherent (step c a) calls (step-IsCoherent c a h)

-- A new claim, whatever operators do to it, is open with its submission alone, or in review since a
-- time at or after its creation, or closed by one resolution at or after the start of the review, as
-- dismissed exactly when that resolution finds it without merit; every step has left one action.
pub run-new_claim-IsCoherent :
    (platform : Platform) (claimant : Claimant) (operation_id : OperationId) (key : String)
    (input : Submission) (now : Instant) (calls : List Call) {c : Claim}
    → new_claim platform claimant operation_id key input now ≡ ok c
    → IsCoherent (run c calls)
run-new_claim-IsCoherent platform claimant operation_id key input now calls {c} e =
    let (is, o) = new_claim-IsCoherent platform claimant operation_id key input now c e in
    run_of-IsCoherent c calls (subst (λ s. Stage s c) (sym is) o)
