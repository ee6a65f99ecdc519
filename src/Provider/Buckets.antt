-- ===== src/Provider/Buckets.antt =====
-- The loop over the calendar buckets of a period that activitySeries and collectionSeries of
-- internal/domain/provider share: `for start := first; start.Before(to); start = next(start)`.
use loresuelvo_api.Common.{
  ℕ, suc, zero, ◌-◌, ◌<◌, ◌≤◌, ◌≡◌, subst, Option, none, some, ok, err, if◌then◌else◌, arith,
  Bool-cases, Result-cases, inl, inr,
}
use loresuelvo_api.Errors.{Outcome}
use loresuelvo_api.Time.{Instant, before}

abbrev pub after_body : {S : Type 0} → Outcome S → (S → Option (Outcome S)) → Option (Outcome S)
after_body (err e) k = some (err e)
after_body (ok s) k = k s

-- `none` means that the fuel ran out.
unfoldable pub each_bucket :
    {S : Type 0}
    → ℕ
    → (Instant → Instant)
    → Instant
    → (Instant → S → Outcome S)
    → Instant
    → S
    → Option (Outcome S)
each_bucket zero next to body start s = none
each_bucket (suc fuel) next to body start s =
    let rest = after_body (body start s) (each_bucket fuel next to body (next start)) in
    if before start to then rest else some (ok s)

abbrev ended : {S : Type 0} → S → Option (Outcome S)
ended s = some (ok s)

ended_same : {S : Type 0} (s s' : S) → ended s ≡ ended s' → s ≡ s'
ended_same s s' h = cc

module _ {S : Type 0} (next : Instant → Instant) (to : Instant)
    (body : Instant → S → Outcome S) where
  -- The loop ends, with fuel for each nanosecond that is left.
  pub each_bucket_ends :
      ((t : Instant) → t < next t)
      → (fuel : ℕ) (start : Instant) (s : S) → to - start < fuel
      → (r : Outcome S) × (each_bucket fuel next to body start s ≡ some r)
  unfolding each_bucket
  each_bucket_ends later zero start s h = absurd (omega arith)
  each_bucket_ends later (suc fuel) start s h = elim (Bool-cases (before start to)) [
    | inr e ↦ (ok s, rw e)
    | inl e ↦ elim (Result-cases (body start s)) [
      | inr (x, f) ↦ (err x, rw e (rw f))
      | inl (s', f) ↦
          let (r, g) = each_bucket_ends later fuel (next start) s' (ground (arith, later start)) in
          (r, rw e (rw f g))
    ]
  ]

  -- An invariant of the body holds at the end, where the test has failed.
  pub each_bucket-keeps :
      (P : Instant → S → Type 0)
      → ((start : Instant) (s s' : S)
          → start < to
          → P start s
          → body start s ≡ ok s'
          → P (next start) s')
      → (fuel : ℕ) (start : Instant) (s : S) → P start s
      → (s' : S) → each_bucket fuel next to body start s ≡ some (ok s')
      → (end : Instant) × (to ≤ end) × P end s'
  unfolding each_bucket
  each_bucket-keeps P keeps zero start s p s' h = cc
  each_bucket-keeps P keeps (suc fuel) start s p s' h = elim (Bool-cases (before start to)) [
    | inr e ↦ (start, ground arith, subst (P start) (ended_same s s' (rw e at h)) p)
    | inl e ↦ elim (Result-cases (body start s)) [
      | inr (x, f) ↦ absurd (cc (rw e at (rw f at h)))
      | inl (t, f) ↦
          each_bucket-keeps P keeps fuel (next start) t (keeps start s t (ground arith) p f) s'
            (rw f at (rw e at h))
    ]
  ]
