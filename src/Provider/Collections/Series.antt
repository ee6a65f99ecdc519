-- ===== src/Provider/Collections/Series.antt =====
-- The whole series, and the summary (internal/domain/provider/collection_service.go).
use loresuelvo_api.Common.{
  suc, ◌-◌, ◌<◌, ◌≤◌, ◌≡◌, refl, ◌∙◌, subst, arith, Bool, true, false, not, List, [], Option, none,
  some, ok, err, ==ℤ_iff, All, inl, inr, Bool-cases, Result-cases, ok-inj,
}
use loresuelvo_api.Errors.{Outcome}
use loresuelvo_api.Time.{Instant}
use loresuelvo_api.Provider.Period.{
  ActivityQuery, Location, activity_bucket_start, next_activity_bucket,
}
use loresuelvo_api.Provider.Period.Calendar.{
  IsCalendar, next_activity_bucket_later, activity_bucket_start_bounds,
}
use loresuelvo_api.Provider.Buckets.{each_bucket, each_bucket_ends, each_bucket-keeps}
use loresuelvo_api.Provider.Collections.{
  CollectionAmounts, CollectionBucket, Progress, nothing_collected, index_buckets, collect_bucket,
  is_inconsistent, consistent, then_consistent, with_result, collection_series,
}
use loresuelvo_api.Provider.Collections.Tiling.{
  Tiles, sum_by, Counted, InRange, Covers, or-eq-false, index_buckets-Counted,
  collect_bucket-Covers,
}

-- The buckets of a series tile the period, and their amounts add up to the totals.
pub record IsSeries (query : ActivityQuery) (totals : CollectionAmounts)
    (series : List CollectionBucket) : Type 0 where
  pub tiles : Tiles query.from query.to series
  pub deposits : sum_by (λ a. a.booking_deposit_cents) series ≡ totals.booking_deposit_cents
  pub balances : sum_by (λ a. a.service_balance_cents) series ≡ totals.service_balance_cents

abbrev run :
    ActivityQuery → CollectionAmounts → Location → List CollectionBucket → Option (Outcome Progress)
run query totals location by_start =
    let first = activity_bucket_start query.from query.granularity location in
    each_bucket (suc (query.to - first))
      (λ start. next_activity_bucket start query.granularity location) query.to
      (collect_bucket query location totals by_start) first nothing_collected

not-eq-false : (b : Bool) → not b ≡ false → b ≡ true
not-eq-false b h = ground arith

some-inj : {A : Type 0} (a b : A) → some a ≡ some b → a ≡ b
some-inj a b h = cc

module _ (query : ActivityQuery) (totals : CollectionAmounts) (location : Location)
    (c : IsCalendar location) where
  run_ends :
      (by_start : List CollectionBucket)
      → (r : Outcome Progress) × (run query totals location by_start ≡ some r)
  run_ends by_start =
      let first = activity_bucket_start query.from query.granularity location in
      each_bucket_ends _ query.to (collect_bucket query location totals by_start)
        (λ t. next_activity_bucket_later c t query.granularity) (suc (query.to - first)) first
        nothing_collected (omega arith)

  then_consistent_ends :
      (o : Option (Outcome Progress)) (r : Outcome Progress)
      → o ≡ some r
      → (s : Outcome (List CollectionBucket)) × (then_consistent totals o ≡ some s)
  then_consistent_ends none r e = cc
  then_consistent_ends (some s) r e = (_, refl)

  with_result_ends :
      {A B : Type 0} (r : Outcome A) (k : A → Option (Outcome B))
      → ((a : A) → (s : Outcome B) × (k a ≡ some s))
      → (s : Outcome B) × (with_result r k ≡ some s)
  with_result_ends (ok a) k h = h a
  with_result_ends (err e) k h = (err e, refl)

  pub collection_series_ends :
      (sparse : List CollectionBucket)
      → (s : Outcome (List CollectionBucket)) × (collection_series query sparse totals location
          ≡ some s)
  unfolding collection_series
  collection_series_ends sparse =
      with_result_ends
        (index_buckets query location (activity_bucket_start query.from query.granularity location)
          [] sparse)
        (λ by_start. then_consistent totals (run query totals location by_start))
        (λ by_start.
          then_consistent_ends (run query totals location by_start) (run_ends by_start).0
            (run_ends by_start).1)

  module _ (range : InRange totals) (ordered : query.from < query.to) where
    start-Covers :
        (by_start : List CollectionBucket) (known : All (λ b. Counted b.amounts) by_start)
        → Covers query location totals by_start c range known ordered
            (activity_bucket_start query.from query.granularity location)
            nothing_collected
    start-Covers by_start known =
        let (low, high) = activity_bucket_start_bounds c query.from query.granularity in
        record {
          tiles = ground (arith, low, ordered);
          reaches = high;
          deposits = refl;
          deposits_low = omega arith;
          deposits_high = range.2.0;
          balances = refl;
          balances_low = omega arith;
          balances_high = range.2.1;
        }

    finished :
        (p : Progress) (series : List CollectionBucket)
        → consistent totals p ≡ ok series
        → (p.deposits ≡ totals.booking_deposit_cents)
          × (p.balances ≡ totals.service_balance_cents)
          × (p.series ≡ series)
    finished p series e = elim (Bool-cases (is_inconsistent totals p)) [
      | inl x ↦ absurd (cc (rw x at e))
      | inr x ↦
          let (t, u) = or-eq-false _ _ x in
          (
            (==ℤ_iff p.deposits totals.booking_deposit_cents).0 (not-eq-false _ t),
            (==ℤ_iff p.balances totals.service_balance_cents).0 (not-eq-false _ u),
            ok-inj p.series series (rw x at e),
          )
    ]

    ended-IsSeries :
        (by_start series : List CollectionBucket) (known : All (λ b. Counted b.amounts) by_start)
        (end : Instant) (p : Progress)
        → query.to ≤ end
        → Covers query location totals by_start c range known ordered end p
        → consistent totals p ≡ ok series
        → IsSeries query totals series
    ended-IsSeries by_start series known end p h v e =
        let (d, b, same) = finished p series e in
        subst (IsSeries query totals) same (record {
          tiles = subst (λ x. Tiles query.from x p.series) (ground arith) v.tiles;
          deposits = v.deposits ∙ d;
          balances = v.balances ∙ b;
        })

    run-IsSeries :
        (by_start series : List CollectionBucket) (known : All (λ b. Counted b.amounts) by_start)
        → then_consistent totals (run query totals location by_start) ≡ some (ok series)
        → IsSeries query totals series
    run-IsSeries by_start series known e =
        let (r, g) = run_ends by_start in
        elim (Result-cases r) [
          | inr (x, f) ↦ absurd (cc (rw f at (rw g at e)))
          | inl (p, f) ↦
              let first = activity_bucket_start query.from query.granularity location in
              let (end, h, v) =
                each_bucket-keeps _ query.to (collect_bucket query location totals by_start)
                  (Covers query location totals by_start c range known ordered)
                  (collect_bucket-Covers query location totals by_start c range known ordered)
                  (suc (query.to - first)) first nothing_collected (start-Covers by_start known) p
                  (rw f at g) in
              ended-IsSeries by_start series known end p h v (some-inj _ _ (rw f at (rw g at e)))
        ]

    pub collection_series-IsSeries :
        (sparse series : List CollectionBucket)
        → collection_series query sparse totals location ≡ some (ok series)
        → IsSeries query totals series
    unfolding collection_series
    collection_series-IsSeries sparse series e =
        let first = activity_bucket_start query.from query.granularity location in
        elim (Result-cases (index_buckets query location first [] sparse)) [
          | inr (x, f) ↦ absurd (cc (rw f at e))
          | inl (by_start, f) ↦
              run-IsSeries by_start series
                (index_buckets-Counted query location first [] sparse by_start tt f) (rw f at e)
        ]
