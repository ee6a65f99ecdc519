-- ===== src/Provider/Collections/Summary.antt =====
-- What a summary of collections says (internal/domain/provider/collection_service.go).
use loresuelvo_api.Common.{
  ◌-◌, ◌*◌, ◌<◌, ◌≤◌, ◌≡◌, refl, subst, arith, String, Option, none, some, ok, err, ℤ, ◌+ℤ◌, ◌-ℤ◌,
  IsInt64, ltb_ℤ, sub_int64, add_int64, wrap_int64, inl, inr, Result-cases, ok-inj, >>=-eq-ok,
  map_err-eq-ok, map_err, List,
}
use loresuelvo_api.Errors.{Outcome}
use loresuelvo_api.Time.{Instant, hour}
use loresuelvo_api.Provider.Period.{
  ActivityQuery, ActivityQueryInput, Location, resolve, resolve_statistics_period, granularity_of,
  valid_period,
}
use loresuelvo_api.Provider.Period.Calendar.{IsCalendar}
use loresuelvo_api.Provider.Collections.{
  CollectionAmounts, CollectionBucket, CollectionSnapshot, Collections, complete_collection_amounts,
  validate_collection_pending, collection_series,
}
use loresuelvo_api.Provider.Collections.Service.{
  Sources, SummaryFacts, provider_id, snapshot_of, previous_of, summary_facts, summarize,
  collection_comparison, then_summarize, summary,
}
use loresuelvo_api.Provider.Collections.Tiling.{InRange}
use loresuelvo_api.Provider.Collections.Series.{
  IsSeries, collection_series_ends, collection_series-IsSeries,
}

-- A period of at most 365 days that has begun.
abbrev pub IsPeriod : Instant → Instant → Instant → Type 0
IsPeriod now from to = (from < to) × (to ≤ now) × (to - from ≤ 365 * (24 * hour))

-- What the summary says of the amounts.
pub record IsSummary (now : Instant) (c : Collections) : Type 0 where
  pub period : IsPeriod now c.period.from c.period.to
  pub total :
      c.results.total_cents ≡ c.results.booking_deposit_cents +ℤ c.results.service_balance_cents
  pub series :
      (query : ActivityQuery) × (query.from ≡ c.period.from)
      × (query.to ≡ c.period.to)
      × IsSeries query c.results c.series

complete_exact :
    (a a' : CollectionAmounts)
    → IsInt64 a.booking_deposit_cents
    → IsInt64 a.service_balance_cents
    → complete_collection_amounts a ≡ ok a'
    → InRange a' × (a'.total_cents ≡ a'.booking_deposit_cents +ℤ a'.service_balance_cents)
unfolding complete_collection_amounts ltb_ℤ sub_int64 add_int64 wrap_int64 ◌+ℤ◌ ◌-ℤ◌
complete_exact a a' h k e = ground arith

valid_period-IsPeriod :
    (now : Instant) (from to : Option Instant) (period : Instant × Instant)
    → valid_period (resolve_statistics_period now from to) ≡ ok period
    → IsPeriod now period.0 period.1
unfolding resolve_statistics_period
valid_period-IsPeriod now none none period e = ground arith
valid_period-IsPeriod now (some from) (some to) period e = ground arith
valid_period-IsPeriod now none (some to) period e = ground arith
valid_period-IsPeriod now (some from) none period e = ground arith

resolve-IsPeriod :
    (input : ActivityQueryInput) (now : Instant) (query : ActivityQuery)
    → resolve input now ≡ ok query
    → IsPeriod now query.from query.to
unfolding resolve
resolve-IsPeriod input now query e =
    let (period, f, g) =
      >>=-eq-ok (valid_period (resolve_statistics_period now input.from input.to)) _ e in
    let p = valid_period-IsPeriod now input.from input.to period f in
    let (granularity, i, j) = >>=-eq-ok (granularity_of input.granularity) _ g in
    subst (λ q. IsPeriod now q.from q.to) (ok-inj _ query j) p

snapshot_of-read :
    (found : Outcome (Option CollectionSnapshot)) (s : CollectionSnapshot)
    → snapshot_of found ≡ ok s
    → found ≡ ok (some s)
snapshot_of-read (ok (some s')) s e = cc
snapshot_of-read (ok none) s e = cc
snapshot_of-read (err x) s e = cc

some-inj : {A : Type 0} (a b : A) → some a ≡ some b → a ≡ b
some-inj a b h = cc

module _ (sources : Sources) (auth_id : String) (input : ActivityQueryInput) (now : Instant) where
  record Known (facts : SummaryFacts) : Type 0 where
    resolved : resolve input now ≡ ok facts.query
    located : sources.load_location ≡ ok facts.location
    completed : complete_collection_amounts facts.snapshot.current ≡ ok facts.current
    read : (id : ℤ) × (sources.read_summary id facts.query ≡ ok (some facts.snapshot))

  summary_facts-Known :
      (facts : SummaryFacts) → summary_facts sources auth_id input now ≡ ok facts → Known facts
  unfolding summary_facts
  summary_facts-Known facts e =
      let (query, e1, f1) = >>=-eq-ok (map_err _ (resolve input now)) _ e in
      let (id, e2, f2) = >>=-eq-ok (provider_id (sources.find_by_auth_id auth_id)) _ f1 in
      let (snapshot, e3, f3) = >>=-eq-ok (snapshot_of (sources.read_summary id query)) _ f2 in
      let (previous, e4, f4) = >>=-eq-ok (previous_of query.compare_previous snapshot) _ f3 in
      let (location, e5, f5) = >>=-eq-ok (map_err _ sources.load_location) _ f4 in
      let (current, e6, f6) = >>=-eq-ok (complete_collection_amounts snapshot.current) _ f5 in
      subst Known (ok-inj _ facts f6) (record {
        resolved = map_err-eq-ok _ (resolve input now) e1;
        located = map_err-eq-ok _ sources.load_location e5;
        completed = e6;
        read = (id, snapshot_of-read (sources.read_summary id query) snapshot e3);
      })

  then_summarize_ends :
      (facts : SummaryFacts) (o : Option (Outcome (List CollectionBucket)))
      (r : Outcome (List CollectionBucket))
      → o ≡ some r
      → (s : Outcome Collections) × (then_summarize facts now o ≡ some s)
  then_summarize_ends facts none r e = cc
  then_summarize_ends facts (some s) r e = (_, refl)

  module _ (zone : (l : Location) → sources.load_location ≡ ok l → IsCalendar l) where
    -- Summary ends, whatever its reader returns, if the time zone that it loads is a calendar: the
    -- loop over the buckets of a period does.
    pub summary_ends : (s : Outcome Collections) × (summary sources auth_id input now ≡ some s)
    unfolding summary
    summary_ends = elim (Result-cases (summary_facts sources auth_id input now)) [
      | inr (x, f) ↦ (err x, rw f refl)
      | inl (facts, f) ↦
          let k = summary_facts-Known facts f in
          let (r, g) =
            collection_series_ends facts.query facts.current facts.location
              (zone facts.location k.located) facts.snapshot.series in
          let (s, h) = then_summarize_ends facts _ r g in (s, rw f h)
    ]

    module _
        (int64 : (id : ℤ) (query : ActivityQuery) (s : CollectionSnapshot)
          → sources.read_summary id query ≡ ok (some s)
          → IsInt64 s.current.booking_deposit_cents × IsInt64 s.current.service_balance_cents) where
      summarize-IsSummary :
          (facts : SummaryFacts) (series : List CollectionBucket) (c : Collections)
          → Known facts
          → collection_series facts.query facts.snapshot.series facts.current facts.location
            ≡ some (ok series)
          → summarize facts now series ≡ ok c
          → IsSummary now c
      unfolding summarize
      summarize-IsSummary facts series c k e f =
          let snapshot = facts.snapshot.current in
          let (id, found) = k.read in
          let (i, j) = int64 id facts.query facts.snapshot found in
          let (range, total) = complete_exact snapshot facts.current i j k.completed in
          let period = resolve-IsPeriod input now facts.query k.resolved in
          let (_, _, f1) = >>=-eq-ok (validate_collection_pending facts.snapshot.pending) _ f in
          let (_, _, f2) =
            >>=-eq-ok (collection_comparison facts.query facts.current facts.previous) _ f1 in
          subst (IsSummary now) (ok-inj _ c f2) (record {
            period = period;
            total = total;
            series = (
              facts.query,
              refl,
              refl,
              collection_series-IsSeries facts.query facts.current facts.location
                  (zone facts.location k.located) range period.0 facts.snapshot.series series e,
            );
          })

      -- Given a calendar and amounts of the reader that an int64 holds,
      -- a summary that is returned is of a period of at most 365 days that has begun; its series tiles
      -- the period with buckets that are not empty, the amounts of the buckets add up to the results,
      -- and the total of the results is their exact sum.
      pub summary-IsSummary :
          (c : Collections) → summary sources auth_id input now ≡ some (ok c) → IsSummary now c
      unfolding summary
      summary-IsSummary c e = elim (Result-cases (summary_facts sources auth_id input now)) [
        | inr (x, f) ↦ absurd (cc (rw f at e))
        | inl (facts, f) ↦
            let k = summary_facts-Known facts f in
            let (r, g) =
              collection_series_ends facts.query facts.current facts.location
                (zone facts.location k.located) facts.snapshot.series in
            elim (Result-cases r) [
              | inr (x, h) ↦ absurd (cc (rw h at (rw g at (rw f at e))))
              | inl (series, h) ↦
                  summarize-IsSummary facts series c k (rw h at g)
                    (some-inj (summarize facts now series) (ok c) (rw h at (rw g at (rw f at e))))
            ]
      ]
