-- ===== src/Provider/Activity/Query.antt =====
-- `activitySeries` and `Query` of internal/domain/provider/activity_service.go. What the service asks of
-- others are arguments, results as they came back.
use loresuelvo_api.Common.{
  suc, ◌-◌, String, Bool, true, false, not, ◌||◌, List, [], ◌∷◌, ◌++◌, Option, none, some, ok,
  ◌>>=◌, ◌>>◌, fail_if, map_err, if◌then◌else◌, ℤ, pos, leb_ℤ, ltb_ℤ, ◌==ℤ◌, add_int64, sub_int64,
  is_some,
}
use loresuelvo_api.Errors.{Error, Outcome, ProviderError, provider, message, wrapped}
use loresuelvo_api.Time.{Instant, before}
use loresuelvo_api.User.{Role}
use loresuelvo_api.Work.{or_error}
use loresuelvo_api.Provider.Period.{
  ActivityQueryInput, ActivityQuery, Location, previous_period, resolve, activity_bucket_start,
  next_activity_bucket,
}
use loresuelvo_api.Provider.Buckets.{each_bucket}
use loresuelvo_api.Provider.Collections.{
  with_result, actor_error, is_provider, later_of, earlier_of, is_off_grid,
}
use loresuelvo_api.Provider.Activity.{
  ActivityCounts, ActivityBucket, ActivitySnapshot, ActivityResults, ActivityComparison, Activity,
  activity_results, activity_change, activity_percent_change,
}

abbrev pub no_counts : Instant → ActivityBucket
no_counts start = record {
  from = start;
  to = start;
  confirmed = pos 0;
  reported = pos 0;
  paid = pos 0;
}

-- The map from starts to buckets, as the list of the buckets that it holds.
abbrev pub bucket_at : Instant → List ActivityBucket → Option ActivityBucket
bucket_at start [] = none
bucket_at start (b ∷ bs) =
    if before b.from start || before start b.from then bucket_at start bs else some b

abbrev pub counts_at : Instant → Option ActivityBucket → ActivityBucket
counts_at start none = no_counts start
counts_at start (some b) = b

-- The loop over the sparse buckets.
unfoldable pub index_activity :
    ActivityQuery
    → Location
    → Instant
    → List ActivityBucket
    → List ActivityBucket
    → Outcome (List ActivityBucket)
unfolding activity_bucket_start ltb_ℤ
index_activity query location first by_start [] = ok by_start
index_activity query location first by_start (bucket ∷ sparse) = do
  fail_if
      (is_off_grid query location first bucket.from
        || ltb_ℤ bucket.confirmed (pos 0)
        || ltb_ℤ bucket.reported (pos 0)
        || ltb_ℤ bucket.paid (pos 0))
      (message "activity reader returned invalid series bucket")
  fail_if (is_some (bucket_at bucket.from by_start))
      (message "activity reader returned duplicate series bucket")
  index_activity query location first (bucket ∷ by_start) sparse

-- The variables of the second loop.
pub record ActivityProgress : Type 0 where
  pub confirmed : ℤ
  pub reported : ℤ
  pub paid : ℤ
  pub series : List ActivityBucket

unfoldable pub count_bucket :
    ActivityQuery
    → Location
    → ActivityCounts
    → List ActivityBucket
    → Instant
    → ActivityProgress
    → Outcome ActivityProgress
unfolding next_activity_bucket ltb_ℤ sub_int64 add_int64
count_bucket query location counts by_start start p = do
  let bucket = counts_at start (bucket_at start by_start)
  fail_if
      (ltb_ℤ (sub_int64 counts.confirmed p.confirmed) bucket.confirmed
        || ltb_ℤ (sub_int64 counts.reported p.reported) bucket.reported
        || ltb_ℤ (sub_int64 counts.paid p.paid) bucket.paid)
      (message "activity reader returned series exceeding totals")
  ok (record {
    confirmed = add_int64 p.confirmed bucket.confirmed;
    reported = add_int64 p.reported bucket.reported;
    paid = add_int64 p.paid bucket.paid;
    series =
        p.series
        ++ record bucket {
          from = later_of start query.from;
          to = earlier_of (next_activity_bucket start query.granularity location) query.to;
        }
          ∷ [];
  })

abbrev pub all_counted :
    ActivityCounts → Option (Outcome ActivityProgress) → Option (Outcome (List ActivityBucket))
all_counted counts none = none
all_counted counts (some r) = some (do
  p ← r
  fail_if
      (not (p.confirmed ==ℤ counts.confirmed)
        || not (p.reported ==ℤ counts.reported)
        || not (p.paid ==ℤ counts.paid))
      (message "activity reader returned series inconsistent with totals")
  ok p.series)

-- With fuel for each nanosecond of the period; `none` means that it ran out.
unfoldable pub activity_series :
    ActivityQuery
    → List ActivityBucket
    → ActivityCounts
    → Location
    → Option (Outcome (List ActivityBucket))
unfolding index_activity count_bucket activity_bucket_start next_activity_bucket each_bucket ltb_ℤ
activity_series query sparse counts location =
    let first = activity_bucket_start query.from query.granularity location in
    with_result
      (fail_if
          (ltb_ℤ counts.confirmed (pos 0)
            || ltb_ℤ counts.reported (pos 0)
            || ltb_ℤ counts.paid (pos 0))
          (message "activity reader returned negative totals")
        >> index_activity query location first [] sparse)
      (λ by_start. all_counted counts (
        each_bucket (suc (query.to - first))
          (λ start. next_activity_bucket start query.granularity location) query.to
          (count_bucket query location counts by_start) first
          (record { confirmed = pos 0; reported = pos 0; paid = pos 0; series = [] })))

-- What the service calls: the finder of actors, the reader of the tables and `time.LoadLocation`.
pub record Sources : Type 0 where
  pub find_by_auth_id : String → Outcome (ℤ × Role)
  pub read : ℤ → ActivityQuery → Outcome (Option ActivitySnapshot)
  pub load_location : Outcome Location

abbrev pub provider_actor : Outcome (ℤ × Role) → Outcome ℤ
provider_actor found = do
  actor ← map_err (actor_error "resolving activity provider") found
  fail_if (not (is_provider actor.1)) (provider ProviderError.activity_forbidden)
  fail_if (leb_ℤ actor.0 (pos 0)) (provider ProviderError.activity_provider_not_found)
  ok actor.0

abbrev pub incomplete : Error
incomplete = message "activity reader returned incomplete snapshot"

abbrev pub previous_counts : Bool → ActivitySnapshot → Outcome (Option ActivityCounts)
previous_counts false s = ok none
previous_counts true s = or_error incomplete s.previous >>= λ c. ok (some c)

-- What the query knows when it comes to the series.
pub record ActivityFacts : Type 0 where
  pub query : ActivityQuery
  pub snapshot : ActivitySnapshot
  pub previous : Option ActivityCounts
  pub location : Location

unfoldable pub activity_facts :
    Sources → String → ActivityQueryInput → Instant → Outcome ActivityFacts
unfolding resolve
activity_facts sources auth_id input now = do
  query ← resolve input now
  id ← provider_actor (sources.find_by_auth_id auth_id)
  found ← map_err (wrapped "reading provider activity") (sources.read id query)
  snapshot ← or_error incomplete found
  previous ← previous_counts query.compare_previous snapshot
  location ← map_err (wrapped "loading activity timezone") sources.load_location
  ok (record { query = query; snapshot = snapshot; previous = previous; location = location })

abbrev pub activity_comparison :
    ActivityQuery → ActivityResults → Option ActivityCounts → Option ActivityComparison
activity_comparison query current none = none
activity_comparison query current (some counts) =
    let previous = activity_results counts in
    some (record {
      period = previous_period query;
      results = previous;
      change = activity_change current previous;
      percent_change = activity_percent_change current previous;
    })

abbrev pub to_activity :
    ActivityFacts → Instant → Option (Outcome (List ActivityBucket)) → Option (Outcome Activity)
to_activity facts now none = none
to_activity facts now (some r) = some (do
  series ← map_err (wrapped "reading provider activity") r
  let results = activity_results facts.snapshot.current
  ok (record {
    period = record { from = facts.query.from; to = facts.query.to };
    granularity = facts.query.granularity;
    calculated_at = now;
    results = results;
    series = series;
    pending = facts.snapshot.pending;
    comparison = activity_comparison facts.query results facts.previous;
  }))

-- `ActivityService.Query`, at the time that its call of `clock.Now` returns.
unfoldable pub query_activity :
    Sources → String → ActivityQueryInput → Instant → Option (Outcome Activity)
unfolding activity_facts activity_series activity_results activity_change activity_percent_change
    previous_period
query_activity sources auth_id input now =
    with_result (activity_facts sources auth_id input now) (λ facts.
      to_activity facts now
        (activity_series facts.query facts.snapshot.series facts.snapshot.current facts.location))
