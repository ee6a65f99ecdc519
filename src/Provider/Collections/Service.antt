-- ===== src/Provider/Collections/Service.antt =====
-- The summary of internal/domain/provider/collection_service.go. What the service asks of its reader,
-- of the finder of actors and of the time zones of Go are arguments, results as they came back.
use loresuelvo_api.Common.{
  String, Bool, true, false, not, List, Option, none, some, ok, ◌>>=◌, ◌>>◌, fail_if, map_err, ℤ,
  pos, leb_ℤ, sub_int64,
}
use loresuelvo_api.Errors.{Outcome, ProviderError, provider, message, wrapped}
use loresuelvo_api.Time.{Instant}
use loresuelvo_api.User.{Role}
use loresuelvo_api.Work.{or_error}
use loresuelvo_api.Provider.Period.{
  ActivityQueryInput, ActivityQuery, Location, previous_period, resolve,
}
use loresuelvo_api.Provider.Percent.{percent_change}
use loresuelvo_api.Provider.Collections.{
  CollectionAmounts, CollectionBucket, CollectionSnapshot, CollectionComparison, Collections,
  complete_collection_amounts, validate_collection_pending, with_result, collection_series,
  actor_error, is_provider,
}

-- What the service calls: the finder of actors, the reader of the tables and `time.LoadLocation`.
pub record Sources : Type 0 where
  pub find_by_auth_id : String → Outcome (ℤ × Role)
  pub read_summary : ℤ → ActivityQuery → Outcome (Option CollectionSnapshot)
  pub load_location : Outcome Location

unfoldable pub provider_id : Outcome (ℤ × Role) → Outcome ℤ
provider_id found = do
  actor ← map_err (actor_error "resolving collection provider") found
  fail_if (not (is_provider actor.1)) (provider ProviderError.activity_forbidden)
  fail_if (leb_ℤ actor.0 (pos 0)) (provider ProviderError.activity_provider_not_found)
  ok actor.0

-- `query.ComparePrevious && snapshot.Previous == nil`, and the snapshot of the previous period.
abbrev pub previous_of : Bool → CollectionSnapshot → Outcome (Option CollectionAmounts)
previous_of false s = ok none
previous_of true s =
    map_err (λ _. message "collection reader returned incomplete snapshot")
      (or_error (message "") s.previous >>= λ a. ok (some a))

abbrev pub snapshot_of : Outcome (Option CollectionSnapshot) → Outcome CollectionSnapshot
snapshot_of found = do
  read ← map_err (wrapped "reading provider collections") found
  or_error (message "collection reader returned incomplete snapshot") read

unfoldable pub collection_comparison :
    ActivityQuery
    → CollectionAmounts
    → Option CollectionAmounts
    → Outcome (Option CollectionComparison)
unfolding complete_collection_amounts previous_period percent_change
collection_comparison query current none = ok none
collection_comparison query current (some read) = do
  previous ← complete_collection_amounts read
  ok (
      some (record {
        period = previous_period query;
        results = previous;
        absolute = record {
          booking_deposit_cents =
              sub_int64 current.booking_deposit_cents previous.booking_deposit_cents;
          service_balance_cents =
              sub_int64 current.service_balance_cents previous.service_balance_cents;
          total_cents = sub_int64 current.total_cents previous.total_cents;
        };
        percentage = record {
          booking_deposit_cents =
              percent_change current.booking_deposit_cents previous.booking_deposit_cents;
          service_balance_cents =
              percent_change current.service_balance_cents previous.service_balance_cents;
          total_cents = percent_change current.total_cents previous.total_cents;
        };
      }))

-- What Summary knows when it comes to the series.
pub record SummaryFacts : Type 0 where
  pub query : ActivityQuery
  pub snapshot : CollectionSnapshot
  pub previous : Option CollectionAmounts
  pub location : Location
  pub current : CollectionAmounts

unfoldable pub summary_facts :
    Sources → String → ActivityQueryInput → Instant → Outcome SummaryFacts
unfolding resolve provider_id complete_collection_amounts
summary_facts sources auth_id input now = do
  query ← map_err (λ _. provider ProviderError.invalid_collection_query) (resolve input now)
  id ← provider_id (sources.find_by_auth_id auth_id)
  snapshot ← snapshot_of (sources.read_summary id query)
  previous ← previous_of query.compare_previous snapshot
  location ← map_err (wrapped "loading collection timezone") sources.load_location
  current ← complete_collection_amounts snapshot.current
  ok (record {
    query = query;
    snapshot = snapshot;
    previous = previous;
    location = location;
    current = current;
  })

unfoldable pub summarize : SummaryFacts → Instant → List CollectionBucket → Outcome Collections
unfolding validate_collection_pending collection_comparison
summarize facts now series = do
  validate_collection_pending facts.snapshot.pending
  comparison ← collection_comparison facts.query facts.current facts.previous
  ok (record {
    period = record { from = facts.query.from; to = facts.query.to };
    granularity = facts.query.granularity;
    calculated_at = now;
    results = facts.current;
    series = series;
    pending = facts.snapshot.pending;
    comparison = comparison;
  })

abbrev pub then_summarize :
    SummaryFacts → Instant → Option (Outcome (List CollectionBucket)) → Option (Outcome Collections)
then_summarize facts now none = none
then_summarize facts now (some r) = some (r >>= summarize facts now)

-- `CollectionService.Summary`, at the time that its call of `clock.Now` returns.
unfoldable pub summary :
    Sources → String → ActivityQueryInput → Instant → Option (Outcome Collections)
unfolding summary_facts collection_series summarize
summary sources auth_id input now = with_result (summary_facts sources auth_id input now) (λ facts.
    then_summarize facts now
      (collection_series facts.query facts.snapshot.series facts.current facts.location))
