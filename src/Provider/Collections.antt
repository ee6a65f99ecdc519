-- ===== src/Provider/Collections.antt =====
-- internal/domain/provider/collection_service.go and read_model/collection.go: the amounts collected,
-- and their series over the buckets of a period.
pub mod Service
pub mod Tiling
pub mod Series
pub mod Summary
use loresuelvo_api.Common.{
  ℕ, suc, ◌+◌, ◌-◌, String, Bool, true, false, not, ◌||◌, ◌&&◌, ◌=ₛ◌, List, [], ◌∷◌, ◌++◌, Option,
  none, some, ok, err, ◌>>=◌, ◌>>◌, fail_if, map_err, if◌then◌else◌, ℤ, pos, leb_ℤ, ltb_ℤ, ◌==ℤ◌,
  add_int64, sub_int64, max_int64, is_some, length,
}
use loresuelvo_api.Errors.{
  Error, Outcome, ProviderError, provider, message, wrapped, user_not_found,
}
use loresuelvo_api.Time.{Instant, before, after, is_zero_time}
use loresuelvo_api.User.{Role}
use loresuelvo_api.Work.{or_error}
use loresuelvo_api.Provider.Period.{
  ActivityQueryInput, ActivityQuery, ActivityPeriod, Granularity, Location, previous_period,
  resolve, activity_bucket_start, next_activity_bucket,
}
use loresuelvo_api.Provider.Buckets.{each_bucket}
use loresuelvo_api.Provider.Percent.{Percent, percent_change}

-- read_model/collection.go
pub record CollectionAmounts : Type 0 where
  pub booking_deposit_cents : ℤ
  pub service_balance_cents : ℤ
  pub total_cents : ℤ

pub record CollectionBucket : Type 0 where
  pub from : Instant
  pub to : Instant
  pub amounts : CollectionAmounts

pub record PendingBalance : Type 0 where
  pub orders : ℤ
  pub amount_cents : ℤ

pub record CollectionPending : Type 0 where
  pub scheduled : PendingBalance
  pub awaiting_payment : PendingBalance

pub record CollectionSnapshot : Type 0 where
  pub current : CollectionAmounts
  pub previous : Option CollectionAmounts
  pub series : List CollectionBucket
  pub pending : CollectionPending

pub record CollectionPercentages : Type 0 where
  pub booking_deposit_cents : Option Percent
  pub service_balance_cents : Option Percent
  pub total_cents : Option Percent

pub record CollectionComparison : Type 0 where
  pub period : ActivityPeriod
  pub results : CollectionAmounts
  pub absolute : CollectionAmounts
  pub percentage : CollectionPercentages

pub record Collections : Type 0 where
  pub period : ActivityPeriod
  pub granularity : Granularity
  pub calculated_at : Instant
  pub results : CollectionAmounts
  pub series : List CollectionBucket
  pub pending : CollectionPending
  pub comparison : Option CollectionComparison

abbrev pub no_amounts : CollectionAmounts
no_amounts = record {
  booking_deposit_cents = pos 0;
  service_balance_cents = pos 0;
  total_cents = pos 0;
}

unfoldable pub complete_collection_amounts : CollectionAmounts → Outcome CollectionAmounts
complete_collection_amounts a = do
  fail_if
      (ltb_ℤ a.booking_deposit_cents (pos 0)
        || ltb_ℤ a.service_balance_cents (pos 0)
        || ltb_ℤ (sub_int64 max_int64 a.service_balance_cents) a.booking_deposit_cents)
      (message "collection amounts exceed the supported range")
  ok (record a { total_cents = add_int64 a.booking_deposit_cents a.service_balance_cents })

unfoldable pub validate_collection_pending : CollectionPending → Outcome (Unit {0})
validate_collection_pending p =
    fail_if
      (ltb_ℤ p.scheduled.orders (pos 0)
        || ltb_ℤ p.scheduled.amount_cents (pos 0)
        || ltb_ℤ p.awaiting_payment.orders (pos 0)
        || ltb_ℤ p.awaiting_payment.amount_cents (pos 0))
      (message "collection reader returned invalid pending balances")

-- The map from starts to buckets, as the list of the buckets that it holds.
abbrev pub bucket_at : Instant → List CollectionBucket → Option CollectionBucket
bucket_at start [] = none
bucket_at start (b ∷ bs) =
    if before b.from start || before start b.from then bucket_at start bs else some b

-- The zero bucket for a start that is not in the map.
abbrev pub amounts_at : Option CollectionBucket → CollectionAmounts
amounts_at none = no_amounts
amounts_at (some b) = b.amounts

-- `start.Before(first) || !start.Before(query.To) || !start.Equal(activityBucketStart(start, …))`
abbrev pub is_off_grid : ActivityQuery → Location → Instant → Instant → Bool
is_off_grid query location first start =
    before start first
    || not (before start query.to)
    || before start (activity_bucket_start start query.granularity location)
    || before (activity_bucket_start start query.granularity location) start

-- The loop over the sparse buckets.
unfoldable pub index_buckets :
    ActivityQuery
    → Location
    → Instant
    → List CollectionBucket
    → List CollectionBucket
    → Outcome (List CollectionBucket)
unfolding complete_collection_amounts activity_bucket_start
index_buckets query location first by_start [] = ok by_start
index_buckets query location first by_start (bucket ∷ sparse) = do
  fail_if (is_off_grid query location first bucket.from)
      (message "collection reader returned invalid series bucket")
  fail_if (is_some (bucket_at bucket.from by_start))
      (message "collection reader returned duplicate series bucket")
  amounts ←
      map_err (λ _. message "collection reader returned invalid series amounts")
        (complete_collection_amounts bucket.amounts)
  index_buckets query location first (record bucket { amounts = amounts } ∷ by_start) sparse

-- The variables of the second loop.
pub record Progress : Type 0 where
  pub deposits : ℤ
  pub balances : ℤ
  pub series : List CollectionBucket

abbrev pub later_of : Instant → Instant → Instant
later_of start from = if before start from then from else start

abbrev pub earlier_of : Instant → Instant → Instant
earlier_of end to = if after end to then to else end

abbrev pub nothing_collected : Progress
nothing_collected = record { deposits = pos 0; balances = pos 0; series = [] }

abbrev pub exceeds : CollectionAmounts → Progress → CollectionAmounts → Bool
exceeds totals p amounts =
    ltb_ℤ (sub_int64 totals.booking_deposit_cents p.deposits) amounts.booking_deposit_cents
    || ltb_ℤ (sub_int64 totals.service_balance_cents p.balances) amounts.service_balance_cents

unfoldable pub collect_bucket :
    ActivityQuery
    → Location
    → CollectionAmounts
    → List CollectionBucket
    → Instant
    → Progress
    → Outcome Progress
unfolding next_activity_bucket
collect_bucket query location totals by_start start p = do
  let amounts = amounts_at (bucket_at start by_start)
  fail_if (exceeds totals p amounts) (message "collection series exceeds totals")
  ok (record {
    deposits = add_int64 p.deposits amounts.booking_deposit_cents;
    balances = add_int64 p.balances amounts.service_balance_cents;
    series =
        p.series
        ++ record {
          from = later_of start query.from;
          to = earlier_of (next_activity_bucket start query.granularity location) query.to;
          amounts = amounts;
        }
          ∷ [];
  })

abbrev pub is_inconsistent : CollectionAmounts → Progress → Bool
is_inconsistent totals p =
    not (p.deposits ==ℤ totals.booking_deposit_cents)
    || not (p.balances ==ℤ totals.service_balance_cents)

abbrev pub consistent : CollectionAmounts → Progress → Outcome (List CollectionBucket)
consistent totals p = do
  fail_if (is_inconsistent totals p) (message "collection series is inconsistent with totals")
  ok p.series

abbrev pub then_consistent :
    CollectionAmounts → Option (Outcome Progress) → Option (Outcome (List CollectionBucket))
then_consistent totals none = none
then_consistent totals (some r) = some (r >>= consistent totals)

-- `if err != nil { return nil, err }` before what may run out of fuel.
abbrev pub with_result {ℓ} :
    {A : Type ℓ} {B : Type 0} → Outcome A → (A → Option (Outcome B)) → Option (Outcome B)
with_result (err e) k = some (err e)
with_result (ok a) k = k a

-- With fuel for each nanosecond of the period; `none` means that it ran out.
unfoldable pub collection_series :
    ActivityQuery
    → List CollectionBucket
    → CollectionAmounts
    → Location
    → Option (Outcome (List CollectionBucket))
unfolding index_buckets collect_bucket activity_bucket_start next_activity_bucket each_bucket
collection_series query sparse totals location =
    let first = activity_bucket_start query.from query.granularity location in
    with_result (index_buckets query location first [] sparse) (λ by_start. then_consistent totals (
      each_bucket (suc (query.to - first))
        (λ start. next_activity_bucket start query.granularity location) query.to
        (collect_bucket query location totals by_start) first
        (record { deposits = pos 0; balances = pos 0; series = [] })))

abbrev pub is_user_not_found : Error → Bool
is_user_not_found user_not_found = true
is_user_not_found (wrapped s e) = is_user_not_found e
is_user_not_found _ = false

abbrev pub is_provider : Role → Bool
is_provider Role.provider = true
is_provider _ = false

abbrev pub actor_error : String → Error → Error
actor_error text e =
    if is_user_not_found e
    then provider ProviderError.activity_provider_not_found
    else wrapped text e
