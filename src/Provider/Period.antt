-- ===== src/Provider/Period.antt =====
-- internal/domain/provider/{activity_query,statistics_period}.go: the period of a query and the
-- calendar buckets that it falls into.
pub mod Calendar
use loresuelvo_api.Common.{
  ℕ, ◌+◌, ◌-◌, ◌*◌, ◌%◌, String, Bool, true, false, not, ◌||◌, ◌=ₛ◌, Option, none, some, Result, ok,
  err, ◌>>=◌, if◌then◌else◌, ℤ, pos, ◌+ℤ◌, ◌-ℤ◌, ◌≤ℤ◌, ◌≤◌, ◌<◌, ◌≡◌, arith, sub_int64, is_some,
  ltb,
}
use loresuelvo_api.Errors.{Outcome, ProviderError, provider}
use loresuelvo_api.Time.{Instant, hour, before, after, is_zero_time}

pub data Granularity : Type 0 where
  day week month : Granularity

abbrev pub activity_max_duration : ℕ
activity_max_duration = 365 * (24 * hour)

abbrev pub activity_default_duration : ℕ
activity_default_duration = 30 * (24 * hour)

pub record ActivityQueryInput : Type 0 where
  pub from : Option Instant
  pub to : Option Instant
  pub granularity : String
  pub compare_previous : Bool

pub record ActivityQuery : Type 0 where
  pub from : Instant
  pub to : Instant
  pub granularity : Granularity
  pub compare_previous : Bool

pub record ActivityPeriod : Type 0 where
  pub from : Instant
  pub to : Instant

pub record Date : Type 0 where
  pub year : ℤ
  pub month : ℤ
  pub day : ℤ

-- A `*time.Location` as the code uses it: `t.In(loc).Date()`, `t.In(loc).Weekday()` from Sunday on,
-- `time.Date(…, 0, 0, 0, 0, loc)` and `t.In(loc).AddDate(0, months, days)`.
pub record Location : Type 0 where
  pub date : Instant → Date
  pub weekday : Instant → ℕ
  pub midnight : Date → Instant
  pub add_date : Instant → ℕ → ℕ → Instant

unfoldable pub previous_period : ActivityQuery → ActivityPeriod
previous_period q = record { from = q.from - (q.to - q.from); to = q.from }

-- `start`, `end` before they are judged.
abbrev pub bounds_or_default : Instant → Option Instant → Option Instant → Instant × Instant
bounds_or_default now (some from) (some to) = (from, to)
bounds_or_default now _ _ = (now - activity_default_duration, now)

-- `(from == nil) != (to == nil)`
abbrev pub half_given : Option Instant → Option Instant → Bool
half_given (some _) (some _) = false
half_given none none = false
half_given _ _ = true

unfoldable pub resolve_statistics_period :
    Instant → Option Instant → Option Instant → Option (Instant × Instant)
resolve_statistics_period now from to =
    let (start, end) = bounds_or_default now from to in
    if half_given from to
    then none
    else if is_zero_time start
        || is_zero_time end
        || not (before start end)
        || after end now
        || ltb activity_max_duration (end - start)
    then none
    else some (start, end)

unfoldable pub granularity_of : String → Outcome Granularity
granularity_of text =
    if (text =ₛ "") || (text =ₛ "day")
    then ok day
    else if text =ₛ "week"
    then ok week
    else if text =ₛ "month"
    then ok month
    else err (provider ProviderError.invalid_activity_query)

abbrev pub valid_period : Option (Instant × Instant) → Outcome (Instant × Instant)
valid_period none = err (provider ProviderError.invalid_activity_query)
valid_period (some period) = ok period

unfoldable pub resolve : ActivityQueryInput → Instant → Outcome ActivityQuery
unfolding resolve_statistics_period granularity_of
resolve input now = do
  period ← valid_period (resolve_statistics_period now input.from input.to)
  granularity ← granularity_of input.granularity
  ok (record {
    from = period.0;
    to = period.1;
    granularity = granularity;
    compare_previous = input.compare_previous;
  })

abbrev pub bucket_date : Granularity → Location → Instant → Date → Date
bucket_date week location at date = record date {
  day = sub_int64 date.day (pos ((location.weekday at + 6) % 7));
}
bucket_date month location at date = record date { day = pos 1 }
bucket_date day location at date = date

unfoldable pub activity_bucket_start : Instant → Granularity → Location → Instant
activity_bucket_start at granularity location =
    location.midnight (bucket_date granularity location at (location.date at))

unfoldable pub next_activity_bucket : Instant → Granularity → Location → Instant
next_activity_bucket start week location = location.add_date start 0 7
next_activity_bucket start month location = location.add_date start 1 0
next_activity_bucket start day location = location.add_date start 0 1
