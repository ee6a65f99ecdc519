-- ===== src/Provider/Activity.antt =====
-- internal/domain/provider/activity_service.go: the results of a period and their changes.
pub mod Query
use loresuelvo_api.Common.{
  ℕ, suc, ◌+◌, ◌-◌, ◌*◌, ◌/◌, ◌%◌, String, Bool, true, false, not, ◌||◌, List, [], ◌∷◌, ◌++◌,
  Option, none, some, ok, err, ◌>>=◌, ◌>>◌, fail_if, map_err, if◌then◌else◌, ℤ, pos, leb_ℤ, ltb_ℤ,
  ◌==ℤ◌, add_int64, sub_int64, is_some, zero, negsuc, quot_int64, rem_int64,
}
use loresuelvo_api.Errors.{Error, Outcome, ProviderError, provider, message, wrapped}
use loresuelvo_api.Time.{Instant, before, after}
use loresuelvo_api.User.{Role}
use loresuelvo_api.Work.{or_error}
use loresuelvo_api.Provider.Period.{
  ActivityQueryInput, ActivityQuery, ActivityPeriod, Granularity, Location, previous_period,
  resolve, activity_bucket_start, next_activity_bucket,
}
use loresuelvo_api.Provider.Buckets.{each_bucket}
use loresuelvo_api.Provider.Percent.{Percent, percent_change}
use loresuelvo_api.Provider.Collections.{
  with_result, actor_error, is_provider, later_of, earlier_of, is_off_grid,
}

-- read_model/activity.go
pub record ActivityCounts : Type 0 where
  pub confirmed : ℤ
  pub reported : ℤ
  pub paid : ℤ
  pub customers : ℤ
  pub new_customers : ℤ
  pub returning_customers : ℤ
  pub contract_value_cents : ℤ

pub record ActivityBucket : Type 0 where
  pub from : Instant
  pub to : Instant
  pub confirmed : ℤ
  pub reported : ℤ
  pub paid : ℤ

pub record ActivityPending : Type 0 where
  pub requests : ℤ
  pub scheduled : ℤ
  pub awaiting_payment : ℤ

pub record ActivitySnapshot : Type 0 where
  pub current : ActivityCounts
  pub previous : Option ActivityCounts
  pub series : List ActivityBucket
  pub pending : ActivityPending

pub record ActivityResults : Type 0 where
  pub counts : ActivityCounts
  pub average_cents : Option ℤ

pub record ActivityChange : Type 0 where
  pub counts : ActivityCounts
  pub average_cents : Option ℤ

pub record ActivityPercentChange : Type 0 where
  pub confirmed : Option Percent
  pub reported : Option Percent
  pub paid : Option Percent
  pub customers : Option Percent
  pub new_customers : Option Percent
  pub returning_customers : Option Percent
  pub contract_value_cents : Option Percent
  pub average_cents : Option Percent

pub record ActivityComparison : Type 0 where
  pub period : ActivityPeriod
  pub results : ActivityResults
  pub change : ActivityChange
  pub percent_change : ActivityPercentChange

pub record Activity : Type 0 where
  pub period : ActivityPeriod
  pub granularity : Granularity
  pub calculated_at : Instant
  pub results : ActivityResults
  pub series : List ActivityBucket
  pub pending : ActivityPending
  pub comparison : Option ActivityComparison

-- Rounded half up: the remainder of a negative value never reaches half of the divisor.
abbrev pub average_of : ℤ → ℕ → ℤ
average_of n d =
    let q = quot_int64 n d in
    if leb_ℤ (pos (d / 2 + d % 2)) (rem_int64 n d) then add_int64 q (pos 1) else q

abbrev pub average_for : ℤ → ℤ → Option ℤ
average_for n (pos zero) = none
average_for n (pos (suc d)) = some (average_of n (suc d))
average_for n (negsuc _) = none

unfoldable pub activity_results : ActivityCounts → ActivityResults
unfolding quot_int64 rem_int64
activity_results c = record {
  counts = c;
  average_cents = average_for c.contract_value_cents c.reported;
}

abbrev pub both {ℓ} : {A : Type ℓ} → (ℤ → ℤ → A) → Option ℤ → Option ℤ → Option A
both f (some a) (some b) = some (f a b)
both f _ _ = none

unfoldable pub activity_change : ActivityResults → ActivityResults → ActivityChange
unfolding sub_int64
activity_change current previous =
    let c = current.counts in
    let p = previous.counts in
    record {
      counts = record {
        confirmed = sub_int64 c.confirmed p.confirmed;
        reported = sub_int64 c.reported p.reported;
        paid = sub_int64 c.paid p.paid;
        customers = sub_int64 c.customers p.customers;
        new_customers = sub_int64 c.new_customers p.new_customers;
        returning_customers = sub_int64 c.returning_customers p.returning_customers;
        contract_value_cents = sub_int64 c.contract_value_cents p.contract_value_cents;
      };
      average_cents = both sub_int64 current.average_cents previous.average_cents;
    }

abbrev pub percent_of_both : Option ℤ → Option ℤ → Option Percent
percent_of_both (some a) (some b) = percent_change a b
percent_of_both _ _ = none

unfoldable pub activity_percent_change : ActivityResults → ActivityResults → ActivityPercentChange
unfolding percent_change
activity_percent_change current previous =
    let c = current.counts in
    let p = previous.counts in
    record {
      confirmed = percent_change c.confirmed p.confirmed;
      reported = percent_change c.reported p.reported;
      paid = percent_change c.paid p.paid;
      customers = percent_change c.customers p.customers;
      new_customers = percent_change c.new_customers p.new_customers;
      returning_customers = percent_change c.returning_customers p.returning_customers;
      contract_value_cents = percent_change c.contract_value_cents p.contract_value_cents;
      average_cents = percent_of_both current.average_cents previous.average_cents;
    }
