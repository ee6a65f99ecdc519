-- ===== src/Witnesses/Providers.antt =====
-- A calendar of months of 28 days, and a provider whose collections are summed up.
use loresuelvo_api.Common.{
  ℕ, ◌+◌, ◌-◌, ◌*◌, ◌/◌, ◌%◌, ◌≤◌, ◌<◌, ◌≡◌, refl, arith, Option, none, some, ok, [], ◌∷◌, ℤ, pos,
  negsuc, pos_part, neg_part, ◌≤ℤ◌, ◌+ℤ◌, ok-inj, ok_in, IsInt64, leb_ℤ, sub_int64, add_int64,
  false, false, subst,
}
use loresuelvo_api.Errors.{Outcome, Error}
use loresuelvo_api.Time.{Instant}
use loresuelvo_api.User.{Role}
use loresuelvo_api.Provider.Period.{
  ActivityQueryInput, ActivityQuery, Location, Granularity, activity_bucket_start,
}
use loresuelvo_api.Provider.Collections.{
  CollectionAmounts, CollectionBucket, CollectionSnapshot, Collections,
}
use loresuelvo_api.Provider.Collections.Service.{Sources, summary}
use loresuelvo_api.Provider.Collections.Summary.{IsSummary, summary_ends, summary-IsSummary}
use loresuelvo_api.Provider.Percent.{percent_change}
use loresuelvo_api.Provider.Percent.Rounding.{IsNearest, percent_change-IsNearest}
use loresuelvo_api.Provider.Period.Calendar.{IsCalendar}

abbrev a_day : ℕ
a_day = 86400000000000

abbrev monthly : Location
monthly = record {
  date = λ t. record { year = pos 0; month = pos (t / a_day / 28); day = pos (t / a_day % 28 + 1) };
  weekday = λ t. t / a_day % 7;
  midnight = λ d. (28 * pos_part d.month + pos_part d.day - neg_part d.day - 1) * a_day;
  add_date = λ t months days. t + (28 * months + days) * a_day;
}

midnight_early :
    (t : Instant) (d : ℤ)
    → d ≤ℤ pos (t / a_day % 28 + 1)
    → (28 * (t / a_day / 28) + pos_part d - neg_part d - 1) * a_day ≤ t
midnight_early t d h = omega arith

midnight_counted :
    (t : Instant) (d : ℤ) (n : ℕ)
    → pos (t / a_day % 28 + 1) +ℤ pos 1 ≤ℤ d +ℤ pos n
    → t < (28 * (t / a_day / 28) + pos_part d - neg_part d - 1) * a_day + (28 * 0 + n) * a_day
unfolding ◌+ℤ◌
midnight_counted t (pos d) n h = ground arith
midnight_counted t (negsuc d) n h = ground arith

monthly-IsCalendar : IsCalendar monthly
monthly-IsCalendar = record {
  in_month = λ t. (omega arith, omega arith, omega arith);
  midnight_before = midnight_early;
  days_counted = midnight_counted;
  month_counted = λ t. omega arith;
  forward = λ t months days h. omega arith;
}

-- Three days of June 2026 or so, in nanoseconds; the zero time of Go is about 9.2e27.
abbrev june : Instant
june = 9223372100000000000000000000

abbrev three_days : ActivityQueryInput
three_days = record {
  from = some (june - 3 * a_day);
  to = some june;
  granularity = "day";
  compare_previous = false;
}

abbrev deposits_of : ℕ → CollectionAmounts
deposits_of n = record {
  booking_deposit_cents = pos n;
  service_balance_cents = pos 0;
  total_cents = pos 0;
}

abbrev collected : CollectionSnapshot
collected = record {
  current = deposits_of 500;
  previous = none;
  series =
      record {
        from = activity_bucket_start (june - a_day) Granularity.day monthly;
        to = june;
        amounts = deposits_of 500;
      }
      ∷ [];
  pending = record {
    scheduled = record { orders = pos 1; amount_cents = pos 100 };
    awaiting_payment = record { orders = pos 0; amount_cents = pos 0 };
  };
}

abbrev sources : Sources
sources = record {
  find_by_auth_id = λ _. ok (pos 7, Role.provider);
  read_summary = λ _ _. ok (some collected);
  load_location = ok monthly;
}

abbrev result_or : Collections → Option (Outcome Collections) → Collections
result_or c (some (ok d)) = d
result_or c _ = c

abbrev bucket : Instant → Instant → ℕ → CollectionBucket
bucket from to n = record {
  from = from;
  to = to;
  amounts = record {
    booking_deposit_cents = pos n;
    service_balance_cents = pos 0;
    total_cents = pos n;
  };
}

abbrev day_of : Instant → Instant
day_of t = activity_bucket_start t Granularity.day monthly

-- The first and the last bucket are cut off by the period.
abbrev three_days_summary : Collections
unfolding activity_bucket_start
three_days_summary = record {
  period = record { from = june - 3 * a_day; to = june };
  granularity = Granularity.day;
  calculated_at = june;
  results = record {
    booking_deposit_cents = pos 500;
    service_balance_cents = pos 0;
    total_cents = pos 500;
  };
  series =
      bucket (june - 3 * a_day) (day_of (june - 2 * a_day)) 0
      ∷ bucket (day_of (june - 2 * a_day)) (day_of (june - a_day)) 0
      ∷ bucket (day_of (june - a_day)) (day_of june) 500
      ∷ bucket (day_of june) june 0
      ∷ [];
  pending = collected.pending;
  comparison = none;
}

summarized : summary sources "auth|7" three_days june ≡ some (ok three_days_summary)
unfolding summary leb_ℤ sub_int64 add_int64
summarized = refl

snapshot-inj : (a b : CollectionSnapshot) → ok_in Error (some a) ≡ ok (some b) → a ≡ b
snapshot-inj a b e = cc

zone : (l : Location) → ok_in Error monthly ≡ ok l → IsCalendar l
zone l e = subst IsCalendar (ok-inj monthly l e) monthly-IsCalendar

collected-IsInt64 :
    (id : ℤ) (query : ActivityQuery) (s : CollectionSnapshot)
    → sources.read_summary id query ≡ ok (some s)
    → IsInt64 s.current.booking_deposit_cents × IsInt64 s.current.service_balance_cents
collected-IsInt64 id query s e =
    subst (λ c. IsInt64 c.current.booking_deposit_cents × IsInt64 c.current.service_balance_cents)
      (snapshot-inj collected s e) (omega arith)

summary_ends_example :
    (s : Outcome Collections) × (summary sources "auth|7" three_days june ≡ some s)
summary_ends_example = summary_ends sources "auth|7" three_days june zone

summary-IsSummary_example : IsSummary june three_days_summary
summary-IsSummary_example =
    summary-IsSummary sources "auth|7" three_days june zone collected-IsInt64 three_days_summary
      summarized

percent_change-IsNearest_example : IsNearest (pos 2) (pos 3) (percent_change (pos 2) (pos 3))
percent_change-IsNearest_example = percent_change-IsNearest (pos 2) (pos 3)
