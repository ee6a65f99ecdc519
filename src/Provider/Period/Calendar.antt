-- ===== src/Provider/Period/Calendar.antt =====
-- What the buckets of internal/domain/provider/activity_query.go rely on in a time zone.
use loresuelvo_api.Common.{ℕ, ◌+◌, ◌%◌, ◌≤◌, ◌<◌, ◌≡◌, ℤ, pos, ◌+ℤ◌, ◌-ℤ◌, ◌≤ℤ◌, sub_int64, arith}
use loresuelvo_api.Time.{Instant}
use loresuelvo_api.Provider.Period.{
  Granularity, Location, day, week, month, activity_bucket_start, next_activity_bucket,
}

-- What the code relies on in a location: the midnight of a day of the same month that is no later
-- than the day of `t` is not after `t`; days and months are counted on from there past `t`; and
-- adding days or months goes forward.
pub record IsCalendar (location : Location) : Type 0 where
  pub in_month :
      (t : Instant)
      → (pos 1 ≤ℤ (location.date t).day)
        × ((location.date t).day ≤ℤ pos 31)
        × (location.weekday t ≤ 6)
  pub midnight_before :
      (t : Instant) (d : ℤ)
      → d ≤ℤ (location.date t).day
      → location.midnight (record (location.date t) { day = d }) ≤ t
  pub days_counted :
      (t : Instant) (d : ℤ) (n : ℕ)
      → (location.date t).day +ℤ pos 1 ≤ℤ d +ℤ pos n
      → t < location.add_date (location.midnight (record (location.date t) { day = d })) 0 n
  pub month_counted :
      (t : Instant)
      → t < location.add_date (location.midnight (record (location.date t) { day = pos 1 })) 1 0
  pub forward :
      (t : Instant) (months days : ℕ) → 0 < months + days → t < location.add_date t months days

int_le_refl : (a : ℤ) → a ≤ℤ a
int_le_refl a = omega arith

sub_le : (d : ℤ) (k : ℕ) → d -ℤ pos k ≤ℤ d
unfolding ◌-ℤ◌
sub_le d k = ground arith

week_reach : (d : ℤ) (k : ℕ) → k ≤ 6 → d +ℤ pos 1 ≤ℤ (d -ℤ pos k) +ℤ pos 7
unfolding ◌-ℤ◌ ◌+ℤ◌
week_reach d k h = ground arith

module _ {location : Location} (c : IsCalendar location) where
  pub next_activity_bucket_later :
      (t : Instant) (g : Granularity) → t < next_activity_bucket t g location
  unfolding next_activity_bucket
  next_activity_bucket_later t day = c.forward t 0 1 (omega arith)
  next_activity_bucket_later t week = c.forward t 0 7 (omega arith)
  next_activity_bucket_later t month = c.forward t 1 0 (omega arith)

  week_offset : (t : Instant) → (location.weekday t + 6) % 7 ≤ 6
  week_offset t = omega arith

  week_day : (d : ℤ) (k : ℕ) → pos 1 ≤ℤ d → d ≤ℤ pos 31 → k ≤ 6 → sub_int64 d (pos k) ≡ d -ℤ pos k
  unfolding sub_int64
  week_day d k h l m = ground arith

  -- The bucket of a time begins at or before it and ends after it.
  pub activity_bucket_start_bounds :
      (t : Instant) (g : Granularity)
      → (activity_bucket_start t g location ≤ t)
        × (t < next_activity_bucket (activity_bucket_start t g location) g location)
  unfolding activity_bucket_start next_activity_bucket
  activity_bucket_start_bounds t day = (
    c.midnight_before t (location.date t).day (int_le_refl (location.date t).day),
    c.days_counted t (location.date t).day 1 (int_le_refl ((location.date t).day +ℤ pos 1)),
  )
  activity_bucket_start_bounds t week =
      let d = (location.date t).day in
      let k = (location.weekday t + 6) % 7 in
      let (low, high, w) = c.in_month t in
      let e = week_day d k low high (week_offset t) in
      (
        rw (e, activity_bucket_start, next_activity_bucket)
            (c.midnight_before t (d -ℤ pos k) (sub_le d k)),
        rw (e, activity_bucket_start, next_activity_bucket)
            (c.days_counted t (d -ℤ pos k) 7 (week_reach d k (week_offset t))),
      )
  activity_bucket_start_bounds t month =
      (c.midnight_before t (pos 1) (c.in_month t).0, c.month_counted t)
