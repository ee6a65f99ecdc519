-- ===== src/Time.antt =====
-- What the code uses of Go's `time`. An instant is the number of nanoseconds since the least one
-- that `time.Time` represents, so the zero time of Go is not the number 0. Locations are left out:
-- `UTC()` keeps the instant, and every comparison in the code is one of instants.
use loresuelvo_api.Common.{ℕ, ◌-◌, ◌*◌, ◌^◌, ◌%◌, Bool, ltb, ◌==◌}

abbrev pub Instant : Type 0
Instant = ℕ

abbrev pub second : ℕ
second = 1_000_000_000

abbrev pub minute : ℕ
minute = 60 * second

abbrev pub hour : ℕ
hour = 60 * minute

-- `time.Time{}`: the seconds are a signed 64-bit count from there.
abbrev pub zero_time : Instant
zero_time = 2 ^ 63 * second

abbrev pub is_zero_time : Instant → Bool
is_zero_time t = t == zero_time

abbrev pub before : Instant → Instant → Bool
before t u = ltb t u

abbrev pub after : Instant → Instant → Bool
after t u = ltb u t

-- `t.Truncate(time.Microsecond)`
abbrev pub truncate_to_microsecond : Instant → Instant
truncate_to_microsecond t = t - t % 1000
