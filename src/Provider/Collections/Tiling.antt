-- ===== src/Provider/Collections/Tiling.antt =====
-- The series of collections over a period (internal/domain/provider/collection_service.go).
use loresuelvo_api.Common.{
  ℕ, ◌<◌, ◌≡◌, refl, sym, ◌∙◌, ap, subst, arith, Bool, false, ◌||◌, List, [], ◌∷◌, ◌++◌, ok, ℤ, pos,
  ◌+ℤ◌, ◌≤ℤ◌, add_int64, sub_int64, IsInt64, ltb_ℤ, negsuc, wrap_int64, ◌-ℤ◌, ok-inj, All, inl, inr,
  Bool-cases, Result-cases, is_some, +ℤ_parts, eq_of_parts,
}
use loresuelvo_api.Time.{Instant}
use loresuelvo_api.Provider.Period.{ActivityQuery, Location, next_activity_bucket}
use loresuelvo_api.Provider.Period.Calendar.{IsCalendar, next_activity_bucket_later}
use loresuelvo_api.Provider.Collections.{
  CollectionAmounts, CollectionBucket, Progress, complete_collection_amounts, bucket_at, amounts_at,
  index_buckets, is_off_grid, later_of, earlier_of, collect_bucket, exceeds,
}

-- The buckets follow one another without a gap from `lo` to `hi`, and none is empty.
abbrev pub Tiles : Instant → Instant → List CollectionBucket → Type 0
Tiles lo hi [] = lo ≡ hi
Tiles lo hi (b ∷ bs) = (b.from ≡ lo) × (lo < b.to) × Tiles b.to hi bs

-- The exact sum of an amount over the buckets.
abbrev pub sum_by : (CollectionAmounts → ℤ) → List CollectionBucket → ℤ
sum_by f [] = pos 0
sum_by f (b ∷ bs) = f b.amounts +ℤ sum_by f bs

Tiles-append :
    (lo mid : Instant) (bs : List CollectionBucket) (b : CollectionBucket)
    → Tiles lo mid bs
    → b.from ≡ mid
    → mid < b.to
    → Tiles lo b.to (bs ++ b ∷ [])
Tiles-append lo mid [] b h e l = (e ∙ sym h, subst (λ x. x < b.to) (sym h) l, refl)
Tiles-append lo mid (c ∷ bs) b (p, q, h) e l = (p, q, Tiles-append c.to mid bs b h e l)

+ℤ_zero : (a : ℤ) → a +ℤ pos 0 ≡ pos 0 +ℤ a
unfolding ◌+ℤ◌
+ℤ_zero a = ground arith

+ℤ_assoc : (a b c : ℤ) → (a +ℤ b) +ℤ c ≡ a +ℤ (b +ℤ c)
+ℤ_assoc a b c = omega (arith, +ℤ_parts, eq_of_parts)

sum_by-append :
    (f : CollectionAmounts → ℤ) (bs : List CollectionBucket) (b : CollectionBucket)
    → sum_by f (bs ++ b ∷ []) ≡ sum_by f bs +ℤ f b.amounts
sum_by-append f [] b = +ℤ_zero (f b.amounts)
sum_by-append f (c ∷ bs) b =
    ap (λ s. f c.amounts +ℤ s) (sum_by-append f bs b)
    ∙ sym (+ℤ_assoc (f c.amounts) (sum_by f bs) (f b.amounts))

-- A counter that stays within its total is counted without wrapping.
counted :
    (total sum n : ℤ)
    → IsInt64 total
    → pos 0 ≤ℤ sum
    → sum ≤ℤ total
    → pos 0 ≤ℤ n
    → ltb_ℤ (sub_int64 total sum) n ≡ false
    → (add_int64 sum n ≡ sum +ℤ n) × (pos 0 ≤ℤ sum +ℤ n) × (sum +ℤ n ≤ℤ total)
unfolding ltb_ℤ sub_int64 add_int64 wrap_int64 ◌+ℤ◌ ◌-ℤ◌
counted (pos t) (pos s) (pos n) i h k l e = ground arith
counted (negsuc t) (pos s) n i h k l e = absurd (omega arith)
counted total (negsuc s) n i h k l e = absurd (omega arith)
counted (pos t) (pos s) (negsuc n) i h k l e = absurd (omega arith)

abbrev pub Counted : CollectionAmounts → Type 0
Counted a = (pos 0 ≤ℤ a.booking_deposit_cents) × (pos 0 ≤ℤ a.service_balance_cents)

abbrev pub InRange : CollectionAmounts → Type 0
InRange a = IsInt64 a.booking_deposit_cents × IsInt64 a.service_balance_cents × Counted a

pub complete_collection_amounts-Counted :
    (a a' : CollectionAmounts) → complete_collection_amounts a ≡ ok a' → Counted a'
unfolding complete_collection_amounts ltb_ℤ
complete_collection_amounts-Counted a a' h = ground arith

amounts_at-Counted :
    (start : Instant) (bs : List CollectionBucket)
    → All (λ b. Counted b.amounts) bs
    → Counted (amounts_at (bucket_at start bs))
amounts_at-Counted start [] h = ground arith
amounts_at-Counted start (b ∷ bs) (h, hs) = ground (arith, amounts_at-Counted start bs hs)

pub or-eq-false : (a b : Bool) → (a || b) ≡ false → (a ≡ false) × (b ≡ false)
or-eq-false a b h = ground arith

le_trans_lt : {a b d : ℕ} → a < b → b < d → a < d
le_trans_lt h k = omega arith

module _ (query : ActivityQuery) (location : Location) where
  index_buckets-step :
      (first : Instant) (kept sparse by_start : List CollectionBucket) (b : CollectionBucket)
      → index_buckets query location first kept (b ∷ sparse) ≡ ok by_start
      → (amounts : CollectionAmounts) × (complete_collection_amounts b.amounts ≡ ok amounts)
        × (index_buckets query location first (record b { amounts = amounts } ∷ kept) sparse
            ≡ ok by_start)
  unfolding index_buckets
  index_buckets-step first kept sparse by_start b e =
      elim (Bool-cases (is_off_grid query location first b.from)) [
        | inl p ↦ absurd (cc (rw p at e))
        | inr p ↦ elim (Bool-cases (is_some (bucket_at b.from kept))) [
          | inl q ↦ absurd (cc (rw q at (rw p at e)))
          | inr q ↦ elim (Result-cases (complete_collection_amounts b.amounts)) [
            | inr (x, r) ↦ absurd (cc (rw r at (rw q at (rw p at e))))
            | inl (a, r) ↦ (a, r, rw r at (rw q at (rw p at e)))
          ]
        ]
      ]

  pub index_buckets-Counted :
      (first : Instant) (kept sparse by_start : List CollectionBucket)
      → All (λ b. Counted b.amounts) kept
      → index_buckets query location first kept sparse ≡ ok by_start
      → All (λ b. Counted b.amounts) by_start
  unfolding index_buckets
  index_buckets-Counted first kept [] by_start h e =
      subst (All (λ b. Counted b.amounts)) (ok-inj kept by_start e) h
  index_buckets-Counted first kept (b ∷ sparse) by_start h e =
      let (amounts, r, s) = index_buckets-step first kept sparse by_start b e in
      index_buckets-Counted first (record b { amounts = amounts } ∷ kept) sparse by_start
        (complete_collection_amounts-Counted b.amounts amounts r, h) s

  module _ (totals : CollectionAmounts) (by_start : List CollectionBucket) (c : IsCalendar location)
      (range : InRange totals) (known : All (λ b. Counted b.amounts) by_start)
      (ordered : query.from < query.to) where
    abbrev pub next : Instant → Instant
    next start = next_activity_bucket start query.granularity location

    -- Where the series has come to before the bucket that starts at `start`.
    abbrev pub reached : Instant → Instant
    reached start = earlier_of (later_of start query.from) query.to

    pub record Covers (start : Instant) (p : Progress) : Type 0 where
      pub tiles : Tiles query.from (reached start) p.series
      pub reaches : query.from < next start
      pub deposits : sum_by (λ a. a.booking_deposit_cents) p.series ≡ p.deposits
      pub deposits_low : pos 0 ≤ℤ p.deposits
      pub deposits_high : p.deposits ≤ℤ totals.booking_deposit_cents
      pub balances : sum_by (λ a. a.service_balance_cents) p.series ≡ p.balances
      pub balances_low : pos 0 ≤ℤ p.balances
      pub balances_high : p.balances ≤ℤ totals.service_balance_cents

    abbrev tile : Instant → CollectionBucket
    tile start = record {
      from = later_of start query.from;
      to = earlier_of (next start) query.to;
      amounts = amounts_at (bucket_at start by_start);
    }

    tile-Tiles :
        (start : Instant) (bs : List CollectionBucket)
        → start < query.to
        → query.from < next start
        → Tiles query.from (reached start) bs
        → Tiles query.from (reached (next start)) (bs ++ tile start ∷ [])
    tile-Tiles start bs h r tiles =
        subst (λ x. Tiles query.from x (bs ++ tile start ∷ [])) (ground arith)
          (Tiles-append query.from (reached start) bs (tile start) tiles (ground arith)
            (ground (arith, next_activity_bucket_later c start query.granularity)))

    abbrev progressed : Instant → Progress → Progress
    progressed start p = record {
      deposits = add_int64 p.deposits (tile start).amounts.booking_deposit_cents;
      balances = add_int64 p.balances (tile start).amounts.service_balance_cents;
      series = p.series ++ tile start ∷ [];
    }

    within_totals :
        (start : Instant) (p p' : Progress)
        → collect_bucket query location totals by_start start p ≡ ok p'
        → (exceeds totals p (tile start).amounts ≡ false) × (progressed start p ≡ p')
    unfolding collect_bucket
    within_totals start p p' e = elim (Bool-cases (exceeds totals p (tile start).amounts)) [
      | inl x ↦ absurd (cc (rw x at e))
      | inr x ↦ (x, ok-inj (progressed start p) p' (rw x at e))
    ]

    pub collect_bucket-Covers :
        (start : Instant) (p p' : Progress)
        → start < query.to
        → Covers start p
        → collect_bucket query location totals by_start start p ≡ ok p'
        → Covers (next start) p'
    unfolding collect_bucket
    collect_bucket-Covers start p p' h v e =
        let amounts = amounts_at (bucket_at start by_start) in
        let (low, high) = amounts_at-Counted start by_start known in
        let (test, same) = within_totals start p p' e in
        let (t, u) = or-eq-false _ _ test in
        let (d, dl, dh) =
          counted totals.booking_deposit_cents p.deposits amounts.booking_deposit_cents range.0
            v.deposits_low v.deposits_high low t in
        let (b, bl, bh) =
          counted totals.service_balance_cents p.balances amounts.service_balance_cents range.1
            v.balances_low v.balances_high high u in
        subst (Covers (next start)) same (record {
          tiles = tile-Tiles start p.series h v.reaches v.tiles;
          reaches =
              le_trans_lt v.reaches (next_activity_bucket_later c (next start) query.granularity);
          deposits =
              sum_by-append _ p.series (tile start)
              ∙ ap (λ s. s +ℤ amounts.booking_deposit_cents) v.deposits
              ∙ sym d;
          deposits_low = rw d dl;
          deposits_high = rw d dh;
          balances =
              sum_by-append _ p.series (tile start)
              ∙ ap (λ s. s +ℤ amounts.service_balance_cents) v.balances
              ∙ sym b;
          balances_low = rw b bl;
          balances_high = rw b bh;
        })
