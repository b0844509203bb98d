-- ===== src/Cadence/Quiet.antt =====
-- Quiet hours, and the battery stretch.
use shelldon.Base.{
  ℕ, ◌+◌, ◌-◌, ◌*◌, ◌%◌, ◌≤◌, ◌<◌, ◌≡◌, ◌≢◌, ◌↔◌, refl, Option, none, some, true, false, arith,
}
use shelldon.Base.Time.{Instant, day_us, time_of_day}
use shelldon.Cadence.{Cadence, interval, idle, daily, quiet_hours, in_quiet, is_due}

-- The window `[start, end)` is an arc of the day's circle: a time is in it exactly when it is less
-- far after the start than the end is, counted round midnight.
pub in_quiet_iff :
    (start end_ t : ℕ)
    → start < day_us
    → end_ < day_us
    → t < day_us
    → start ≢ end_
    → (in_quiet start end_ t ≡ true)
      ↔ ((t + day_us - start) % day_us < (end_ + day_us - start) % day_us)
unfolding in_quiet
in_quiet_iff start end_ t hs he ht ne = (λ h. ground arith, λ h. ground arith)

-- Inside its window a wrapped cadence is never due; outside, the window changes nothing.
pub quiet_hours_due :
    (zone : Instant → ℕ) (c : Cadence) (start end_ now : ℕ) (ran touched : Option Instant)
    (scale : ℕ)
    → (in_quiet start end_ (time_of_day (zone now)) ≡ true
        → is_due zone (quiet_hours c start end_) now ran touched scale ≡ false)
      × (in_quiet start end_ (time_of_day (zone now)) ≡ false
          → is_due zone (quiet_hours c start end_) now ran touched scale
            ≡ is_due zone c now ran touched scale)
unfolding is_due
quiet_hours_due zone c start end_ now ran touched scale = (λ h. ground arith, λ h. ground arith)

mul_mono : (p a b : ℕ) → a ≤ b → p * a ≤ p * b
mul_mono p a b h = grind arith

-- A stretched job fires less often, never more: what is due at a larger scale is due at a smaller.
is_due-stretch :
    (zone : Instant → ℕ) (c : Cadence) (now : ℕ) (ran touched : Option Instant) (a b : ℕ)
    → a ≤ b
    → is_due zone c now ran touched b ≡ true
    → is_due zone c now ran touched a ≡ true
unfolding is_due
is_due-stretch zone (interval p) now none touched a b le h = refl
is_due-stretch zone (interval p) now (some r) touched a b le h = ground (arith, mul_mono p a b)
is_due-stretch zone (idle p) now ran none a b le h = cc
is_due-stretch zone (idle p) now ran (some i) a b le h = ground (arith, mul_mono p a b)
is_due-stretch zone (daily at) now ran touched a b le h = h
is_due-stretch zone (quiet_hours c start end_) now ran touched a b le h =
    ground (arith, is_due-stretch zone c now ran touched a b)
