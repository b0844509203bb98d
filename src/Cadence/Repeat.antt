-- ===== src/Cadence/Repeat.antt =====
-- How soon a job that ran can be due again.
use shelldon.Base.{ℕ, ◌+◌, ◌*◌, ◌≤◌, ◌<◌, ◌≡◌, refl, Option, none, some, false, arith}
use shelldon.Base.Time.{Instant, date_of}
use shelldon.Cadence.{Cadence, interval, idle, daily, quiet_hours, is_due}
use shelldon.Power.{one}

-- After a run at `t`, a job is held back until `now` has left behind what its cadence asks for:
-- a period, a fresh interaction, or the day.
abbrev pub Held : Cadence → ℕ → ℕ → Option Instant → Type 0
Held (interval p) t now touched = now < t + p
Held (idle p) t now none = Unit
Held (idle p) t now (some i) = i < t
Held (daily at) t now touched = date_of now ≤ date_of t
Held (quiet_hours c start end_) t now touched = Held c t now touched

period-le-scaled : (p scale : ℕ) → one ≤ scale → p * one ≤ p * scale
period-le-scaled p scale h = grind arith

-- A job that ran at `t` is not due at `now` while it is held: an interval job within its period, an
-- idle job before a fresh interaction, a daily job on the same day, inside quiet hours or not, and
-- however far the battery stretches its cadence.
pub is_due-Held :
    (zone : Instant → ℕ) (c : Cadence) (t now : ℕ) (touched : Option Instant) (scale : ℕ)
    → one ≤ scale
    → Held c t now touched
    → is_due zone c now (some t) touched scale ≡ false
unfolding is_due
is_due-Held zone (interval p) t now touched scale s h = ground (arith, period-le-scaled p scale)
is_due-Held zone (idle p) t now none scale s h = refl
is_due-Held zone (idle p) t now (some i) scale s h = ground arith
is_due-Held zone (daily at) t now touched scale s h = ground arith
is_due-Held zone (quiet_hours c start end_) t now touched scale s h =
    ground (arith, is_due-Held zone c t now touched scale)
