-- ===== src/Cadence.antt =====
-- The cadences of shelldon/core/scheduler.py: when a job is due. The subclasses of `Cadence` are the
-- constructors, and `is_due` is the overridden method. Periods are microseconds, the battery stretch
-- `scale` is in thousandths, and times of day are microseconds since midnight. `zone` maps an instant
-- to the owner's wall clock; `Daily` reads the UTC clock itself.
pub mod Quiet
pub mod Repeat
pub mod Samples
use shelldon.Base.{
  ℕ, ◌-◌, ◌*◌, Option, none, some, Bool, true, false, not, leb, ltb, ◌==◌, ◌&&◌, ◌||◌,
  if◌then◌else◌,
}
use shelldon.Base.Result.{Result, ok, require, value_error, ◌>>=◌, ◌>>◌}
use shelldon.Base.Time.{Instant, date_of, time_of_day}
use shelldon.Power.{one}

pub data Cadence : Type 0 where
  interval : ℕ → Cadence
  idle : ℕ → Cadence
  daily : ℕ → Cadence
  quiet_hours : Cadence → ℕ → ℕ → Cadence

unfoldable pub new_interval : ℕ → Result Cadence
new_interval p = do require (ltb 0 p) value_error; ok (interval p)

unfoldable pub new_idle : ℕ → Result Cadence
new_idle p = do require (ltb 0 p) value_error; ok (idle p)

-- Bounds that are tz-naive are times of day here, so the check that is left is that they differ.
unfoldable pub new_quiet_hours : Cadence → ℕ → ℕ → Result Cadence
new_quiet_hours c start end_ = do
  require (not (start == end_)) value_error
  ok (quiet_hours c start end_)

-- `(now - then).total_seconds() >= period_s * scale`; a difference below zero never reaches it.
unfoldable pub has_elapsed : Instant → Instant → ℕ → ℕ → Bool
has_elapsed now since period scale = leb since now && leb (period * scale) ((now - since) * one)

-- `last_run is None or last_run <= last_interaction`
unfoldable pub is_rearmed : Option Instant → Instant → Bool
is_rearmed none touched = true
is_rearmed (some r) touched = leb r touched

-- `last_run is None or last_run.date() < now.date()`
unfoldable pub is_new_day : Option Instant → Instant → Bool
is_new_day none now = true
is_new_day (some r) now = ltb (date_of r) (date_of now)

unfoldable pub in_quiet : ℕ → ℕ → ℕ → Bool
in_quiet start end_ t =
    if ltb start end_ then leb start t && ltb t end_ else leb start t || ltb t end_

interval_due : ℕ → Instant → Option Instant → ℕ → Bool
interval_due p now none scale = true
interval_due p now (some r) scale = has_elapsed now r p scale

idle_due : ℕ → Instant → Option Instant → Option Instant → ℕ → Bool
idle_due p now ran none scale = false
idle_due p now ran (some i) scale =
    if not (has_elapsed now i p scale) then false else is_rearmed ran i

module _ (zone : Instant → ℕ) where
  -- `is_due(now, last_run, last_interaction, scale)`
  unfoldable pub is_due : Cadence → Instant → Option Instant → Option Instant → ℕ → Bool
  unfolding interval_due idle_due has_elapsed is_rearmed is_new_day in_quiet
  is_due (interval p) now ran touched scale = interval_due p now ran scale
  is_due (idle p) now ran touched scale = idle_due p now ran touched scale
  is_due (daily at) now ran touched scale =
      if ltb (time_of_day now) at then false else is_new_day ran now
  is_due (quiet_hours c start end_) now ran touched scale =
      if in_quiet start end_ (time_of_day (zone now)) then false else is_due c now ran touched scale
