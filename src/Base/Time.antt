-- ===== src/Base/Time.antt =====
-- Instants, stored stamps and wall-clock times.
-- An instant of the (tz-aware, UTC) clock is the number of microseconds since the epoch, and
-- durations are microseconds too. A stamp is what `datetime.fromisoformat` makes of a stored
-- string: an aware instant, or nothing usable (unparseable, or tz-naive). `isoformat` of an aware
-- instant is the stamp `aware t`.
use Prim.Native.Nat.{ℕ, ◌/◌, ◌%◌}

abbrev pub Instant : Type 0
Instant = ℕ

pub data Stamp : Type 0 where
  aware : Instant → Stamp
  unusable : Stamp

abbrev pub day_us : ℕ
day_us = 86_400_000_000

-- The calendar day and the time of day of a wall clock that shows `t`.
abbrev pub date_of : ℕ → ℕ
date_of t = t / day_us

abbrev pub time_of_day : ℕ → ℕ
time_of_day t = t % day_us
