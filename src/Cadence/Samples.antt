-- ===== src/Cadence/Samples.antt =====
-- The proactive check-in's cadence: every four hours, silent from 22:00 to 07:00.
use shelldon.Base.{ℕ, ◌*◌, ◌≡◌, refl}
use shelldon.Base.Result.{err, value_error}
use shelldon.Base.Time.{Instant}
use shelldon.Cadence.{Cadence, interval, quiet_hours, new_quiet_hours}

abbrev hour : ℕ
hour = 3_600_000_000

abbrev proactive : Cadence
proactive = quiet_hours (interval (4 * hour)) (22 * hour) (7 * hour)

abbrev utc : Instant → ℕ
utc t = t

empty_window_is_rejected : new_quiet_hours (interval hour) hour hour ≡ err value_error
unfolding new_quiet_hours
empty_window_is_rejected = refl
