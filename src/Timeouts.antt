-- ===== src/Timeouts.antt =====
-- shelldon/timeouts.py: the chain of turn timeouts that one variable drives. Seconds are thousandths.
-- `float` is Python's own: an argument, which has no result where it raises.
pub mod Chain
pub mod Samples
use shelldon.Base.{ℕ, ◌-◌, Option, none, some, List, [], ◌∷◌, ltb, if◌then◌else◌}
use shelldon.Base.Text.{Text}

-- A parsed float: a number from zero up, in thousandths, a number below zero, infinity, or NaN; a
-- `huge` one, from about 2 ^ 53 seconds up, is finite, but floats there are so far apart that a margin
-- can be rounded away.
pub data Seconds : Type 0 where
  finite : ℕ → Seconds
  negative huge infinite nan : Seconds

abbrev pub default_turn_timeout : ℕ
default_turn_timeout = 30_000

abbrev pub reap_margin : ℕ
reap_margin = 2000

abbrev pub completion_margin : ℕ
completion_margin = 5000

abbrev pub min_turn_timeout : ℕ
min_turn_timeout = 15_000

-- `t` clamped to the floor. Infinity and NaN are not below it.
unfoldable pub clamp_timeout : Seconds → Seconds
clamp_timeout (finite t) = if ltb t min_turn_timeout then finite min_turn_timeout else finite t
clamp_timeout negative = finite min_turn_timeout
clamp_timeout huge = huge
clamp_timeout infinite = infinite
clamp_timeout nan = nan

parsed_timeout : Option Seconds → Seconds
unfolding clamp_timeout
parsed_timeout none = finite default_turn_timeout
parsed_timeout (some t) = clamp_timeout t

unfoldable pub resolve_turn_timeout : (Text → Option Seconds) → Option Text → Seconds
unfolding parsed_timeout
resolve_turn_timeout parse none = finite default_turn_timeout
resolve_turn_timeout parse (some []) = finite default_turn_timeout
resolve_turn_timeout parse (some (c ∷ cs)) = parsed_timeout (parse (c ∷ cs))

-- `TURN_TIMEOUT - margin`
unfoldable pub minus : Seconds → ℕ → Seconds
minus (finite t) n = if ltb t n then negative else finite (t - n)
minus negative n = negative
minus huge n = huge
minus infinite n = infinite
minus nan n = nan

unfoldable pub reap_timeout : Seconds → Seconds
unfolding minus
reap_timeout t = minus t reap_margin

unfoldable pub completion_timeout : Seconds → Seconds
unfolding minus
completion_timeout t = minus t completion_margin
