-- ===== src/Power.antt =====
-- shelldon/core/power.py: how hard the pet backs off on battery. The floats are fixed-point numbers
-- in thousandths: the scale 1.0 is 1000, and a charge is 0 to 1000. A NaN, which the constructor
-- rejects in each place, has no counterpart.
pub mod Depth
pub mod Samples
use shelldon.Base.{ℕ, Option, none, some, Bool, true, false, not, leb, ltb, ◌&&◌, if◌then◌else◌}
use shelldon.Base.Result.{Result, ok, require, value_error, ◌>>=◌, ◌>>◌}

pub record PowerState : Type 0 where
  pub on_battery : Bool
  pub charge : Option ℕ

pub data BackoffLevel : Type 0 where
  lively eased low : BackoffLevel

pub record BackoffPolicy : Type 0 where
  pub eased_scale : ℕ
  pub low_scale : ℕ
  pub low_charge_threshold : ℕ

abbrev pub one : ℕ
one = 1000

unfoldable pub new_policy : ℕ → ℕ → ℕ → Result BackoffPolicy
new_policy e l t = do
  require (leb one e) value_error
  require (leb one l) value_error
  require (leb e l) value_error
  require (ltb 0 t && leb t one) value_error
  ok (record { eased_scale = e; low_scale = l; low_charge_threshold = t })

-- `power.charge is not None and power.charge < threshold`
unfoldable pub is_low : Option ℕ → ℕ → Bool
is_low none threshold = false
is_low (some c) threshold = ltb c threshold

unfoldable pub level : BackoffPolicy → PowerState → BackoffLevel
unfolding is_low
level p power =
    if not power.on_battery
    then lively
    else if is_low power.charge p.low_charge_threshold
    then low
    else eased

unfoldable pub cadence_scale : BackoffPolicy → BackoffLevel → ℕ
cadence_scale p lively = one
cadence_scale p eased = p.eased_scale
cadence_scale p low = p.low_scale

unfoldable pub skips : BackoffLevel → Bool → Bool
skips lively essential = false
skips low essential = true
skips eased essential = not essential
