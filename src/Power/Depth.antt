-- ===== src/Power/Depth.antt =====
-- A worse power reading never makes the pet livelier.
use shelldon.Base.{ℕ, ◌≤◌, ◌<◌, ◌≡◌, some, Bool, true, false, arith}
use shelldon.Base.Result.{ok}
use shelldon.Power.{PowerState, BackoffPolicy, one, new_policy, level, cadence_scale, skips}

pub record IsValid (p : BackoffPolicy) : Type 0 where
  pub eased_ge : one ≤ p.eased_scale
  pub low_ge : p.eased_scale ≤ p.low_scale
  pub threshold_pos : 0 < p.low_charge_threshold
  pub threshold_le : p.low_charge_threshold ≤ one

-- Every policy that the constructor lets pass is ordered.
pub new_policy-IsValid : (e l t : ℕ) {p : BackoffPolicy} → new_policy e l t ≡ ok p → IsValid p
unfolding new_policy
new_policy-IsValid e l t h = ground arith

-- A reading is worse than another: on battery where the other is plugged in, or on battery too with
-- a known charge that is no higher.
pub data Worse : PowerState → PowerState → Type 0 where
  unplugged : (a b : PowerState) → a.on_battery ≡ false → b.on_battery ≡ true → Worse a b
  drained :
      (a b : PowerState) (c d : ℕ)
      → a.on_battery ≡ true
      → b.on_battery ≡ true
      → a.charge ≡ some c
      → b.charge ≡ some d
      → d ≤ c
      → Worse a b

scale-level :
    (p : BackoffPolicy) {a b : PowerState}
    → IsValid p
    → Worse a b
    → cadence_scale p (level p a) ≤ cadence_scale p (level p b)
unfolding level cadence_scale
scale-level p v (unplugged a b ha hb) = ground arith
scale-level p v (drained a b c d ha hb hc hd le) = ground arith

skips-level :
    (p : BackoffPolicy) {a b : PowerState} (essential : Bool)
    → Worse a b
    → skips (level p a) essential ≡ true
    → skips (level p b) essential ≡ true
unfolding level skips
skips-level p essential (unplugged a b ha hb) h = ground arith
skips-level p essential (drained a b c d ha hb hc hd le) h = ground arith

-- With a worse reading the cadences are stretched at least as far, and every turn job that was
-- skipped is still skipped.
pub backoff_monotone :
    (p : BackoffPolicy) {a b : PowerState}
    → IsValid p
    → Worse a b
    → (cadence_scale p (level p a) ≤ cadence_scale p (level p b))
      × ((essential : Bool)
          → skips (level p a) essential ≡ true
          → skips (level p b) essential ≡ true)
backoff_monotone p v w = (scale-level p v w, λ essential. skips-level p essential w)
