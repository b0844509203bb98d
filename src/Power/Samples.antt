-- ===== src/Power/Samples.antt =====
-- The default policy, on a charge that falls from 30 % to 10 %.
use shelldon.Base.{ℕ, ◌≡◌, refl, none, some, true}
use shelldon.Base.Result.{ok, err, value_error}
use shelldon.Power.{PowerState, eased, BackoffPolicy, new_policy, level}
use shelldon.Power.Depth.{IsValid, new_policy-IsValid}

abbrev policy : BackoffPolicy
policy = record { eased_scale = 3000; low_scale = 6000; low_charge_threshold = 200 }

abbrev battery : ℕ → PowerState
battery c = record { on_battery = true; charge = some c }

policy_is_made : new_policy 3000 6000 200 ≡ ok policy
unfolding new_policy
policy_is_made = refl

inverted_is_rejected : new_policy 6000 3000 200 ≡ err value_error
unfolding new_policy
inverted_is_rejected = refl

new_policy-IsValid_example : IsValid policy
new_policy-IsValid_example = new_policy-IsValid 3000 6000 200 policy_is_made

unknown_charge_is_not_low : level policy (record { on_battery = true; charge = none }) ≡ eased
unfolding level
unknown_charge_is_not_low = refl
