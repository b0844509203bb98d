-- ===== src/Reactions/Samples.antt =====
-- An excited nudge near the upper bound.
use shelldon.Base.{some, ◌≡◌, refl}
use shelldon.Plugins.{nudge_excited}
use shelldon.Reactions.{compute_nudge_patch}

clamped_nudge :
    compute_nudge_patch nudge_excited 10_950 10_000
    ≡ some (record { valence = some 11_000; arousal = some 10_300 })
unfolding compute_nudge_patch
clamped_nudge = refl
