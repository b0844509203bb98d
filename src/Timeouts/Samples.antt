-- ===== src/Timeouts/Samples.antt =====
-- A host that raises the timeout, and one that asks for too little.
use shelldon.Base.{Option, none, some, ◌≡◌, refl, ◌⊎◌, if◌then◌else◌}
use shelldon.Base.Text.{Text, codes, text_eq}
use shelldon.Timeouts.{Seconds, finite, huge, infinite, nan, resolve_turn_timeout}
use shelldon.Timeouts.Chain.{IsChain, resolve-IsChain}

abbrev read : Text → Option Seconds
read t =
    if text_eq t (codes "60")
    then some (finite 60_000)
    else if text_eq t (codes "3")
    then some (finite 3000)
    else if text_eq t (codes "nan")
    then some nan
    else none

raised : resolve_turn_timeout read (some (codes "60")) ≡ finite 60_000
unfolding resolve_turn_timeout text_eq
raised = refl

clamped : resolve_turn_timeout read (some (codes "3")) ≡ finite 15_000
unfolding resolve_turn_timeout text_eq
clamped = refl

resolve-IsChain_example :
    IsChain (resolve_turn_timeout read (some (codes "60")))
    ⊎ ((text : Text) × ((some (codes "60") ≡ some text)
          × ((read text ≡ some huge) ⊎ ((read text ≡ some infinite) ⊎ (read text ≡ some nan)))))
resolve-IsChain_example = resolve-IsChain read (some (codes "60"))
