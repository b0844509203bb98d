-- ===== src/Reactions.antt =====
-- shelldon/core/reactions.py: the patch that an affect event makes to the mood. Floats are thousandths
-- above -10.0, as for the faces, and their arithmetic is exact.
pub mod Bounded
pub mod Samples
use shelldon.Base.{ℕ, ◌+◌, ◌-◌, Option, none, some, Bool, true, false, ltb, ◌==◌, if◌then◌else◌}
use shelldon.Faces.{minus_one, plus_one}
use shelldon.Plugins.{
  EventKind, message_answered, tool_used, day_alive, button_pressed, presence_arrived,
  presence_left, nudge_positive, nudge_negative, nudge_excited, nudge_calm,
}

pub data Delta : Type 0 where
  up down : ℕ → Delta

-- `_NUDGE_DELTAS`: for valence and for arousal.
unfoldable pub nudge_deltas : EventKind → Option (Delta × Delta)
nudge_deltas nudge_positive = some (up 300, up 0)
nudge_deltas nudge_negative = some (down 300, up 0)
nudge_deltas nudge_excited = some (up 100, up 300)
nudge_deltas nudge_calm = some (up 0, down 300)
nudge_deltas message_answered = none
nudge_deltas tool_used = none
nudge_deltas day_alive = none
nudge_deltas button_pressed = none
nudge_deltas presence_arrived = none
nudge_deltas presence_left = none

unfoldable pub shift : ℕ → Delta → ℕ
shift x (up n) = x + n
shift x (down n) = x - n

unfoldable pub clamp : ℕ → ℕ → ℕ → ℕ
clamp x lo hi = if ltb x lo then lo else if ltb hi x then hi else x

-- The sparse patch: the new value of each axis that moves.
pub record MoodPatch : Type 0 where
  pub valence : Option ℕ
  pub arousal : Option ℕ

-- One axis, shifted and clamped; no result where that changes nothing.
unfoldable pub moved : ℕ → Delta → Option ℕ
unfolding shift clamp
moved x d =
    if clamp (shift x d) minus_one plus_one == x
    then none
    else some (clamp (shift x d) minus_one plus_one)

-- `patch or None`
unfoldable pub unless_empty : Option ℕ → Option ℕ → Option MoodPatch
unless_empty none none = none
unless_empty (some v) a = some (record { valence = some v; arousal = a })
unless_empty none (some a) = some (record { valence = none; arousal = some a })

patch_for : Option (Delta × Delta) → ℕ → ℕ → Option MoodPatch
unfolding moved unless_empty
patch_for none v a = none
patch_for (some (dv, da)) v a = unless_empty (moved v dv) (moved a da)

unfoldable pub compute_nudge_patch : EventKind → ℕ → ℕ → Option MoodPatch
unfolding nudge_deltas patch_for
compute_nudge_patch e v a = patch_for (nudge_deltas e) v a
