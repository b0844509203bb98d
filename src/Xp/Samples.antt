-- ===== src/Xp/Samples.antt =====
-- A few events on a fresh pet, with one failed save.
use shelldon.Base.{none, Bool, true, false, List, [], ◌∷◌, ◌≡◌, refl}
use shelldon.Plugins.{EventKind, message_answered, button_pressed, day_alive}
use shelldon.Xp.{new_plugin, on_start, on_events}

abbrev day : List (EventKind × Bool)
day = (message_answered, true) ∷ (button_pressed, true) ∷ (day_alive, false) ∷ []

earned_today : (on_events day (on_start (new_plugin none))).xp ≡ 35
unfolding on_events on_start new_plugin
earned_today = refl
