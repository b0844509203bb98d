-- ===== src/Xp.antt =====
-- shelldon/plugins/xp.py: the plugin that counts experience. Its private file holds the last state
-- that was saved, which json decodes as it was encoded; a save fails with an OSError or not, which is
-- an argument. The widget is the pair of numbers that its text shows. A draw that fails on the bus
-- raises into the host, which isolates the plugin: such a draw is not modelled.
pub mod Growth
pub mod Samples
use shelldon.Base.{
  ℕ, ◌+◌, ◌/◌, Option, none, some, Bool, true, false, String, List, [], ◌∷◌, ◌++◌, ◌==◌,
  if◌then◌else◌,
}
use shelldon.Base.Result.{Result, ok, err}
use shelldon.Display.{status_bar}
use shelldon.Plugins.{
  EventKind, message_answered, tool_used, day_alive, button_pressed, presence_arrived,
  presence_left, nudge_positive, nudge_negative, nudge_excited, nudge_calm, PluginManifest,
}

unfoldable pub award : EventKind → ℕ
award message_answered = 10
award tool_used = 5
award day_alive = 25
award button_pressed = 0
award presence_arrived = 0
award presence_left = 0
award nudge_positive = 0
award nudge_negative = 0
award nudge_excited = 0
award nudge_calm = 0

abbrev pub xp_per_level : ℕ
xp_per_level = 100

abbrev pub manifest : PluginManifest
manifest = record {
  name = "xp";
  subscribes = message_answered ∷ tool_used ∷ day_alive ∷ [];
  emits = [];
  resources = [];
  regions = status_bar ∷ [];
}

abbrev pub level_for : ℕ → ℕ
level_for xp = 1 + xp / xp_per_level

pub record Widget : Type 0 where
  pub level : ℕ
  pub xp : ℕ

unfoldable pub widget : ℕ → Widget
widget xp = record { level = level_for xp; xp = xp }

-- The plugin, its file (no result when it cannot be read or decoded), and the widgets it drew.
pub record XpPlugin : Type 0 where
  pub xp : ℕ
  pub is_bound : Bool
  pub stored : Option (Result ℕ)
  pub drawn : List Widget

unfoldable pub load_state : Option (Result ℕ) → ℕ
load_state none = 0
load_state (some (err e)) = 0
load_state (some (ok n)) = n

draw_widget : XpPlugin → XpPlugin
unfolding widget
draw_widget p = if p.is_bound then record p { drawn = p.drawn ++ widget p.xp ∷ [] } else p

unfoldable pub new_plugin : Option (Result ℕ) → XpPlugin
new_plugin file = record { xp = 0; is_bound = false; stored = file; drawn = [] }

unfoldable pub on_start : XpPlugin → XpPlugin
unfolding load_state draw_widget
on_start p = draw_widget (record p { is_bound = true; xp = load_state p.stored })

unfoldable pub on_event : EventKind → Bool → XpPlugin → XpPlugin
unfolding award draw_widget
on_event e saved p =
    let n = p.xp + award e in
    if award e == 0
    then p
    else draw_widget (record p { xp = n; stored = if saved then some (ok n) else p.stored })

unfoldable pub on_events : List (EventKind × Bool) → XpPlugin → XpPlugin
unfolding on_event
on_events [] p = p
on_events ((e, saved) ∷ es) p = on_events es (on_event e saved p)
