-- ===== src/Plugins/Samples.antt =====
-- Two plugins: one draws in the status bar, the other in the battery region.
use shelldon.Base.{
  ℕ, suc, if◌then◌else◌, ◌≤◌, ◌≡◌, refl, Option, none, some, Bool, true, false, String, List, [],
  ◌∷◌,
}
use shelldon.Base.Result.{ok, err, load_error}
use shelldon.Display.{Region, face, status_bar, battery, region_eq}
use shelldon.Display.Regions.{Ascends, seqs}
use shelldon.Plugins.{
  EventKind, message_answered, button_pressed, PluginManifest, Plugin, LoadedPlugins,
  validate_claims, new_host, deliver, fan_out, subscribe,
}
use shelldon.Plugins.Claims.{regions_claimed, resources_claimed, subscribers, validate_claims_ok}
use shelldon.Plugins.Drawing.{Request, draw_all, frames, counted, draw_all-Ascends}

abbrev xp : PluginManifest
xp = record {
  name = "xp";
  subscribes = message_answered ∷ [];
  emits = [];
  resources = [];
  regions = status_bar ∷ [];
}

abbrev power : PluginManifest
power = record {
  name = "battery";
  subscribes = [];
  emits = button_pressed ∷ [];
  resources = "pisugar" ∷ [];
  regions = battery ∷ [];
}

abbrev xp_plugin : Plugin ℕ
xp_plugin = record { manifest = xp; on_event = λ e s. (suc s, false) }

abbrev power_plugin : Plugin ℕ
power_plugin = record { manifest = power; on_event = λ e s. (s, true) }

abbrev both : List (Plugin ℕ)
both = xp_plugin ∷ power_plugin ∷ []

abbrev loaded : LoadedPlugins ℕ
loaded = record {
  plugins = both;
  regions = λ q.
      if region_eq battery q
      then some "battery"
      else if region_eq status_bar q
      then some "xp"
      else none;
  resources = ("pisugar", "battery") ∷ [];
  subscriptions = subscribe power_plugin [] (subscribe xp_plugin (message_answered ∷ []) (λ k. []));
}

both_load : validate_claims both ≡ ok loaded
unfolding validate_claims shelldon.Base.Table.find shelldon.Base.Table.store
both_load = refl

validate_claims_ok_example :
    (regions_claimed face both ≡ 0)
    × (((r : Region) → regions_claimed r both ≤ 1)
        × (((k : String) → resources_claimed k both ≤ 1)
            × ((e : EventKind) (s : ℕ) → fan_out e loaded s ≡ deliver e (subscribers e both) s)))
validate_claims_ok_example = validate_claims_ok both loaded both_load

clashing : validate_claims (xp_plugin ∷ xp_plugin ∷ []) ≡ err load_error
unfolding validate_claims
clashing = refl

abbrev calls : List Request
calls =
    record { manifest = xp; region = status_bar; shown = "level 2"; written = true }
    ∷ record { manifest = xp; region = battery; shown = "50%"; written = true }
    ∷ record { manifest = xp; region = status_bar; shown = "level 3"; written = false }
    ∷ record { manifest = power; region = battery; shown = "49%"; written = true }
    ∷ record { manifest = xp; region = status_bar; shown = "level 3"; written = true }
    ∷ []

draw_all-Ascends_example :
    Ascends none
      (seqs status_bar (draw_all calls new_host).drawn)
      (counted (frames status_bar calls))
draw_all-Ascends_example = draw_all-Ascends calls status_bar
