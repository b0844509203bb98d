-- ===== src/Xp/Growth.antt =====
-- Experience over a run of the plugin and across a restart.
use shelldon.Base.{
  ℕ, ◌+◌, Option, some, Bool, true, List, [], ◌∷◌, ◌++◌, ◌≡◌, refl, ◌==◌, if◌then◌else◌, arith, inl,
  inr, Bool-cases,
}
use shelldon.Base.Result.{Result, ok}
use shelldon.Plugins.{EventKind}
use shelldon.Xp.{
  award, Widget, widget, XpPlugin, load_state, new_plugin, on_start, on_event, on_events,
  draw_widget,
}

abbrev pub awards : List (EventKind × Bool) → ℕ
awards [] = 0
awards ((e, saved) ∷ es) = award e + awards es

-- The last widget that was drawn, after those before it.
abbrev pub last_drawn : Widget → List Widget → Widget
last_drawn w [] = w
last_drawn w (v ∷ vs) = last_drawn v vs

last_drawn-snoc : (w v : Widget) (vs : List Widget) → last_drawn w (vs ++ v ∷ []) ≡ v
last_drawn-snoc w v [] = refl
last_drawn-snoc w v (u ∷ us) = last_drawn-snoc u v us

-- A plugin that has been started shows its experience.
abbrev pub Shows : XpPlugin → Type 0
Shows p = (p.is_bound ≡ true) × (last_drawn (widget 0) p.drawn ≡ widget p.xp)

draw-Shows :
    (p : XpPlugin) → p.is_bound ≡ true → Shows (draw_widget p) × ((draw_widget p).xp ≡ p.xp)
unfolding draw_widget
draw-Shows p h = simp h ((refl, last_drawn-snoc (widget 0) (widget p.xp) p.drawn), refl)

abbrev earned : EventKind → Bool → XpPlugin → XpPlugin
earned e saved p = record p {
  xp = p.xp + award e;
  stored = if saved then some (ok (p.xp + award e)) else p.stored;
}

event-Shows :
    (e : EventKind) (saved : Bool) (p : XpPlugin)
    → Shows p
    → Shows (on_event e saved p) × ((on_event e saved p).xp ≡ p.xp + award e)
unfolding on_event
event-Shows e saved p s = elim (Bool-cases (award e == 0)) [
  | inl none_given ↦ rw none_given (s, ground arith)
  | inr given ↦ rw given (draw-Shows (earned e saved p) s.0)
]

on_start-Shows : (p : XpPlugin) → Shows (on_start p) × ((on_start p).xp ≡ load_state p.stored)
unfolding on_start
on_start-Shows p = draw-Shows (record p { is_bound = true; xp = load_state p.stored }) refl

all_shown :
    (es : List (EventKind × Bool)) (p : XpPlugin)
    → Shows p
    → Shows (on_events es p) × ((on_events es p).xp ≡ p.xp + awards es)
unfolding on_events
all_shown [] p s = (s, omega arith)
all_shown ((e, saved) ∷ es) p s =
    let here = event-Shows e saved p s in
    let rest = all_shown es (on_event e saved p) here.0 in (rest.0, omega (arith, rest.1, here.1))

-- From the start on, whatever events come and whichever saves fail, the experience is what the file
-- held and the awards of all events, and the widget on the screen shows it with its level.
pub on_events-Shows :
    (file : Option (Result ℕ)) (es : List (EventKind × Bool))
    → let p = on_events es (on_start (new_plugin file)) in
      Shows p × (p.xp ≡ load_state file + awards es)
unfolding new_plugin
on_events-Shows file es =
    let began = on_start-Shows (new_plugin file) in
    let run = all_shown es (on_start (new_plugin file)) began.0 in
    (run.0, omega (arith, run.1, began.1))
