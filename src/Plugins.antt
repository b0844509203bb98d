-- ===== src/Plugins.antt =====
-- shelldon/plugins/host.py and the PluginManifest of shelldon/plugins/manifest.py: the load-time
-- check of the plugins' claims, the fan-out of an event, and the handle a plugin draws through. The
-- event kinds are those of shelldon/contracts/__init__.py. A plugin's `on_event` is code that the host
-- only calls: a function on the state of the plugins that may raise. The dict of subscriptions has a
-- list for each kind, the others are tables. A write to the bus may fail.
pub mod Counting
pub mod Claims
pub mod Drawing
pub mod Samples
use shelldon.Base.{
  ℕ, ◌+◌, Option, none, some, Bool, true, false, not, ◌||◌, ◌==◌, String, List, [], ◌∷◌, ◌++◌, map,
  any_pass, if◌then◌else◌,
}
use shelldon.Base.Result.{Result, ok, err, load_error, os_error, ◌>>=◌}
use shelldon.Base.Table.{Table, find, store}
use shelldon.Display.{Region, face, status_bar, caption, battery, region_eq, Snapshot}

pub data EventKind : Type 0 where
  message_answered tool_used day_alive button_pressed presence_arrived presence_left : EventKind
  nudge_positive nudge_negative nudge_excited nudge_calm : EventKind

-- The place of a kind in the enumeration; two kinds are the same member when the places are equal.
unfoldable pub place : EventKind → ℕ
place message_answered = 0
place tool_used = 1
place day_alive = 2
place button_pressed = 3
place presence_arrived = 4
place presence_left = 5
place nudge_positive = 6
place nudge_negative = 7
place nudge_excited = 8
place nudge_calm = 9

pub record PluginManifest : Type 0 where
  pub name : String
  pub subscribes : List EventKind
  pub emits : List EventKind
  pub resources : List String
  pub regions : List Region

-- `S` is what the plugins keep between them: `on_event` returns the new state, and whether it raised.
pub record Plugin (S : Type 0) : Type 0 where
  pub manifest : PluginManifest
  pub on_event : EventKind → S → S × Bool

pub record LoadedPlugins (S : Type 0) : Type 0 where
  pub plugins : List (Plugin S)
  pub regions : Region → Option String
  pub resources : Table String
  pub subscriptions : ℕ → List (Plugin S)

-- The loop over a manifest's regions.
unfoldable pub claim_regions :
    String → List Region → (Region → Option String) → Result (Region → Option String)
unfolding region_eq
claim_regions name [] held = ok held
claim_regions name (r ∷ rs) held =
    let rest = claim_regions name rs (λ q. if region_eq r q then some name else held q) in
    if region_eq r face
    then err load_error
    else elim (held r) [ some owner ↦ err load_error | none ↦ rest ]

-- The loop over a manifest's resources.
unfoldable pub claim_resources : String → List String → Table String → Result (Table String)
claim_resources name [] held = ok held
claim_resources name (r ∷ rs) held =
    let rest = claim_resources name rs (store r name held) in
    elim (find r held) [ some owner ↦ err load_error | none ↦ rest ]

module _ {S : Type 0} where
  -- The loop over a manifest's subscriptions: `setdefault(kind, []).append(plugin)`.
  unfoldable pub subscribe : Plugin S → List EventKind → (ℕ → List (Plugin S)) → ℕ → List (Plugin S)
  unfolding place
  subscribe p [] subs k = subs k
  subscribe p (e ∷ es) subs k =
      subscribe p es (λ n. if n == place e then subs n ++ p ∷ [] else subs n) k

  -- The loop over the plugins, with the maps so far.
  unfoldable pub validate_rest : List (Plugin S) → LoadedPlugins S → Result (LoadedPlugins S)
  unfolding claim_regions claim_resources subscribe
  validate_rest [] l = ok l
  validate_rest (p ∷ ps) l = do
    regions ← claim_regions p.manifest.name p.manifest.regions l.regions
    resources ← claim_resources p.manifest.name p.manifest.resources l.resources
    validate_rest ps (record {
      plugins = l.plugins;
      regions = regions;
      resources = resources;
      subscriptions = subscribe p p.manifest.subscribes l.subscriptions;
    })

  unfoldable pub validate_claims : List (Plugin S) → Result (LoadedPlugins S)
  unfolding validate_rest
  validate_claims ps =
      validate_rest ps
        (record { plugins = ps; regions = λ r. none; resources = []; subscriptions = λ k. [] })

  -- `_safe_on_event`: a plugin that raises is isolated.
  unfoldable pub safe_on_event : EventKind → Plugin S → S → S
  safe_on_event e p s = (p.on_event e s).0

  unfoldable pub deliver : EventKind → List (Plugin S) → S → S
  unfolding safe_on_event
  deliver e [] s = s
  deliver e (p ∷ ps) s = deliver e ps (safe_on_event e p s)

  unfoldable pub fan_out : EventKind → LoadedPlugins S → S → S
  unfolding deliver place
  fan_out e l s = deliver e (l.subscriptions (place e)) s

-- The host's side of the bus: the last number written for each region, and the frames written.
pub record Host : Type 0 where
  pub seqs : Region → ℕ
  pub drawn : List Snapshot
  pub emitted : List EventKind

unfoldable pub new_host : Host
new_host = record { seqs = λ r. 0; drawn = []; emitted = [] }

-- `draw`, of a plugin with this manifest, when no other draw of the region starts before its write has
-- ended: the source reads the number, awaits the write, and then commits the number. `written` tells
-- whether the write to the bus succeeds.
unfoldable pub draw : PluginManifest → Region → String → Bool → Host → Result Host
unfolding region_eq
draw m r shown written h =
    if not (any_pass (λ q. region_eq q r) m.regions)
    then ok h
    else if written
    then ok (record h {
      seqs = λ q. if region_eq r q then h.seqs r + 1 else h.seqs q;
      drawn = h.drawn ++ record { region = r; seq = h.seqs r + 1; shown = shown } ∷ [];
    })
    else err os_error

unfoldable pub emit_event : PluginManifest → EventKind → Bool → Host → Result Host
unfolding place
emit_event m e written h =
    if not (any_pass (λ k. place k == place e) m.emits)
    then ok h
    else if written
    then ok (record h { emitted = h.emitted ++ e ∷ [] })
    else err os_error
