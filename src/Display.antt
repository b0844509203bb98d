-- ===== src/Display.antt =====
-- shelldon/display/service.py: the compositor's intake and render loops, with the Region and the
-- StateSnapshot of shelldon/contracts/__init__.py. A step of either loop between two awaits is one
-- function; an interleaving of the loops is a list of steps. `pending` is a dict by region, kept in
-- its insertion order. A `seq` is a natural number, so that the default -1 is below every one.
pub mod Regions
pub mod Newest
pub mod Samples
use shelldon.Base.{
  ℕ, Option, none, some, Bool, true, false, String, List, [], ◌∷◌, ◌++◌, leb, if◌then◌else◌,
}

pub data Region : Type 0 where
  face status_bar caption battery : Region

unfoldable pub region_eq : Region → Region → Bool
region_eq face face = true
region_eq status_bar status_bar = true
region_eq caption caption = true
region_eq battery battery = true
region_eq face status_bar = false
region_eq face caption = false
region_eq face battery = false
region_eq status_bar face = false
region_eq status_bar caption = false
region_eq status_bar battery = false
region_eq caption face = false
region_eq caption status_bar = false
region_eq caption battery = false
region_eq battery face = false
region_eq battery status_bar = false
region_eq battery caption = false

pub record Snapshot : Type 0 where
  pub region : Region
  pub seq : ℕ
  pub shown : String

-- What the two loops share: `latest_seq`, `pending`, and the snapshots given to the renderer.
pub record Screen : Type 0 where
  pub latest_seq : Region → Option ℕ
  pub pending : List Snapshot
  pub rendered : List Snapshot

unfoldable pub new_screen : Screen
new_screen = record { latest_seq = λ r. none; pending = []; rendered = [] }

-- `pending[snap.region] = snap`
unfoldable pub stage : Snapshot → List Snapshot → List Snapshot
unfolding region_eq
stage s [] = s ∷ []
stage s (p ∷ ps) = if region_eq p.region s.region then s ∷ ps else p ∷ stage s ps

-- `snap.seq <= latest_seq.get(snap.region, -1)`
unfoldable pub is_stale : Option ℕ → ℕ → Bool
is_stale none n = false
is_stale (some latest) n = leb n latest

-- One frame of the intake loop.
unfoldable pub take_in : Snapshot → Screen → Screen
unfolding stage is_stale region_eq
take_in s d = if is_stale (d.latest_seq s.region) s.seq then d else record d {
  latest_seq = λ r. if region_eq s.region r then some s.seq else d.latest_seq r;
  pending = stage s d.pending;
}

-- One pass of the render loop: the batch is taken and cleared, then drawn.
unfoldable pub render_pass : Screen → Screen
render_pass d = record d { pending = []; rendered = d.rendered ++ d.pending }

pub data Step : Type 0 where
  arrives : Snapshot → Step
  renders : Step

unfoldable pub step : Step → Screen → Screen
unfolding take_in render_pass
step (arrives s) d = take_in s d
step renders d = render_pass d

unfoldable pub steps : List Step → Screen → Screen
unfolding step
steps [] d = d
steps (x ∷ xs) d = steps xs (step x d)
