-- ===== src/Scheduler/Backoff.antt =====
-- Battery backoff is an outer gate: a turn job that it skips never reaches the dispatch hook.
use shelldon.Base.{
  ℕ, ◌≡◌, refl, Bool, true, Option, some, false, List, [], ◌∷◌, Bool-cases, inl, inr,
}
use shelldon.Base.Result.{Result}
use shelldon.Base.Table.{Table, store}
use shelldon.Base.Time.{Instant}
use shelldon.Power.{
  PowerState, BackoffLevel, BackoffPolicy, cadence_scale, skips, lively, eased, low,
}
use shelldon.Scheduler.{
  Job, CostTier, reflex, turn, Scheduler, due, perform, perform_tier, tick_jobs, read_level, tick,
}

-- The turn jobs that a battery level admits: all, the essential ones, or none.
unfoldable pub MayRun : BackoffLevel → Bool → Type 0
MayRun lively essential = Unit
MayRun eased essential = essential ≡ true
MayRun low essential = ⊥

skips→MayRun :
    (l : BackoffLevel) (essential : Bool) → skips l essential ≡ false → MayRun l essential
unfolding MayRun skips
skips→MayRun lively essential h = tt
skips→MayRun eased true h = refl
skips→MayRun eased false h = cc
skips→MayRun low essential h = cc

module _ {S : Type 0} (l : BackoffLevel) (f g : Job S → S → S)
    (agree : (j : Job S) (s : S) → MayRun l j.essential → f j s ≡ g j s) where
  perform_tier_same :
      (c : CostTier) (j : Job S) (s : S)
      → perform_tier c (some f) l j s ≡ perform_tier c (some g) l j s
  unfolding perform_tier
  perform_tier_same reflex j s = refl
  perform_tier_same turn j s = elim (Bool-cases (skips l j.essential)) [
    | inl e ↦ rw e
    | inr e ↦ rw e (agree j s (skips→MayRun l j.essential e))
  ]

  tick_jobs_same :
      (now : Instant) (js : List (Job S)) (m : Table Instant) (s : S)
      → tick_jobs (some f) l now js m s ≡ tick_jobs (some g) l now js m s
  unfolding tick_jobs perform
  tick_jobs_same now [] m s = refl
  tick_jobs_same now (j ∷ js) m s =
      rw (perform_tier_same j.cost_tier j s)
        (tick_jobs_same now js (store j.name now m) (perform (some g) l j s))

-- Two dispatch hooks that agree on the turn jobs which the battery level admits give the same
-- tick: any two, on low charge, so that no turn job is dispatched at all; those that agree on the
-- essential jobs at the eased level; and at the lively one those that agree on every job.
pub tick-skips :
    (zone : Instant → ℕ) {S : Type 0} (p : BackoffPolicy) (reading : Result PowerState)
    (f g : Job S → S → S) (now : Instant) (touched : Option Instant) (sch : Scheduler S) (s : S)
    → ((j : Job S) (s : S) → MayRun (read_level p reading) j.essential → f j s ≡ g j s)
    → tick zone p (some f) reading now touched sch s
      ≡ tick zone p (some g) reading now touched sch s
unfolding tick
tick-skips zone p reading f g now touched sch s agree =
    let l = read_level p reading in
    rw
      (tick_jobs_same l f g agree now (due zone now touched (cadence_scale p l) sch) sch.last_run s)
