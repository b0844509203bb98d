-- ===== src/Scheduler.antt =====
-- The named jobs and the tick of shelldon/core/scheduler.py.
-- `S` is the state of the rest of core. A job's `run` and the dispatch hook are functions on `S`:
-- each stands for what the awaited call does to core, whether it returns or raises (`tick` guards
-- every job, so the two differ only in a log line). A prompt builder may raise, so it returns a
-- Result. The clock, the dispatch hook, the backoff policy and the power reading are arguments.
pub mod Marks
pub mod Backoff
pub mod Samples
use shelldon.Base.{
  ℕ, Option, none, some, Bool, true, false, not, String, List, [], ◌∷◌, ◌++◌, ltb, str_eq, ◌&&◌,
  ◌||◌, select, any_pass, is_some, if◌then◌else◌,
}
use shelldon.Base.Result.{Error, Result, ok, err, require, value_error, ◌>>=◌, ◌>>◌}
use shelldon.Base.Table.{Table, find, store}
use shelldon.Base.Text.{Text}
use shelldon.Base.Time.{Instant}
use shelldon.Cadence.{Cadence, is_due}
use shelldon.Power.{PowerState, BackoffLevel, lively, BackoffPolicy, level, cadence_scale, skips}

pub data CostTier : Type 0 where
  reflex turn : CostTier

pub record Job (S : Type 0) : Type 0 where
  pub name : String
  pub cadence : Cadence
  pub cost_tier : CostTier
  pub run : Option (S → S)
  pub cost : ℕ
  pub prompt : Option Text
  pub essential : Bool
  pub prompt_builder : Option (S → Result Text)
  pub history_owner_text : Option Text

-- `Job.__init__`, of a job with its fields filled in.
unfoldable pub new_job : {S : Type 0} → Job S → Result (Job S)
new_job j = do
  require (not (elim j.cost_tier [ reflex ↦ true | turn ↦ false ] && not (is_some j.run)))
      value_error
  require (not (ltb j.cost 1)) value_error
  ok j

pub record Scheduler (S : Type 0) : Type 0 where
  pub jobs : List (Job S)
  pub last_run : Table Instant

module _ {S : Type 0} where
  unfoldable pub register : Job S → Scheduler S → Result (Scheduler S)
  register j s =
      if any_pass (λ k. str_eq k.name j.name) s.jobs
      then err value_error
      else ok (record s { jobs = s.jobs ++ j ∷ [] })

  unfoldable pub mark_ran : String → Instant → Scheduler S → Scheduler S
  mark_ran n t s = record s { last_run = store n t s.last_run }

module _ (zone : Instant → ℕ) {S : Type 0} where
  unfoldable pub due : Instant → Option Instant → ℕ → Scheduler S → List (Job S)
  due now touched scale s =
      select (λ j. is_due zone j.cadence now (find j.name s.last_run) touched scale) s.jobs

-- `_dispatch`: with no hook wired the job is logged and dropped.
unfoldable pub dispatch : {S : Type 0} → Option (Job S → S → S) → Job S → S → S
dispatch none j s = s
dispatch (some hook) j s = hook j s

run_reflex : {S : Type 0} → Option (S → S) → S → S
run_reflex none s = s
run_reflex (some f) s = f s

perform_tier : {S : Type 0} → CostTier → Option (Job S → S → S) → BackoffLevel → Job S → S → S
unfolding run_reflex dispatch skips
perform_tier reflex hook l j s = run_reflex j.run s
perform_tier turn hook l j s = if skips l j.essential then s else dispatch hook j s

-- One due job, under its guard.
unfoldable pub perform : {S : Type 0} → Option (Job S → S → S) → BackoffLevel → Job S → S → S
unfolding perform_tier
perform hook l j s = perform_tier j.cost_tier hook l j s

-- The loop over the due jobs: each is marked before it runs.
unfoldable pub tick_jobs :
    {S : Type 0}
    → Option (Job S → S → S)
    → BackoffLevel
    → Instant
    → List (Job S)
    → Table Instant
    → S
    → Table Instant × S
tick_jobs hook l now [] marks s = (marks, s)
tick_jobs hook l now (j ∷ js) marks s =
    tick_jobs hook l now js (store j.name now marks) (perform hook l j s)

-- A power read that raises counts as plugged in.
unfoldable pub read_level : BackoffPolicy → Result PowerState → BackoffLevel
unfolding level
read_level p (ok power) = level p power
read_level p (err e) = lively

module _ (zone : Instant → ℕ) {S : Type 0} where
  unfoldable pub tick :
      BackoffPolicy
      → Option (Job S → S → S)
      → Result PowerState
      → Instant
      → Option Instant
      → Scheduler S
      → S
      → Scheduler S × S
  unfolding due tick_jobs read_level cadence_scale perform
  tick p hook reading now touched sch s =
      let l = read_level p reading in
      let done =
        tick_jobs hook l now (due zone now touched (cadence_scale p l) sch) sch.last_run s in
      (record sch { last_run = done.0 }, done.1)
