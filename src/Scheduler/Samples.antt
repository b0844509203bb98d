-- ===== src/Scheduler/Samples.antt =====
-- Three jobs over a state that logs which of them ran.
use shelldon.Base.{ℕ, ◌≡◌, refl, none, some, Bool, true, false, String, List, [], ◌∷◌, ◌++◌, arith}
use shelldon.Base.Result.{Result, ok}
use shelldon.Base.Table.{find, store}
use shelldon.Base.Time.{Instant}
use shelldon.Cadence.{Cadence, interval, is_due}
use shelldon.Power.{PowerState, BackoffPolicy}
use shelldon.Scheduler.{Job, CostTier, reflex, turn, Scheduler, tick, read_level}
use shelldon.Scheduler.Backoff.{MayRun, tick-skips}
use shelldon.Scheduler.Marks.{is_due-tick}

abbrev Log : Type 0
Log = List String

abbrev note : String → Log → Log
note n l = l ++ n ∷ []

abbrev job : String → Cadence → CostTier → Bool → Job Log
job n c t e = record {
  name = n;
  cadence = c;
  cost_tier = t;
  run = some (note n);
  cost = 1;
  prompt = none;
  essential = e;
  prompt_builder = none;
  history_owner_text = none;
}

abbrev hook : Job Log → Log → Log
hook j l = l ++ "turn" ∷ j.name ∷ []

abbrev utc : Instant → ℕ
utc t = t

abbrev policy : BackoffPolicy
policy = record { eased_scale = 3000; low_scale = 6000; low_charge_threshold = 200 }

abbrev sched : Scheduler Log
sched = record {
  jobs = job "reflex" (interval 10) reflex false ∷ job "proactive" (interval 100) turn false ∷ [];
  last_run = store "proactive" 0 [];
}

abbrev plugged : Result PowerState
plugged = ok (record { on_battery = false; charge = none })

abbrev drained : Result PowerState
drained = ok (record { on_battery = true; charge = some 100 })

plugged_in :
    (tick utc policy (some hook) plugged 700 none sched []).1 ≡ "reflex" ∷ "turn" ∷ "proactive" ∷ []
unfolding tick is_due find store
plugged_in = refl

drained_out : (tick utc policy (some hook) drained 700 none sched []).1 ≡ "reflex" ∷ []
unfolding tick is_due find store
drained_out = refl

is_due-tick_example :
    is_due utc
      (interval 100)
      750
      (find "proactive" (tick utc policy (some hook) plugged 700 none sched []).0.last_run)
      none
      1000
    ≡ false
unfolding tick is_due find store
is_due-tick_example =
    is_due-tick utc policy (some hook) plugged sched [] (job "proactive" (interval 100) turn false)
      700 750 none none 1000 refl (omega arith) (omega arith)

no_hook_on_low :
    (j : Job Log) (l : Log) → MayRun (read_level policy drained) j.essential → hook j l ≡ l
unfolding read_level MayRun
no_hook_on_low j l h = absurd h

tick-skips_example :
    tick utc policy (some hook) drained 700 none sched []
    ≡ tick utc policy (some (λ j l. l)) drained 700 none sched []
tick-skips_example = tick-skips utc policy drained hook (λ j l. l) 700 none sched [] no_hook_on_low
