-- ===== src/Runtime/Spending.antt =====
-- shelldon/core/dispatch.py: a scheduled turn starts only from rest and within the budget, and its
-- spend is recorded before it starts.
use shelldon.Arbiter.{submit, submit_in, is_idle}
use shelldon.Base.{ℕ, Option, none, some, Bool, true, false, not, ◌≡◌, refl, inl, inr, Bool-cases}
use shelldon.Base.Result.{Result, ok}
use shelldon.Base.Text.{Text}
use shelldon.Budget.{Decision, admit, defer, skip, evaluate, admission_patch}
use shelldon.Runtime.{World, Core}
use shelldon.Runtime.Dispatch.{
  dispatch_turn_job, dispatch_prompt, dispatch_decided, admit_prompt, spend_and_start, set_state,
  set_arbiter, budget_items, resolve_job_prompt,
}
use shelldon.Runtime.Turns.{start_turn}
use shelldon.Scheduler.{Job}
use shelldon.State.{apply_patch, all_writable, assign_all, is_writable, assign}

module _ {J B : Type 0} (w : World J B) where
  -- Core with the spend of a turn recorded, and its slot reserved.
  abbrev pub spent : ℕ → Core J B → Core J B
  spent cost k = record {
    control = record k.control { arbiter = record k.control.arbiter { worker_in_flight = true } };
    body = record k.body {
      state = record {
        state = record k.body.state.state {
          budget = admission_patch w.zone k.body.state.state.budget k.body.now cost;
        };
        dirty = true;
      };
    };
  }

  -- The two things that the dispatch of a job can do.
  pub data Dispatched (j : Job (Core J B)) (k : Core J B)
      : Result (Unit {0}) × Core J B → Type 0 where
    declined : Dispatched j k (ok tt, k)
    started :
        (prompt : Text)
        → resolve_job_prompt j k ≡ some prompt
        → is_idle k.control.arbiter ≡ true
        → evaluate w.zone w.budget k.body.state.state.budget k.body.now j.cost ≡ admit
        → Dispatched j k (ok tt, start_turn w prompt j.history_owner_text (spent j.cost k))

  admitted_spent :
      (busy : Bool) (j : Job (Core J B)) (prompt : Text) (k : Core J B)
      → not busy ≡ true
      → resolve_job_prompt j k ≡ some prompt
      → is_idle k.control.arbiter ≡ true
      → evaluate w.zone w.budget k.body.state.state.budget k.body.now j.cost ≡ admit
      → Dispatched j k
          (admit_prompt w j.cost j.history_owner_text (submit_in busy prompt k.control.arbiter) k)
  unfolding admit_prompt submit_in set_arbiter set_state spend_and_start budget_items apply_patch
      all_writable assign_all is_writable assign
  admitted_spent true j prompt k h r i e = cc
  admitted_spent false j prompt k h r i e = started prompt r i e

  decided_spent :
      (d : Decision) (j : Job (Core J B)) (prompt : Text) (k : Core J B)
      → resolve_job_prompt j k ≡ some prompt
      → is_idle k.control.arbiter ≡ true
      → evaluate w.zone w.budget k.body.state.state.budget k.body.now j.cost ≡ d
      → Dispatched j k (dispatch_decided w d j.cost j.history_owner_text prompt k)
  unfolding dispatch_decided submit is_idle
  decided_spent defer j prompt k r i e = declined
  decided_spent skip j prompt k r i e = declined
  decided_spent admit j prompt k r i e =
      admitted_spent k.control.arbiter.worker_in_flight j prompt k i r i e

  prompt_spent :
      (o : Option Text) (j : Job (Core J B)) (k : Core J B)
      → resolve_job_prompt j k ≡ o
      → Dispatched j k (dispatch_prompt w j.cost j.history_owner_text o k)
  unfolding dispatch_prompt
  prompt_spent none j k r = declined
  prompt_spent (some prompt) j k r = elim (Bool-cases (is_idle k.control.arbiter)) [
    | inl e ↦ rw e (
        decided_spent (evaluate w.zone w.budget k.body.state.state.budget k.body.now j.cost) j
          prompt k r e refl)
    | inr e ↦ rw e declined
  ]

  -- The dispatch of a scheduled job either changes nothing, not even the owner's waiting messages, or
  -- starts the job's turn: then the job has a prompt, no turn was in flight, the budget admits the
  -- job's cost, and the turn starts from a state in which that cost is recorded. It never raises.
  pub dispatch_turn_job-Dispatched :
      (j : Job (Core J B)) (k : Core J B) → Dispatched j k (dispatch_turn_job w j k)
  unfolding dispatch_turn_job
  dispatch_turn_job-Dispatched j k = prompt_spent (resolve_job_prompt j k) j k refl
