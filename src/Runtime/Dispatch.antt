-- ===== src/Runtime/Dispatch.antt =====
-- shelldon/core/dispatch.py: the admission of the turns that the scheduler proposes.
use shelldon.Arbiter.{Arbiter, submit, is_idle, reset}
use shelldon.Base.{ℕ, Option, none, some, List, [], ◌∷◌, if◌then◌else◌}
use shelldon.Base.Result.{Result, ok, err}
use shelldon.Base.Text.{Text, strip}
use shelldon.Budget.{Decision, admit, defer, skip, TurnBudget, evaluate, admission_patch}
use shelldon.Runtime.{World, Core}
use shelldon.Runtime.Turns.{start_turn}
use shelldon.Scheduler.{Job}
use shelldon.State.{
  PersistentState, Item, budget_date, budget_turns_used, budget_last_turn_at, apply_patch,
}

-- The three items of the admission's patch.
unfoldable pub budget_items : TurnBudget → List Item
budget_items b =
    budget_date b.date ∷ budget_turns_used b.turns_used ∷ budget_last_turn_at b.last_turn_at ∷ []

-- An empty prompt is none.
unless_no_text : Text → Option Text
unless_no_text [] = none
unless_no_text (c ∷ cs) = some (c ∷ cs)

-- A builder that raises skips the job, as a blank prompt does.
built_prompt : Result Text → Option Text
unfolding unless_no_text
built_prompt (err e) = none
built_prompt (ok text) = unless_no_text (strip text)

static_prompt : Option Text → Option Text
unfolding unless_no_text
static_prompt none = none
static_prompt (some text) = unless_no_text text

resolve_from : {S : Type 0} → Option (S → Result Text) → Option Text → S → Option Text
unfolding built_prompt static_prompt
resolve_from none prompt s = static_prompt prompt
resolve_from (some builder) prompt s = built_prompt (builder s)

-- `resolve_job_prompt` and the test of what it returns
unfoldable pub resolve_job_prompt : {S : Type 0} → Job S → S → Option Text
unfolding resolve_from
resolve_job_prompt j s = resolve_from j.prompt_builder j.prompt s

module _ {J B : Type 0} where
  unfoldable pub set_state : PersistentState → Core J B → Core J B
  set_state p k = record k { body = record k.body { state = p } }

  unfoldable pub set_arbiter : Arbiter → Core J B → Core J B
  set_arbiter a k = record k { control = record k.control { arbiter = a } }

  -- The spend is recorded before the turn starts; if that raises, the slot is released.
  unfoldable pub spend_and_start :
      World J B
      → Option Text
      → Text
      → Result (Unit {0}) × PersistentState
      → Core J B
      → Result (Unit {0}) × Core J B
  unfolding set_state set_arbiter start_turn
  spend_and_start w marker prompt (err e, p) k =
      (err e, set_arbiter (reset k.control.arbiter) (set_state p k))
  spend_and_start w marker prompt (ok u, p) k = (ok tt, start_turn w prompt marker (set_state p k))

  -- The slot was reserved for the prompt, or it was busy after all.
  unfoldable pub admit_prompt :
      World J B → ℕ → Option Text → Arbiter × Option Text → Core J B → Result (Unit {0}) × Core J B
  unfolding spend_and_start set_arbiter budget_items apply_patch
  admit_prompt w cost marker (a, none) k = (ok tt, set_arbiter a k)
  admit_prompt w cost marker (a, some prompt) k =
      spend_and_start w marker prompt
        (apply_patch
          (budget_items (admission_patch w.zone k.body.state.state.budget k.body.now cost))
          k.body.state)
        (set_arbiter a k)

  unfoldable pub dispatch_decided :
      World J B → Decision → ℕ → Option Text → Text → Core J B → Result (Unit {0}) × Core J B
  unfolding admit_prompt
  dispatch_decided w defer cost marker text k = (ok tt, k)
  dispatch_decided w skip cost marker text k = (ok tt, k)
  dispatch_decided w admit cost marker text k =
      admit_prompt w cost marker (submit text k.control.arbiter) k

  unfoldable pub dispatch_prompt :
      World J B → ℕ → Option Text → Option Text → Core J B → Result (Unit {0}) × Core J B
  unfolding dispatch_decided
  dispatch_prompt w cost marker none k = (ok tt, k)
  dispatch_prompt w cost marker (some text) k =
      if is_idle k.control.arbiter
      then dispatch_decided w (evaluate w.zone w.budget k.body.state.state.budget k.body.now cost)
          cost marker text k
      else (ok tt, k)

  unfoldable pub dispatch_turn_job :
      World J B → Job (Core J B) → Core J B → Result (Unit {0}) × Core J B
  unfolding dispatch_prompt resolve_job_prompt
  dispatch_turn_job w j k = dispatch_prompt w j.cost j.history_owner_text (resolve_job_prompt j k) k
