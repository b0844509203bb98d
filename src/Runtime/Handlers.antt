-- ===== src/Runtime/Handlers.antt =====
-- shelldon/core/runtime.py: every handler keeps the guards in agreement.
use shelldon.Arbiter.{Arbiter, submit, complete, reset, is_idle}
use shelldon.Base.{
  ℕ, Option, none, some, Bool, true, false, String, List, ◌≡◌, refl, inl, inr, Bool-cases,
}
use shelldon.Base.Result.{Result, ok, err, Error}
use shelldon.Base.Text.{Text, codes}
use shelldon.Broker.{ToolCall, Message}
use shelldon.Budget.{Decision, admit, defer, skip, evaluate, admission_patch}
use shelldon.Fence.{accept, is_current}
use shelldon.Runtime.{World, Body, Control, Core, WorkerResult, Spawn}
use shelldon.Runtime.Approvals.{
  Verdict, settled, resumes, handle_approval_decision, after_decide, resume, decide,
}
use shelldon.Runtime.Coherent.{
  at_rest, IsFresh, IsReady, IsGood, IsInjective, begin-IsGood, Ended, rests, goes_on, end-Ended,
}
use shelldon.Runtime.Dispatch.{
  dispatch_turn_job, dispatch_prompt, dispatch_decided, admit_prompt, spend_and_start, set_state,
  set_arbiter, budget_items, resolve_job_prompt,
}
use shelldon.Runtime.Loop.{start_admitted, admit_text}
use shelldon.Runtime.Turns.{
  end_turn, launch, begin_with, start_turn, start_resume_turn, start_folded, after_digest,
  handle_accepted, handle_from, handle_result, digest, time_out, timeout_watch,
}
use shelldon.Scheduler.{Job}
use shelldon.Runtime.{fresh_turn, resumed}
use shelldon.State.{PersistentState, apply_patch}
use shelldon.Runtime.Admission.{
  accept→current, current→eq, Admission, reserves, waits, same-IsFresh, submit-Admission,
  not_waiting,
}
use shelldon.Runtime.Settles.{decide_settles}

-- The control of a core that goes on is good; one that is stopping has only its timeout disarmed.
pub data IsSound (hex : ℕ → String) {J B : Type 0} : Result (Unit {0}) × Core J B → Type 0 where
  goes : (k : Core J B) → IsGood hex k.control → IsSound hex (ok tt, k)
  raises : (e : Error) (k : Core J B) → IsSound hex (err e, k)

module _ {J B : Type 0} (w : World J B) (inj : IsInjective w.hex) where
  begin_with-IsGood :
      (s : Spawn J) (owner_side : Text) (is_owner : Bool) (k : Core J B)
      → IsReady k.control
      → IsFresh w.hex k.control
      → IsGood w.hex (begin_with (w.hex k.control.minted) s owner_side is_owner k).control
  unfolding begin_with
  begin_with-IsGood s owner_side is_owner k ready fresh =
      begin-IsGood w.hex (launch s k.body).0 owner_side is_owner k.control inj ready fresh

  start_turn-IsGood :
      (prompt : Text) (marker : Option Text) (k : Core J B)
      → IsReady k.control
      → IsFresh w.hex k.control
      → IsGood w.hex (start_turn w prompt marker k).control
  unfolding start_turn
  start_turn-IsGood prompt marker k ready fresh =
      begin_with-IsGood (fresh_turn (w.hex k.control.minted) prompt) _ _ k ready fresh

  start_folded-IsGood :
      (next : Option Text) (k : Core J B)
      → Ended w.hex k.control next
      → IsGood w.hex (start_folded w next k).control
  unfolding start_folded
  start_folded-IsGood none k (rests good) = good
  start_folded-IsGood (some p) k (goes_on _ ready fresh) = start_turn-IsGood p none k ready fresh

  after_digest-IsSound :
      (t : String) (c : Control) (r : WorkerResult J) (end : Result (Unit {0}) × Body J B)
      → c.fence.current ≡ some t
      → IsFresh w.hex c
      → IsSound w.hex (after_digest w (end_turn t c) r end)
  unfolding after_digest end_turn
  after_digest-IsSound t c r (err e, b) is_open fresh = raises e _
  after_digest-IsSound t c r (ok tt, b) is_open fresh =
      goes _ (start_folded-IsGood (complete c.arbiter).1 _ (end-Ended w.hex t c is_open fresh))

  handle_from-IsSound :
      (admitted : Bool) (t : Option String) (r : WorkerResult J) (k : Core J B)
      → accept t k.control.fence ≡ admitted
      → IsGood w.hex k.control
      → IsSound w.hex (handle_from admitted w t r k)
  unfolding handle_from handle_accepted
  handle_from-IsSound admitted none r k e good = goes k good
  handle_from-IsSound false (some t) r k e good = goes k good
  handle_from-IsSound true (some t) r k e good =
      after_digest-IsSound t k.control r (digest w k.control t r k.body)
        (accept→current t k.control.fence e) good.fresh

  pub handle_result-IsSound :
      (t : Option String) (r : WorkerResult J) (k : Core J B)
      → IsGood w.hex k.control
      → IsSound w.hex (handle_result w t r k)
  unfolding handle_result
  handle_result-IsSound t r k good = handle_from-IsSound (accept t k.control.fence) t r k refl good

  pub timeout_watch-IsGood :
      (t : String) (k : Core J B)
      → IsGood w.hex k.control
      → IsGood w.hex (timeout_watch w t k).control
  unfolding timeout_watch time_out end_turn
  timeout_watch-IsGood t k good = elim (Bool-cases (is_current k.control.fence.current t)) [
    | inl e ↦ rw e (
        start_folded-IsGood (complete k.control.arbiter).1 _
          (end-Ended w.hex t k.control (current→eq k.control.fence.current t e) good.fresh))
    | inr e ↦ rw e good
  ]

  resume-IsGood :
      (approved : Bool) (messages : List (Message J)) (tool_call : ToolCall J) (k : Core J B)
      → is_idle k.control.arbiter ≡ true
      → IsGood w.hex k.control
      → IsGood w.hex (resume w approved messages tool_call k).control
  unfolding resume start_resume_turn submit is_idle
  resume-IsGood approved messages tool_call k idle good =
      begin_with-IsGood (resumed (w.hex k.control.minted) messages tool_call approved) _ _ _
        (not_waiting w.hex k.control.arbiter.worker_in_flight (codes "[tool approval]") k.control
          idle refl good.coherent)
        (same-IsFresh w.hex _ k.control good.fresh)

  start_admitted-IsGood :
      (text : Text) (k : Core J B) (end : Arbiter × Option Text)
      → IsGood w.hex k.control
      → Admission w.hex k.control text end
      → IsGood w.hex
          (start_admitted w end.1
            (record k { control = record k.control { arbiter = end.0 } })).control
  unfolding start_admitted
  start_admitted-IsGood text k (a, none) good (waits _ held) = held
  start_admitted-IsGood text k (a, some p) good (reserves _ ready) =
      start_turn-IsGood _ none _ ready (same-IsFresh w.hex a k.control good.fresh)

  pub admit_text-IsGood :
      (text : Text) (k : Core J B)
      → IsGood w.hex k.control
      → IsGood w.hex (admit_text w text k).control
  unfolding admit_text
  admit_text-IsGood text k good =
      start_admitted-IsGood text k (submit text k.control.arbiter) good
        (submit-Admission w.hex text k.control good)

  spend-IsGood :
      (marker : Option Text) (prompt : Text) (end : Result (Unit {0}) × PersistentState)
      (k : Core J B)
      → IsReady k.control
      → IsFresh w.hex k.control
      → IsGood w.hex (spend_and_start w marker prompt end k).1.control
  unfolding spend_and_start set_arbiter set_state reset
  spend-IsGood marker prompt (err e, p) k ready fresh = record {
    coherent = at_rest ready.none_open refl refl ready.unarmed;
    fresh = same-IsFresh w.hex _ k.control fresh;
  }
  spend-IsGood marker prompt (ok u, p) k ready fresh = start_turn-IsGood prompt marker _ ready fresh

  admit_prompt-IsGood :
      (cost : ℕ) (marker : Option Text) (text : Text) (end : Arbiter × Option Text) (k : Core J B)
      → IsGood w.hex k.control
      → Admission w.hex k.control text end
      → IsGood w.hex (admit_prompt w cost marker end k).1.control
  unfolding admit_prompt set_arbiter
  admit_prompt-IsGood cost marker text (a, none) k good (waits _ held) = held
  admit_prompt-IsGood cost marker text (a, some p) k good (reserves _ ready) =
      spend-IsGood marker text
        (apply_patch
          (budget_items (admission_patch w.zone k.body.state.state.budget k.body.now cost))
          k.body.state)
        (set_arbiter a k) ready (same-IsFresh w.hex a k.control good.fresh)

  dispatch_decided-IsGood :
      (d : Decision) (cost : ℕ) (marker : Option Text) (text : Text) (k : Core J B)
      → IsGood w.hex k.control
      → IsGood w.hex (dispatch_decided w d cost marker text k).1.control
  unfolding dispatch_decided
  dispatch_decided-IsGood defer cost marker text k good = good
  dispatch_decided-IsGood skip cost marker text k good = good
  dispatch_decided-IsGood admit cost marker text k good =
      admit_prompt-IsGood cost marker text (submit text k.control.arbiter) k good
        (submit-Admission w.hex text k.control good)

  dispatch_prompt-IsGood :
      (cost : ℕ) (marker prompt : Option Text) (k : Core J B)
      → IsGood w.hex k.control
      → IsGood w.hex (dispatch_prompt w cost marker prompt k).1.control
  unfolding dispatch_prompt
  dispatch_prompt-IsGood cost marker none k good = good
  dispatch_prompt-IsGood cost marker (some text) k good =
      elim (Bool-cases (is_idle k.control.arbiter)) [
        | inl e ↦ rw e (
            dispatch_decided-IsGood
              (evaluate w.zone w.budget k.body.state.state.budget k.body.now cost) cost marker text
              k good)
        | inr e ↦ rw e good
      ]

  pub dispatch_turn_job-IsGood :
      (j : Job (Core J B)) (k : Core J B)
      → IsGood w.hex k.control
      → IsGood w.hex (dispatch_turn_job w j k).1.control
  unfolding dispatch_turn_job
  dispatch_turn_job-IsGood j k good =
      dispatch_prompt-IsGood j.cost j.history_owner_text (resolve_job_prompt j k) k good

  after_decide-IsSound :
      (approved : Bool) (c : Control) (end : Result (Verdict J) × Body J B)
      → IsGood w.hex c
      → ((ms : List (Message J)) (tool_call : ToolCall J)
          → end.0 ≡ ok (resumes ms tool_call)
          → is_idle c.arbiter ≡ true)
      → IsSound w.hex (after_decide w approved c end)
  unfolding after_decide
  after_decide-IsSound approved c (err e, b) good idle = raises e _
  after_decide-IsSound approved c (ok settled, b) good idle = goes _ good
  after_decide-IsSound approved c (ok (resumes ms tool_call), b) good idle = goes _ (
      resume-IsGood approved ms tool_call (record { control = c; body = b })
        (idle ms tool_call refl) good)

  pub decision-IsSound :
      (turn_id : String) (approved : Bool) (k : Core J B)
      → IsGood w.hex k.control
      → IsSound w.hex (handle_approval_decision w turn_id approved k)
  unfolding handle_approval_decision
  decision-IsSound turn_id approved k good =
      after_decide-IsSound approved k.control
        (decide w (is_idle k.control.arbiter) turn_id approved k.body) good
        (decide_settles w (is_idle k.control.arbiter) turn_id approved k.body)
