-- ===== src/Runtime/Handling.antt =====
-- shelldon/core/runtime.py: a Result, a timeout and a scheduled job as moves of the slot.
use shelldon.Arbiter.{submit, submit_in, reset, is_idle}
use shelldon.Base.{
  ℕ, Option, none, some, Bool, true, false, not, String, List, [], ◌≡◌, refl, sym, ap, ◌∙◌, subst,
  inl, inr, Bool-cases,
}
use shelldon.Base.Result.{Result, ok, err, Error}
use shelldon.Base.Text.{Text, codes}
use shelldon.Broker.{ToolCall, Message}
use shelldon.Budget.{Decision, admit, defer, skip, evaluate, admission_patch}
use shelldon.Fence.{accept, is_current}
use shelldon.Runtime.{World, Body, Control, Core, WorkerResult, resumed}
use shelldon.Runtime.Exec.{Exec, attempt}
use shelldon.Runtime.Coherent.{IsCoherent, at_rest, in_flight}
use shelldon.Runtime.Dispatch.{
  dispatch_turn_job, dispatch_prompt, dispatch_decided, admit_prompt, spend_and_start, set_state,
  set_arbiter, budget_items, resolve_job_prompt,
}
use shelldon.Runtime.Loop.{on_body, after_mark}
use shelldon.Runtime.Turns.{
  end_turn, start_resume_turn, after_digest, handle_accepted, handle_from, handle_result, digest,
  announce, time_out, timeout_watch,
}
use shelldon.Scheduler.{Job}
use shelldon.State.{PersistentState, apply_patch}
use shelldon.Runtime.Digest.{digest-Stays, announce-Stays}
use shelldon.Runtime.Watched.{degrade-Stays}
use shelldon.Runtime.Screen.{degrade}
use shelldon.Runtime.Frame.{Stays, attempt-Stays}
use shelldon.Runtime.{fresh_turn}
use shelldon.Runtime.Slot.{resting, turn_of, Given, untold, Moves, stays, begins, misses, slot_of}
use shelldon.Runtime.Refines.{
  Reaches, Reaches-none, end-Reaches, begin_with-Reaches, from_rest, rest_slot, rest_starts,
}
use shelldon.Runtime.Admission.{accept→current, current→eq}

-- How an envelope is handled: the step of the slot, or a raise, before which nothing was forked.
pub data Handled {J B : Type 0} (g : Given) (k : Core J B)
    : Result (Unit {0}) × Core J B → Type 0 where
  went : (l : Core J B) → Reaches g (slot_of k.control) k.body.spawned l → Handled g k (ok tt, l)
  raised : (e : Error) (l : Core J B) → l.body.spawned ≡ k.body.spawned → Handled g k (err e, l)

module _ {J B : Type 0} where
  pub unchanged : (k : Core J B) → Reaches untold (slot_of k.control) k.body.spawned k
  unchanged k =
      Reaches-none untold (slot_of k.control) k k.body.spawned (stays (slot_of k.control)) refl

  on_body_result :
      (k : Core J B) (end : Result (Unit {0}) × Body J B)
      → end.1.spawned ≡ k.body.spawned
      → Handled untold k (end.0, record k { body = end.1 })
  on_body_result k (ok u, b) e =
      went _
        (Reaches-none untold (slot_of k.control) _ k.body.spawned (stays (slot_of k.control)) e)
  on_body_result k (err x, b) e = raised x _ e

  pub on_body-Handled :
      (m : Exec J B (Unit {0})) (k : Core J B) → Stays m → Handled untold k (on_body m k)
  unfolding on_body
  on_body-Handled m k same = on_body_result k (m k.body) (ap (λ p. p.0) (same k.body))

  -- After the first statement, which left the slot and the workers as they were.
  pub after_mark_result :
      (g : Given) (k : Core J B) (end : Result (Unit {0}) × Body J B)
      (next : Core J B → Result (Unit {0}) × Core J B)
      → end.1.spawned ≡ k.body.spawned
      → ((l : Core J B)
          → l.control ≡ k.control
          → l.body.spawned ≡ k.body.spawned
          → Handled g k (next l))
      → Handled g k (after_mark (end.0, record k { body = end.1 }) next)
  unfolding after_mark
  after_mark_result g k (ok u, b) next e handles = handles _ refl e
  after_mark_result g k (err x, b) next e handles = raised x _ e

module _ {J B : Type 0} (w : World J B) where
  after_digest-Handled :
      (t : String) (k : Core J B) (r : WorkerResult J) (end : Result (Unit {0}) × Body J B)
      → k.control.fence.current ≡ some t
      → end.1.spawned ≡ k.body.spawned
      → Handled untold k (after_digest w (end_turn t k.control) r end)
  unfolding after_digest end_turn
  after_digest-Handled t k r (err x, b) is_open e = raised x _ e
  after_digest-Handled t k r (ok tt, b) is_open e = went _ (
      end-Reaches w t k.control (announce r b).1 k.body.spawned is_open
        (ap (λ p. p.0) (announce-Stays r b) ∙ e))

  handle_from-Handled :
      (admitted : Bool) (t : Option String) (r : WorkerResult J) (k : Core J B)
      → accept t k.control.fence ≡ admitted
      → Handled untold k (handle_from admitted w t r k)
  unfolding handle_from handle_accepted
  handle_from-Handled admitted none r k e = went k (unchanged k)
  handle_from-Handled false (some t) r k e = went k (unchanged k)
  handle_from-Handled true (some t) r k e =
      after_digest-Handled t k r (digest w k.control t r k.body)
        (accept→current t k.control.fence e) (ap (λ p. p.0) (digest-Stays w k.control t r k.body))

  pub handle_result-Handled :
      (t : Option String) (r : WorkerResult J) (k : Core J B)
      → Handled untold k (handle_result w t r k)
  unfolding handle_result
  handle_result-Handled t r k = handle_from-Handled (accept t k.control.fence) t r k refl

  pub timeout-Reaches :
      (t : String) (k : Core J B)
      → Reaches untold (slot_of k.control) k.body.spawned (timeout_watch w t k)
  unfolding timeout_watch time_out end_turn
  timeout-Reaches t k = elim (Bool-cases (is_current k.control.fence.current t)) [
    | inl e ↦ rw e (
        end-Reaches w t k.control (attempt (degrade k.control) k.body).1 k.body.spawned
          (current→eq k.control.fence.current t e)
          (ap (λ p. p.0) (attempt-Stays (degrade k.control) (degrade-Stays k.control) k.body)))
    | inr e ↦ rw e (unchanged k)
  ]

  spend-Reaches :
      (marker : Option Text) (prompt : Text) (end : Result (Unit {0}) × PersistentState)
      (c : Control) (k : Core J B)
      → c.fence.current ≡ none
      → k.control.fence.current ≡ none
      → k.control.arbiter.pending ≡ []
      → Reaches untold (slot_of c) k.body.spawned (spend_and_start w marker prompt end k).1
  unfolding spend_and_start set_state set_arbiter turn_of
  spend-Reaches marker prompt (err e, p) c k shut free empty =
      from_rest untold c k.body.spawned _ shut (
        Reaches-none untold resting (set_arbiter (reset k.control.arbiter) (set_state p k))
          k.body.spawned
          (subst (λ s. Moves J untold resting [] s)
            (sym (rest_slot (set_arbiter (reset k.control.arbiter) (set_state p k)).control free))
            (stays resting))
          refl)
  spend-Reaches marker prompt (ok u, p) c k shut free empty =
      rest_starts w untold prompt marker c (set_state p k) shut empty
        (begins (fresh_turn (w.hex k.control.minted) prompt))
        (misses (fresh_turn (w.hex k.control.minted) prompt))

  admit_prompt-Reaches :
      (busy : Bool) (cost : ℕ) (marker : Option Text) (text : Text) (k : Core J B)
      → not busy ≡ true
      → k.control.arbiter.worker_in_flight ≡ busy
      → IsCoherent k.control
      → Reaches untold
          (slot_of k.control)
          k.body.spawned
          (admit_prompt w cost marker (submit_in busy text k.control.arbiter) k).1
  unfolding admit_prompt submit_in set_arbiter
  admit_prompt-Reaches true cost marker text k idle e coherent = cc
  admit_prompt-Reaches false cost marker text k idle e (at_rest shut free empty unarmed) =
      spend-Reaches marker text
        (apply_patch
          (budget_items (admission_patch w.zone k.body.state.state.budget k.body.now cost))
          k.body.state)
        k.control (set_arbiter (submit_in false text k.control.arbiter).0 k) shut shut empty
  admit_prompt-Reaches false cost marker text k idle e (in_flight t is_open admitted busy armed) =
      cc

  dispatch_decided-Reaches :
      (d : Decision) (cost : ℕ) (marker : Option Text) (text : Text) (k : Core J B)
      → is_idle k.control.arbiter ≡ true
      → IsCoherent k.control
      → Reaches untold
          (slot_of k.control)
          k.body.spawned
          (dispatch_decided w d cost marker text k).1
  unfolding dispatch_decided is_idle submit
  dispatch_decided-Reaches defer cost marker text k idle coherent = unchanged k
  dispatch_decided-Reaches skip cost marker text k idle coherent = unchanged k
  dispatch_decided-Reaches admit cost marker text k idle coherent =
      admit_prompt-Reaches k.control.arbiter.worker_in_flight cost marker text k idle refl coherent

  dispatch_prompt-Reaches :
      (cost : ℕ) (marker prompt : Option Text) (k : Core J B)
      → IsCoherent k.control
      → Reaches untold (slot_of k.control) k.body.spawned (dispatch_prompt w cost marker prompt k).1
  unfolding dispatch_prompt
  dispatch_prompt-Reaches cost marker none k coherent = unchanged k
  dispatch_prompt-Reaches cost marker (some text) k coherent =
      elim (Bool-cases (is_idle k.control.arbiter)) [
        | inl e ↦ rw e (
            dispatch_decided-Reaches
              (evaluate w.zone w.budget k.body.state.state.budget k.body.now cost) cost marker text
              k e coherent)
        | inr e ↦ rw e (unchanged k)
      ]

  pub job-Reaches :
      (j : Job (Core J B)) (k : Core J B)
      → IsCoherent k.control
      → Reaches untold (slot_of k.control) k.body.spawned (dispatch_turn_job w j k).1
  unfolding dispatch_turn_job
  job-Reaches j k coherent =
      dispatch_prompt-Reaches j.cost j.history_owner_text (resolve_job_prompt j k) k coherent

  pub resume_in-Reaches :
      (busy approved : Bool) (ms : List (Message J)) (tool_call : ToolCall J) (k : Core J B)
      → not busy ≡ true
      → k.control.arbiter.worker_in_flight ≡ busy
      → IsCoherent k.control
      → Reaches untold (slot_of k.control) k.body.spawned (
          start_resume_turn w ms tool_call approved
            (set_arbiter (submit_in busy (codes "[tool approval]") k.control.arbiter).0 k))
  unfolding start_resume_turn submit_in set_arbiter turn_of
  resume_in-Reaches true approved ms tool_call k idle e coherent = cc
  resume_in-Reaches false approved ms tool_call k idle e (at_rest shut free empty unarmed) =
      let s = resumed (w.hex k.control.minted) ms tool_call approved in
      from_rest untold k.control k.body.spawned _ shut (
        begin_with-Reaches untold s (codes "[resumed after tool approval]") true
          (set_arbiter (submit_in false (codes "[tool approval]") k.control.arbiter).0 k) resting
          empty (begins s) (misses s))
  resume_in-Reaches false approved ms tool_call k idle e (in_flight t is_open admitted busy armed) =
      cc
