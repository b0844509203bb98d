-- ===== src/Runtime/Directive.antt =====
-- shelldon/core/runtime.py: the owner's directive changes only by the owner's approval.
use shelldon.Arbiter.{Arbiter, submit, complete, is_idle}
use shelldon.Base.{
  ℕ, Option, none, some, Bool, true, false, String, List, [], ◌∷◌, ◌≡◌, refl, ap, ◌∙◌, All, inl,
  inr, Bool-cases,
}
use shelldon.Base.Result.{Result, ok, err}
use shelldon.Base.Text.{Text, codes}
use shelldon.Broker.{ToolCall, Message}
use shelldon.Budget.{Decision, admit, defer, skip, evaluate, admission_patch}
use shelldon.Fence.{accept, is_current}
use shelldon.Runtime.{World, Body, Control, Core, WorkerResult, Spawn, resumed}
use shelldon.Runtime.Approvals.{
  Verdict, settled, resumes, handle_approval_decision, after_decide, resume, decide,
}
use shelldon.Runtime.Exec.{Exec, attempt}
use shelldon.Runtime.Dispatch.{
  dispatch_turn_job, dispatch_prompt, dispatch_decided, admit_prompt, spend_and_start, set_state,
  set_arbiter, budget_items, resolve_job_prompt,
}
use shelldon.Runtime.Loop.{
  Input, inbound, decision, result_of, event_of, unexpected, timeout_of, turn_job, prune_job,
  checkpoint_job, reflex_job, Moment, Lifecycle, running, stopped, consume, on_body, after_mark,
  start_admitted, admit_text, at_moment, cleanup, after_consume, is_consumer, step, run,
  mark_interaction, is_approved, handle_nudge, run_reflex_job, run_prune_job, checkpoint_if_dirty,
}
use shelldon.Runtime.Turns.{
  end_turn, release, begin_with, start_turn, start_resume_turn, start_folded, after_digest,
  handle_accepted, handle_from, handle_result, digest, announce, time_out, timeout_watch,
}
use shelldon.Scheduler.{Job}
use shelldon.State.{PersistentState, apply_patch}
use shelldon.Memory.{read_file, directive_name}
use shelldon.Runtime.Inputs.{
  mark-Stays, reflex-Stays, prune-Stays, checkpoint-Stays, nudge-Stays, denial-Stays,
  watched-launch,
}
use shelldon.Runtime.Digest.{digest-Stays, announce-Stays}
use shelldon.Runtime.Watched.{degrade-Stays}
use shelldon.Runtime.Screen.{degrade}
use shelldon.Runtime.Frame.{Stays, attempt-Stays}

-- Whether an input is the owner's approval.
unfoldable pub is_approval_of : {J B : Type 0} → Input J B → Bool
is_approval_of (inbound text) = false
is_approval_of (decision turn_id approved) = is_approved approved
is_approval_of (result_of turn_id r) = false
is_approval_of (event_of e) = false
is_approval_of unexpected = false
is_approval_of (timeout_of turn_id) = false
is_approval_of (turn_job j) = false
is_approval_of prune_job = false
is_approval_of checkpoint_job = false
is_approval_of (reflex_job patch) = false

module _ {J B : Type 0} where
  unfoldable pub directive : Core J B → Option Text
  directive k = read_file directive_name k.body.memory

  directive-on_body :
      (m : Exec J B (Unit {0})) (k : Core J B) → Stays m → directive (on_body m k).1 ≡ directive k
  unfolding on_body directive
  directive-on_body m k stays = ap (λ p. p.1) (stays k.body)

  directive-begin_with :
      (t : String) (s : Spawn J) (owner_side : Text) (is_owner : Bool) (k : Core J B)
      → directive (begin_with t s owner_side is_owner k) ≡ directive k
  unfolding begin_with directive
  directive-begin_with t s owner_side is_owner k = ap (λ p. p.1) (watched-launch s k.body)

  -- The core of a process, running or not.
  abbrev pub core_of : Lifecycle J B → Core J B
  core_of (running k) = k
  core_of (stopped k) = k

module _ {J B : Type 0} (w : World J B) where
  directive-start_turn :
      (prompt : Text) (marker : Option Text) (k : Core J B)
      → directive (start_turn w prompt marker k) ≡ directive k
  unfolding start_turn
  directive-start_turn prompt marker k = directive-begin_with _ _ _ _ k

  directive-start_folded :
      (next : Option Text) (k : Core J B) → directive (start_folded w next k) ≡ directive k
  unfolding start_folded
  directive-start_folded none k = refl
  directive-start_folded (some p) k = directive-start_turn p none k

  directive-after_digest :
      (c : Control) (r : WorkerResult J) (end : Result (Unit {0}) × Body J B)
      → directive (after_digest w c r end).1 ≡ read_file directive_name end.1.memory
  unfolding after_digest directive
  directive-after_digest c r (err e, b) = refl
  directive-after_digest c r (ok tt, b) =
      directive-start_folded (complete c.arbiter).1
        (record { control = release c; body = (announce r b).1 })
      ∙ ap (λ p. p.1) (announce-Stays r b)

  directive-handle_from :
      (admitted : Bool) (t : Option String) (r : WorkerResult J) (k : Core J B)
      → directive (handle_from admitted w t r k).1 ≡ directive k
  unfolding handle_from handle_accepted directive
  directive-handle_from admitted none r k = refl
  directive-handle_from false (some t) r k = refl
  directive-handle_from true (some t) r k =
      directive-after_digest (end_turn t k.control) r (digest w k.control t r k.body)
      ∙ ap (λ p. p.1) (digest-Stays w k.control t r k.body)

  timeout_directive : (t : String) (k : Core J B) → directive (timeout_watch w t k) ≡ directive k
  unfolding timeout_watch time_out directive
  timeout_directive t k = elim (Bool-cases (is_current k.control.fence.current t)) [
    | inl e ↦ rw e (
        directive-start_folded (complete (end_turn t k.control).arbiter).1 (record {
          control = release (end_turn t k.control);
          body = (attempt (degrade k.control) k.body).1;
        })
        ∙ ap (λ p. p.1) (attempt-Stays (degrade k.control) (degrade-Stays k.control) k.body))
    | inr e ↦ rw e refl
  ]

  spend_directive :
      (marker : Option Text) (prompt : Text) (end : Result (Unit {0}) × PersistentState)
      (k : Core J B)
      → directive (spend_and_start w marker prompt end k).1 ≡ directive k
  unfolding spend_and_start set_arbiter set_state directive
  spend_directive marker prompt (err e, p) k = refl
  spend_directive marker prompt (ok u, p) k = directive-start_turn prompt marker (set_state p k)

  directive-admit_prompt :
      (cost : ℕ) (marker : Option Text) (end : Arbiter × Option Text) (k : Core J B)
      → directive (admit_prompt w cost marker end k).1 ≡ directive k
  unfolding admit_prompt set_arbiter directive
  directive-admit_prompt cost marker (a, none) k = refl
  directive-admit_prompt cost marker (a, some p) k =
      spend_directive marker p
        (apply_patch
          (budget_items (admission_patch w.zone k.body.state.state.budget k.body.now cost))
          k.body.state)
        (set_arbiter a k)

  directive-dispatch_decided :
      (d : Decision) (cost : ℕ) (marker : Option Text) (text : Text) (k : Core J B)
      → directive (dispatch_decided w d cost marker text k).1 ≡ directive k
  unfolding dispatch_decided
  directive-dispatch_decided defer cost marker text k = refl
  directive-dispatch_decided skip cost marker text k = refl
  directive-dispatch_decided admit cost marker text k =
      directive-admit_prompt cost marker (submit text k.control.arbiter) k

  directive-dispatch_prompt :
      (cost : ℕ) (marker prompt : Option Text) (k : Core J B)
      → directive (dispatch_prompt w cost marker prompt k).1 ≡ directive k
  unfolding dispatch_prompt
  directive-dispatch_prompt cost marker none k = refl
  directive-dispatch_prompt cost marker (some text) k =
      elim (Bool-cases (is_idle k.control.arbiter)) [
        | inl e ↦ rw e (
            directive-dispatch_decided
              (evaluate w.zone w.budget k.body.state.state.budget k.body.now cost) cost marker text
              k)
        | inr e ↦ rw e refl
      ]

  result_directive :
      (t : Option String) (r : WorkerResult J) (k : Core J B)
      → directive (handle_result w t r k).1 ≡ directive k
  unfolding handle_result
  result_directive t r k = directive-handle_from (accept t k.control.fence) t r k

  job_directive :
      (j : Job (Core J B)) (k : Core J B) → directive (dispatch_turn_job w j k).1 ≡ directive k
  unfolding dispatch_turn_job
  job_directive j k =
      directive-dispatch_prompt j.cost j.history_owner_text (resolve_job_prompt j k) k

  directive-start_admitted :
      (prompt : Option Text) (k : Core J B) → directive (start_admitted w prompt k) ≡ directive k
  unfolding start_admitted
  directive-start_admitted none k = refl
  directive-start_admitted (some p) k = directive-start_turn p none k

  directive-admit_text :
      (text : Text) (k : Core J B) → directive (admit_text w text k) ≡ directive k
  unfolding admit_text directive
  directive-admit_text text k = directive-start_admitted (submit text k.control.arbiter).1 _

  resume_directive :
      (ms : List (Message J)) (tool_call : ToolCall J) (k : Core J B)
      → directive (start_resume_turn w ms tool_call false k) ≡ directive k
  unfolding start_resume_turn
  resume_directive ms tool_call k =
      directive-begin_with (w.hex k.control.minted)
        (resumed (w.hex k.control.minted) ms tool_call false)
        (codes "[resumed after tool approval]") true k

  directive-after_decide :
      (c : Control) (end : Result (Verdict J) × Body J B)
      → directive (after_decide w false c end).1 ≡ read_file directive_name end.1.memory
  unfolding after_decide resume directive
  directive-after_decide c (err e, b) = refl
  directive-after_decide c (ok settled, b) = refl
  directive-after_decide c (ok (resumes ms tool_call), b) = resume_directive ms tool_call (record {
    control = record c { arbiter = (submit (codes "[tool approval]") c.arbiter).0 };
    body = b;
  })

  denial_directive :
      (t : String) (k : Core J B) → directive (handle_approval_decision w t false k).1 ≡ directive k
  unfolding handle_approval_decision directive
  denial_directive t k =
      directive-after_decide k.control (decide w (is_idle k.control.arbiter) t false k.body)
      ∙ ap (λ p. p.1) (denial-Stays w (is_idle k.control.arbiter) t k.body)

  directive-after_mark :
      (end : Result (Unit {0}) × Core J B) (next : Core J B → Result (Unit {0}) × Core J B)
      → ((k : Core J B) → directive (next k).1 ≡ directive k)
      → directive (after_mark end next).1 ≡ directive end.1
  unfolding after_mark
  directive-after_mark (ok u, k) next same = same k
  directive-after_mark (err e, k) next same = refl

  decision_directive :
      (t : String) (approved : Bool) (k : Core J B)
      → approved ≡ false
      → directive (handle_approval_decision w t approved k).1 ≡ directive k
  decision_directive t false k h = denial_directive t k
  decision_directive t true k h = cc

  directive-consume :
      (i : Input J B) (k : Core J B)
      → is_approval_of i ≡ false
      → directive (consume w i k).1 ≡ directive k
  unfolding consume is_approval_of
  directive-consume (inbound text) k h =
      directive-after_mark (on_body mark_interaction k) (λ k. (ok tt, admit_text w text k))
        (directive-admit_text text)
      ∙ directive-on_body mark_interaction k mark-Stays
  directive-consume (decision t approved) k h =
      directive-after_mark (on_body mark_interaction k)
        (handle_approval_decision w t (is_approved approved))
        (λ k. decision_directive t (is_approved approved) k h)
      ∙ directive-on_body mark_interaction k mark-Stays
  directive-consume (result_of t r) k h = result_directive t r k
  directive-consume (event_of e) k h =
      directive-on_body (handle_nudge w k.control e) k (nudge-Stays w k.control e)
  directive-consume unexpected k h = refl
  directive-consume (timeout_of t) k h = timeout_directive t k
  directive-consume (turn_job j) k h = job_directive j k
  directive-consume prune_job k h = directive-on_body run_prune_job k prune-Stays
  directive-consume checkpoint_job k h = directive-on_body checkpoint_if_dirty k checkpoint-Stays
  directive-consume (reflex_job patch) k h =
      directive-on_body (run_reflex_job k.control patch) k (reflex-Stays k.control patch)

  directive-after_consume :
      (in_consumer : Bool) (end : Result (Unit {0}) × Core J B)
      → directive (core_of (after_consume in_consumer end)) ≡ directive end.1
  unfolding after_consume cleanup directive
  directive-after_consume in_consumer (ok u, k) = refl
  directive-after_consume true (err e, k) =
      ap (λ p. p.1) (attempt-Stays checkpoint_if_dirty checkpoint-Stays k.body)
  directive-after_consume false (err e, k) = refl

  directive-step :
      (s : Moment × Input J B) (p : Lifecycle J B)
      → is_approval_of s.1 ≡ false
      → directive (core_of (step w s p)) ≡ directive (core_of p)
  unfolding step at_moment directive
  directive-step (m, i) (stopped k) h = refl
  directive-step (m, i) (running k) h =
      directive-after_consume (is_consumer i) (consume w i (at_moment m k))
      ∙ directive-consume i (at_moment m k) h

  -- As long as the owner approves nothing, the owner's directive stays word for word as it is:
  -- whatever is said, denied, scheduled, proposed by a worker or left to time out, and whichever
  -- calls fail.
  pub run_directive :
      (ss : List (Moment × Input J B)) (p : Lifecycle J B)
      → All (λ s. is_approval_of s.1 ≡ false) ss
      → directive (core_of (run w ss p)) ≡ directive (core_of p)
  unfolding run
  run_directive [] p h = refl
  run_directive (s ∷ ss) p h = run_directive ss (step w s p) h.1 ∙ directive-step s p h.0
