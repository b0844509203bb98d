-- ===== src/Runtime/Refinement.antt =====
-- shelldon/core/runtime.py: every step is a move of the slot, and tries to fork the workers of the move.
use shelldon.Arbiter.{submit, submit_in, is_idle}
use shelldon.Base.{Bool, true, false, String, List, [], ◌≡◌, refl, sym, ap, ◌∙◌, subst}
use shelldon.Base.Result.{Result, ok, err}
use shelldon.Base.Text.{codes}
use shelldon.Broker.{ToolCall, Message}
use shelldon.Runtime.{World, Body, Core, Spawn}
use shelldon.Runtime.Approvals.{
  Verdict, settled, resumes, handle_approval_decision, after_decide, resume, decide,
}
use shelldon.Runtime.Exec.{Exec}
use shelldon.Runtime.Coherent.{IsCoherent}
use shelldon.Runtime.Dispatch.{set_arbiter}
use shelldon.Runtime.Loop.{
  Input, inbound, decision, result_of, event_of, unexpected, timeout_of, turn_job, prune_job,
  checkpoint_job, reflex_job, Moment, Lifecycle, running, stopped, consume, on_body, after_mark,
  admit_text, at_moment, cleanup, after_consume, is_consumer, step, mark_interaction, is_approved,
  handle_nudge, run_reflex_job, run_prune_job, checkpoint_if_dirty,
}
use shelldon.Runtime.Turns.{start_resume_turn}
use shelldon.Runtime.Inputs.{mark-Stays, reflex-Stays, prune-Stays, checkpoint-Stays, nudge-Stays}
use shelldon.Runtime.Frame.{Stays, attempt-Stays}
use shelldon.Base.{◌++◌, append-nil}
use shelldon.Runtime.Forks.{decide-Forkless}
use shelldon.Runtime.Slot.{halted, Given, given, told, untold, Moves, stays, halts, slot_of, slot}
use shelldon.Runtime.Refines.{Reaches, Reaches-none, admit_text-Reaches}
use shelldon.Runtime.Directive.{core_of}
use shelldon.Runtime.Sound.{IsSafe, runs}
use shelldon.Runtime.Settles.{decide_settles}
use shelldon.Runtime.Handling.{
  Handled, went, raised, unchanged, on_body-Handled, after_mark_result, handle_result-Handled,
  timeout-Reaches, job-Reaches, resume_in-Reaches,
}

module _ {J B : Type 0} (w : World J B) where
  after_decide-Handled :
      (approved : Bool) (k : Core J B) (end : Result (Verdict J) × Body J B)
      → IsCoherent k.control
      → ((ms : List (Message J)) (tool_call : ToolCall J)
          → end.0 ≡ ok (resumes ms tool_call)
          → is_idle k.control.arbiter ≡ true)
      → end.1.spawned ≡ k.body.spawned
      → Handled untold k (after_decide w approved k.control end)
  unfolding after_decide resume is_idle submit set_arbiter
  after_decide-Handled approved k (err x, b) coherent idle e = raised x _ e
  after_decide-Handled approved k (ok settled, b) coherent idle e =
      went _
        (Reaches-none untold (slot_of k.control) _ k.body.spawned (stays (slot_of k.control)) e)
  after_decide-Handled approved k (ok (resumes ms tool_call), b) coherent idle e =
      let l : Core J B = record { control = k.control; body = b } in
      went _ (
        subst
          (λ xs. Reaches {J = J} {B = B} untold (slot_of k.control) xs (
            start_resume_turn w ms tool_call approved (
              set_arbiter
                (submit_in k.control.arbiter.worker_in_flight (codes "[tool approval]")
                  k.control.arbiter).0
                l)))
          e
          (resume_in-Reaches w k.control.arbiter.worker_in_flight approved ms tool_call l
            (idle ms tool_call refl) refl coherent))

  decision-Handled :
      (t : String) (approved : Bool) (k : Core J B)
      → IsCoherent k.control
      → Handled untold k (handle_approval_decision w t approved k)
  unfolding handle_approval_decision
  decision-Handled t approved k coherent =
      let idle = is_idle k.control.arbiter in
      after_decide-Handled approved k (decide w idle t approved k.body) coherent
        (decide_settles w idle t approved k.body) (decide-Forkless w idle t approved k.body)

  -- A handler that comes after a statement in which core's control does not change.
  Handled-after :
      (g : Given) (k l : Core J B) (end : Result (Unit {0}) × Core J B)
      → l.control ≡ k.control
      → l.body.spawned ≡ k.body.spawned
      → Handled g l end
      → Handled g k end
  Handled-after g k l end c e (went m r) = went m (
      subst (λ xs. Reaches {J = J} {B = B} g (slot_of k.control) xs m) e
        (subst (λ d. Reaches {J = J} {B = B} g (slot_of d) l.body.spawned m) c r))
  Handled-after g k l end c e (raised x m same) = raised x m (same ∙ e)

  marked-Handled :
      (g : Given) (k : Core J B) (next : Core J B → Result (Unit {0}) × Core J B)
      → IsCoherent k.control
      → ((l : Core J B) → IsCoherent l.control → Handled g l (next l))
      → Handled g k (after_mark (on_body mark_interaction k) next)
  unfolding on_body
  marked-Handled g k next coherent handles =
      after_mark_result g k (mark_interaction k.body) next (ap (λ p. p.0) (mark-Stays k.body))
        (λ l c e. Handled-after g k l (next l) c e (handles l (subst IsCoherent (sym c) coherent)))

  consumer-Handled :
      (i : Input J B) (k : Core J B)
      → is_consumer i ≡ true
      → IsCoherent k.control
      → Handled (given i) k (consume w i k)
  unfolding consume is_consumer given
  consumer-Handled (inbound text) k c coherent =
      marked-Handled (told text) k (λ k. (ok tt, admit_text w text k)) coherent
        (λ l good. went _ (admit_text-Reaches w text l good))
  consumer-Handled (decision turn_id approved) k c coherent =
      marked-Handled untold k (handle_approval_decision w turn_id (is_approved approved)) coherent
        (decision-Handled turn_id (is_approved approved))
  consumer-Handled (result_of turn_id r) k c coherent = handle_result-Handled w turn_id r k
  consumer-Handled (event_of e) k c coherent =
      on_body-Handled (handle_nudge w k.control e) k (nudge-Stays w k.control e)
  consumer-Handled unexpected k c coherent = went k (unchanged k)
  consumer-Handled (timeout_of turn_id) k c coherent = cc
  consumer-Handled (turn_job j) k c coherent = cc
  consumer-Handled prune_job k c coherent = cc
  consumer-Handled checkpoint_job k c coherent = cc
  consumer-Handled (reflex_job patch) k c coherent = cc

  on_body-Reaches :
      (m : Exec J B (Unit {0})) (k : Core J B)
      → Stays m
      → Reaches untold (slot_of k.control) k.body.spawned (on_body m k).1
  unfolding on_body
  on_body-Reaches m k same =
      Reaches-none untold (slot_of k.control) _ k.body.spawned (stays (slot_of k.control))
        (ap (λ p. p.0) (same k.body))

  timer-Reaches :
      (i : Input J B) (k : Core J B)
      → is_consumer i ≡ false
      → IsCoherent k.control
      → Reaches (given i) (slot_of k.control) k.body.spawned (consume w i k).1
  unfolding consume is_consumer given
  timer-Reaches (inbound text) k c coherent = cc
  timer-Reaches (decision turn_id approved) k c coherent = cc
  timer-Reaches (result_of turn_id r) k c coherent = cc
  timer-Reaches (event_of e) k c coherent = cc
  timer-Reaches unexpected k c coherent = cc
  timer-Reaches (timeout_of turn_id) k c coherent = timeout-Reaches w turn_id k
  timer-Reaches (turn_job j) k c coherent = job-Reaches w j k coherent
  timer-Reaches prune_job k c coherent = on_body-Reaches run_prune_job k prune-Stays
  timer-Reaches checkpoint_job k c coherent = on_body-Reaches checkpoint_if_dirty k checkpoint-Stays
  timer-Reaches (reflex_job patch) k c coherent =
      on_body-Reaches (run_reflex_job k.control patch) k (reflex-Stays k.control patch)

-- A step of core refines a move of the slot: what it tried to fork, and whether it did, is the move's.
pub record IsMove {J B : Type 0} (g : Given) (p q : Lifecycle J B) : Type 0 where
  pub forked : List (Bool × Spawn J)
  pub moved : Moves J g (slot p) forked (slot q)
  pub spawned : (core_of q).body.spawned ≡ (core_of p).body.spawned ++ forked

module _ {J B : Type 0} (w : World J B) where
  consumer-IsMove :
      (g : Given) (k : Core J B) (end : Result (Unit {0}) × Core J B)
      → Handled g k end
      → IsMove g (running k) (after_consume true end)
  unfolding after_consume cleanup slot
  consumer-IsMove g k (ok u, l) (went _ r) = record {
    forked = r.forked;
    moved = r.moved;
    spawned = r.spawned;
  }
  consumer-IsMove g k (err x, l) (raised _ _ e) = record {
    forked = [];
    moved = halts g (slot_of k.control);
    spawned =
        ap (λ p. p.0) (attempt-Stays checkpoint_if_dirty checkpoint-Stays l.body)
        ∙ (e ∙ sym (append-nil k.body.spawned));
  }

  timer-IsMove :
      (g : Given) (k : Core J B) (end : Result (Unit {0}) × Core J B)
      → Reaches g (slot_of k.control) k.body.spawned end.1
      → IsMove g (running k) (after_consume false end)
  unfolding after_consume slot
  timer-IsMove g k (ok u, l) r = record { forked = r.forked; moved = r.moved; spawned = r.spawned }
  timer-IsMove g k (err x, l) r = record { forked = r.forked; moved = r.moved; spawned = r.spawned }

  input-IsMove :
      (in_consumer : Bool) (i : Input J B) (k : Core J B)
      → is_consumer i ≡ in_consumer
      → IsCoherent k.control
      → IsMove (given i) (running k) (after_consume in_consumer (consume w i k))
  input-IsMove true i k c coherent =
      consumer-IsMove (given i) k _ (consumer-Handled w i k c coherent)
  input-IsMove false i k c coherent = timer-IsMove (given i) k _ (timer-Reaches w i k c coherent)

  -- Core implements the abstract slot: from a state in which its guards agree, every step, whatever
  -- it is given and whichever calls fail, is one move of the slot for what it was given, and tries to
  -- fork exactly the worker that the move says. So a worker is forked only when the slot is free or
  -- has just been freed; a message starts a turn of its own text if the slot is free, and waits behind
  -- the others if it is not, unless core stops; at the turn's end all that wait are one prompt, in
  -- order; and a message is lost only with a fork that failed, or with a stop of core.
  pub step-IsMove :
      (s : Moment × Input J B) (p : Lifecycle J B)
      → IsSafe w.hex p
      → IsMove (given s.1) p (step w s p)
  unfolding step at_moment slot
  step-IsMove (m, i) (stopped k) safe = record {
    forked = [];
    moved = halts (given i) halted;
    spawned = sym (append-nil k.body.spawned);
  }
  step-IsMove (m, i) (running k) (runs _ good) =
      let l = at_moment m k in
      let move = input-IsMove (is_consumer i) i l refl good.coherent in
      record { forked = move.forked; moved = move.moved; spawned = move.spawned }
