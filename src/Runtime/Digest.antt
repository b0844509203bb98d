-- ===== src/Runtime/Digest.antt =====
-- shelldon/core/runtime.py: the handling of a Result, of the other inputs and of a denial forks no
-- worker before the slot is released, and leaves the directive alone.
use shelldon.Base.{
  none, some, Bool, true, false, String, List, [], ◌∷◌, refl, ◌∙◌, leb, take, if◌then◌else◌,
}
use shelldon.Base.Result.{Result, ok, err}
use shelldon.Base.Text.{Text}
use shelldon.Parked.{park_promotion, default_ttl}
use shelldon.Runtime.{
  World, Control, ProposedOp, memory_op, add_face_op, capture_learning_op, resolve_learning_op,
  request_tool_approval, propose_tool, rewrite_directive, WorkerResult, max_proposed_ops,
  reaction_dwell, quarantine_strike_threshold,
}
use shelldon.Runtime.Frame.{
  Stays, bind-Stays, attempt-Stays, draw-Stays, if_Stays, perhaps_then-Stays,
}
use shelldon.Runtime.Ops.{apply_proposed_ops}
use shelldon.Runtime.Screen.{degrade}
use shelldon.Runtime.Tools.{
  set_tools, discard_staged, promote_staged, quarantine_live, run_gate_on, offer_tool, after_gate,
  after_stage, handle_propose_tool, strike, strike_tool, handle_tool_failures,
}
use shelldon.Selfcode.{stage_tool}
use shelldon.Runtime.Turns.{deliver_answer, deliver_result, propose_first, learn, digest, announce}
use shelldon.Runtime.Watched.{
  sql-Stays, send_reply-Stays, emit_event-Stays, push_face-Stays, push_caption-Stays,
  record_current-Stays, degrade-Stays, apply_ops-Stays,
}
use shelldon.Plugins.{message_answered}

module _ {J B : Type 0} where
  pub discard-Stays : (stem : String) → Stays {J = J} {B = B} (discard_staged stem)
  unfolding discard_staged set_tools
  discard-Stays stem =
      bind-Stays _ _ draw-Stays (λ first. bind-Stays _ _ draw-Stays (λ second b. refl))

  pub promote-Stays : (stem : String) → Stays {J = J} {B = B} (promote_staged stem)
  unfolding promote_staged
  promote-Stays stem =
      bind-Stays _ _ draw-Stays (λ first. bind-Stays _ _ draw-Stays (λ second b. refl))

  quarantine-Stays : (name : String) → Stays {J = J} {B = B} (quarantine_live name)
  unfolding quarantine_live set_tools
  quarantine-Stays name = bind-Stays _ _ draw-Stays (λ fails b. refl)

  offer-Stays : (t stem : String) → Stays {J = J} {B = B} (offer_tool t stem)
  unfolding offer_tool
  offer-Stays t stem =
      bind-Stays _ _ (λ b. sql-Stays (park_promotion t stem b.now default_ttl) b)
        (λ u. send_reply-Stays _ (some t))

  after_gate-Stays :
      (t stem : String) (r : Result (Bool × Text)) → Stays {J = J} {B = B} (after_gate t stem r)
  unfolding after_gate
  after_gate-Stays t stem (err e) =
      bind-Stays _ _ (discard-Stays stem) (λ u. send_reply-Stays _ none)
  after_gate-Stays t stem (ok (false, output)) =
      bind-Stays _ _ (discard-Stays stem) (λ u. send_reply-Stays _ none)
  after_gate-Stays t stem (ok (true, output)) = offer-Stays t stem

  run_gate-Stays : (w : World J B) (t stem : String) → Stays (run_gate_on w t stem)
  unfolding run_gate_on
  run_gate-Stays w t stem = perhaps_then-Stays _ (λ b. refl)

  after_stage-Stays :
      (w : World J B) (t name : String) (r : Result String) → Stays (after_stage w t name r)
  unfolding after_stage
  after_stage-Stays w t name (err e) = send_reply-Stays _ none
  after_stage-Stays w t name (ok stem) = λ b.
      after_gate-Stays t stem (run_gate_on w t stem b).0 (run_gate_on w t stem b).1
      ∙ run_gate-Stays w t stem b

  propose-Stays :
      (w : World J B) (t name : String) (source test : Text)
      → Stays (handle_propose_tool w t name source test)
  unfolding handle_propose_tool
  propose-Stays w t name source test b =
      let staged =
        stage_tool w.tool_normalize w.is_keyword (w.stage_fate t) name source test b.tools in
      after_stage-Stays w t name staged.0 (record b { tools = staged.1 })

  propose_first-Stays :
      (w : World J B) (t : String) (ops : List (ProposedOp J)) → Stays (propose_first w t ops)
  unfolding propose_first
  propose_first-Stays w t [] = λ b. refl
  propose_first-Stays w t (propose_tool name source test ∷ ops) = propose-Stays w t name source test
  propose_first-Stays w t (memory_op op ∷ ops) = propose_first-Stays w t ops
  propose_first-Stays w t (add_face_op f replace ∷ ops) = propose_first-Stays w t ops
  propose_first-Stays w t (capture_learning_op observation key ∷ ops) = propose_first-Stays w t ops
  propose_first-Stays w t (resolve_learning_op n s ∷ ops) = propose_first-Stays w t ops
  propose_first-Stays w t (request_tool_approval tool_call summary messages ∷ ops) =
      propose_first-Stays w t ops
  propose_first-Stays w t (rewrite_directive content ∷ ops) = propose_first-Stays w t ops

  strike-Stays : (name : String) → Stays {J = J} {B = B} (strike name)
  unfolding strike
  strike-Stays name = perhaps_then-Stays _ (λ b. refl)

  strike_tool-Stays : (name : String) → Stays {J = J} {B = B} (strike_tool name)
  unfolding strike_tool
  strike_tool-Stays name =
      bind-Stays _ _ (strike-Stays name)
        (λ n. if_Stays (leb quarantine_strike_threshold n) _ _ (quarantine-Stays name) (λ b. refl))

  failures-Stays : (names : List String) → Stays {J = J} {B = B} (handle_tool_failures names)
  unfolding handle_tool_failures
  failures-Stays [] = λ b. refl
  failures-Stays (name ∷ names) =
      bind-Stays _ _ (attempt-Stays (strike_tool name) (strike_tool-Stays name))
        (λ u. failures-Stays names)

  answer-Stays :
      (w : World J B) (c : Control) (t : String) (r : WorkerResult J)
      → Stays (deliver_answer w c t r)
  unfolding deliver_answer
  answer-Stays w c t r =
      bind-Stays _ _ (send_reply-Stays r.payload _)
        (λ u. bind-Stays _ _ (push_face-Stays _) (λ u. push_caption-Stays _ reaction_dwell))

  deliver_result-Stays :
      (w : World J B) (c : Control) (t : String) (r : WorkerResult J)
      → Stays (deliver_result w c t r)
  unfolding deliver_result
  deliver_result-Stays w c t r =
      attempt-Stays (if r.is_ok then deliver_answer w c t r else degrade c)
        (if_Stays r.is_ok _ _ (answer-Stays w c t r) (degrade-Stays c))

  learn-Stays :
      (w : World J B) (c : Control) (t : String) (r : WorkerResult J) → Stays (learn w c t r)
  unfolding learn apply_proposed_ops
  learn-Stays w c t r =
      bind-Stays _ _ (apply_ops-Stays w c false (take max_proposed_ops r.proposed_ops)) (λ u.
        bind-Stays _ _ (record_current-Stays c r.payload)
          (λ u. propose_first-Stays w t (take max_proposed_ops r.proposed_ops)))

  -- Whatever a worker proposes, the handling of its Result forks no worker before the slot is
  -- released and leaves the owner's directive as it is.
  pub digest-Stays :
      (w : World J B) (c : Control) (t : String) (r : WorkerResult J) → Stays (digest w c t r)
  unfolding digest
  digest-Stays w c t r = bind-Stays _ _ (deliver_result-Stays w c t r) (λ u.
      bind-Stays _ _ (if_Stays r.is_ok _ _ (learn-Stays w c t r) (λ b. refl))
        (λ u. failures-Stays r.tool_failures))

  pub announce-Stays : (r : WorkerResult J) → Stays {J = J} {B = B} (announce r)
  unfolding announce
  announce-Stays r = if_Stays r.is_ok _ _ (emit_event-Stays message_answered) (λ b. refl)
