-- ===== src/Worker/Ends.antt =====
-- shelldon/worker/worker.py: the Results of `_agentic_loop`, and `_resume_loop`.
use shelldon.Base.{suc, Option, none, some, Bool, true, false, List, [], ◌∷◌, ◌++◌}
use shelldon.Base.Text.{Text, codes}
use shelldon.Broker.{ToolCall, Message}
use shelldon.Runtime.{ProposedOp, request_tool_approval}
use shelldon.Worker.{Args, ToolResult, execute_tool, record_tool_failure}
use shelldon.Worker.Loop.{
  Ending, Turn, Host, failed, out_of_time, out_of_rounds, replied, paused, max_tool_executions,
  tool_message, rounds,
}

pub record TurnResult (V : Type 0) : Type 0 where
  pub is_ok : Bool
  pub payload : Text
  pub error : Option Text
  pub proposed_ops : List (ProposedOp (Args V))
  pub blurb : Text
  pub face : Text

module _ {V : Type 0} where
  unfoldable pub success : Text → List (ProposedOp (Args V)) → Text → Text → TurnResult V
  success text ops thought face = record {
    is_ok = true;
    payload = text;
    error = none;
    proposed_ops = ops;
    blurb = thought;
    face = face;
  }

  too_many_steps : List (ProposedOp (Args V)) → TurnResult V
  unfolding success
  too_many_steps ops =
      success (codes "I've used too many steps. Let me try a different approach.") ops [] []

  -- The Result of each return of the loop; none is the return behind the loop.
  unfoldable pub result_of : Option (Ending V) → List (ProposedOp (Args V)) → TurnResult V
  unfolding success too_many_steps
  result_of none ops = too_many_steps ops
  result_of (some out_of_rounds) ops = too_many_steps ops
  result_of (some out_of_time) ops =
      success (codes "I'm running short on time — let me answer directly.") ops [] []
  result_of (some (failed e)) ops = record {
    is_ok = false;
    payload = [];
    error = e;
    proposed_ops = [];
    blurb = [];
    face = [];
  }
  result_of (some (replied r)) ops = success r.payload (ops ++ r.ops) r.thought r.face
  result_of (some (paused call summary messages)) ops =
      success (codes "I'd like to run `" ++ (summary ++ codes "` — approve?"))
        (request_tool_approval call summary messages ∷ ops) [] []

  unfoldable pub start : List (Message (Args V)) → Option (List Text) → Turn V
  start messages failures = record {
    messages = messages;
    persona_ops = [];
    failures = failures;
    executed = [];
    sent = [];
  }

  unfoldable pub run_rounds : Host V → Turn V → Option (Ending V) × Turn V
  unfolding rounds
  run_rounds h s = rounds h (suc max_tool_executions) 0 s

  unfoldable pub agentic_loop :
      Host V → List (Message (Args V)) → Option (List Text) → TurnResult V × Turn V
  unfolding run_rounds result_of start
  agentic_loop h messages failures =
      let end = run_rounds h (start messages failures) in
      (result_of (end.0) ((end.1).persona_ops), end.1)

  -- The pending call's result: the call is executed if the owner approved.
  unfoldable pub resolve_pending : Host V → ToolCall (Args V) → Bool → ToolResult
  unfolding execute_tool
  resolve_pending h call true = execute_tool h.io 0 call h.registry
  resolve_pending h call false = record {
    id = call.id;
    is_ok = false;
    content = codes "denied by owner";
  }

  unfoldable pub resumed_failures :
      Host V → ToolCall (Args V) → Bool → Option (List Text) → Option (List Text)
  unfolding resolve_pending record_tool_failure
  resumed_failures h call true failures =
      record_tool_failure failures h.registry call (resolve_pending h call true)
  resumed_failures h call false failures = failures

  unfoldable pub resume_loop :
      Host V
      → List (Message (Args V))
      → ToolCall (Args V)
      → Bool
      → Option (List Text)
      → TurnResult V × Turn V
  unfolding agentic_loop resolve_pending resumed_failures tool_message
  resume_loop h messages call approved failures =
      agentic_loop h
        (messages ++ (tool_message call.id (resolve_pending h call approved).content ∷ []))
        (resumed_failures h call approved failures)
