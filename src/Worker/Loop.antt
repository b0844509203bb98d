-- ===== src/Worker/Loop.antt =====
-- shelldon/worker/worker.py: the rounds of `_agentic_loop`.
use shelldon.Base.{
  ℕ, zero, suc, ◌+◌, Option, none, some, Bool, true, false, List, [], ◌∷◌, ◌++◌, map, length, ltb,
  if◌then◌else◌,
}
use shelldon.Base.Text.{Text, codes}
use shelldon.Broker.{ToolCall, free, risky, Message, Job, Completion}
use shelldon.Runtime.{ProposedOp}
use shelldon.Worker.{
  Args, Registry, Reading, Printing, ToolResult, Reply, get_spec, execute_tool, summarize_call,
  tool_definition, read_completion, record_tool_failure, collect_persona_op,
}

abbrev pub max_tool_executions : ℕ
max_tool_executions = 6

-- How the loop ends, before its Result is made: a failure of the broker, the budget of time or of
-- rounds used up, a text, or a pause before a risky call.
pub data Ending (V : Type 0) : Type 0 where
  failed : Option Text → Ending V
  out_of_time out_of_rounds : Ending V
  replied : Reply V → Ending V
  paused : ToolCall (Args V) → Text → List (Message (Args V)) → Ending V

-- The running conversation, the memory operations asked for, the self-written tools that failed, the
-- tool calls executed and the Jobs written to the broker, each the last one first.
pub record Turn (V : Type 0) : Type 0 where
  pub messages : List (Message (Args V))
  pub persona_ops : List (ProposedOp (Args V))
  pub failures : Option (List Text)
  pub executed : List (ToolCall (Args V))
  pub sent : List (Job (Args V))

-- What surrounds the loop: at each round the time since its start, and what the broker answers.
pub record Host (V : Type 0) : Type 0 where
  pub io : Printing V
  pub registry : Registry V
  pub window : ℕ
  pub elapsed : ℕ → ℕ
  pub broker : ℕ → Job (Args V) → Reading V

module _ {V : Type 0} where
  unfoldable pub tool_message : Text → Text → Message (Args V)
  tool_message id content = record {
    role = codes "tool";
    content = content;
    tool_calls = [];
    tool_call_id = some id;
  }

  unfoldable pub assistant_message : Text → List (ToolCall (Args V)) → Message (Args V)
  assistant_message content calls = record {
    role = codes "assistant";
    content = content;
    tool_calls = calls;
    tool_call_id = none;
  }

  unfoldable pub noted : Host V → ToolCall (Args V) → ToolResult → Turn V → Turn V
  unfolding record_tool_failure collect_persona_op
  noted h tc tr s = record s {
    failures = record_tool_failure s.failures h.registry tc tr;
    persona_ops = collect_persona_op h.io s.persona_ops tc tr;
    executed = tc ∷ s.executed;
  }

  -- The loop over the calls of one completion: their messages, and what they leave.
  unfoldable pub execute_calls :
      Host V → List (ToolCall (Args V)) → Turn V → List (Message (Args V)) × Turn V
  unfolding execute_tool noted tool_message
  execute_calls h [] s = ([], s)
  execute_calls h (tc ∷ tcs) s =
      let tr = execute_tool h.io (length s.executed) tc h.registry in
      let rest = execute_calls h tcs (noted h tc tr s) in
      (tool_message tr.id tr.content ∷ rest.0, rest.1)

  unfoldable pub is_risky : Registry V → ToolCall (Args V) → Bool
  unfolding get_spec
  is_risky registry tc = elim (get_spec tc.name registry) [
    | none ↦ false
    | some spec ↦ elim spec.tier [ free ↦ false | risky ↦ true ]
  ]

  -- The calls before the first risky one, and that one.
  unfoldable pub first_risky :
      Registry V → List (ToolCall (Args V)) → Option (List (ToolCall (Args V)) × ToolCall (Args V))
  unfolding is_risky
  first_risky registry [] = none
  first_risky registry (tc ∷ tcs) =
      let rest = first_risky registry tcs in
      if is_risky registry tc
      then some ([], tc)
      else elim rest [ none ↦ none | some (before, call) ↦ some (tc ∷ before, call) ]

  unfoldable pub pause :
      Host V → Text → List (ToolCall (Args V)) → ToolCall (Args V) → Turn V → Ending V × Turn V
  unfolding execute_calls assistant_message summarize_call
  pause h text before call s =
      let ran = execute_calls h before s in
      (
        paused call (summarize_call h.io call)
            (s.messages ++ (assistant_message text (before ++ (call ∷ [])) ∷ ran.0)),
        ran.1,
      )

  -- The conversation after a round of free calls.
  unfoldable pub execute_round : Host V → Completion (Args V) → Turn V → Turn V
  unfolding execute_calls assistant_message
  execute_round h comp s =
      let ran = execute_calls h comp.tool_calls s in
      record (ran.1) {
        messages = s.messages ++ (assistant_message comp.payload comp.tool_calls ∷ ran.0);
      }

  unfoldable pub job_of : Host V → Turn V → Job (Args V)
  unfolding tool_definition
  job_of h s = record {
    payload = [];
    tools = map (λ e. tool_definition e.1) h.registry;
    messages = s.messages;
  }

  unfoldable pub write_job : Host V → Turn V → Turn V
  unfolding job_of
  write_job h s = record s { sent = job_of h s ∷ s.sent }

  -- What follows a completion with tool calls that is not the last one allowed.
  unfoldable pub call_tools :
      Host V
      → Completion (Args V)
      → Option (List (ToolCall (Args V)) × ToolCall (Args V))
      → (Turn V → Option (Ending V) × Turn V)
      → Turn V
      → Option (Ending V) × Turn V
  unfolding pause execute_round
  call_tools h comp (some (before, call)) again s =
      let end = pause h comp.payload before call s in (some (end.0), end.1)
  call_tools h comp none again s = again (execute_round h comp s)

  unfoldable pub handle_calls :
      Host V
      → ℕ
      → Completion (Args V)
      → List (ToolCall (Args V))
      → (Turn V → Option (Ending V) × Turn V)
      → Turn V
      → Option (Ending V) × Turn V
  unfolding call_tools first_risky
  handle_calls h i comp [] again s = (some (replied (h.io.parse_reply comp.payload)), s)
  handle_calls h i comp (c ∷ cs) again s =
      if ltb i max_tool_executions
      then call_tools h comp (first_risky h.registry comp.tool_calls) again s
      else (some out_of_rounds, s)

  unfoldable pub handle_completion :
      Host V
      → ℕ
      → Completion (Args V)
      → (Turn V → Option (Ending V) × Turn V)
      → Turn V
      → Option (Ending V) × Turn V
  unfolding handle_calls
  handle_completion h i comp again s =
      if comp.is_ok
      then handle_calls h i comp comp.tool_calls again s
      else (some (failed comp.error), s)

  -- The rounds from number `i` on, `left` of them; none if the loop runs to its end.
  unfoldable pub rounds : Host V → ℕ → ℕ → Turn V → Option (Ending V) × Turn V
  unfolding write_job handle_completion read_completion job_of
  rounds h zero i s = (none, s)
  rounds h (suc left) i s =
      let again = rounds h left (suc i) in
      if ltb h.window (h.elapsed i + 2000)
      then (some out_of_time, s)
      else handle_completion h i (read_completion (h.broker i (job_of h s))) again (write_job h s)
