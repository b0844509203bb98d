-- ===== src/Worker/Answered.antt =====
-- shelldon/worker/worker.py: the pairing of tool calls and results in the conversation that the
-- broker is sent, and in the one that is parked for an approval.
use shelldon.Base.{
  All, ℕ, zero, suc, ◌+◌, Option, none, some, Bool, List, [], ◌∷◌, ◌++◌, ◌≡◌, refl, sym, subst, ltb,
  map, length, append_assoc,
}
use mathlib.Core.List.{map-append}
use shelldon.Base.Text.{Text, codes}
use shelldon.Broker.{ToolCall, Message, Completion, Job}
use shelldon.Worker.{
  Args, Printing, Registry, ToolSpec, Ran, returned, raised, get_spec, execute_spec, execute_tool,
  result_of_run, read_completion,
}
use shelldon.Worker.Loop.{
  Ending, Turn, Host, failed, out_of_time, out_of_rounds, replied, paused, max_tool_executions,
  execute_calls, pause, execute_round, write_job, job_of, rounds, tool_message, assistant_message,
  noted,
}
use shelldon.Worker.Ends.{
  run_rounds, start, agentic_loop, resume_loop, resolve_pending, resumed_failures,
}
use shelldon.Worker.Bounded.{
  handle_completion-elim, if-elim, sent-execute_calls, sent-execute_round,
}

id-result_of_run : (id : Text) (r : Ran) → (result_of_run id r).id ≡ id
unfolding result_of_run
id-result_of_run id (returned t) = refl
id-result_of_run id (raised t) = refl

module _ {V : Type 0} where
  abbrev answered_ids : List (Message (Args V)) → List (Option Text)
  answered_ids rs = map (λ r. r.tool_call_id) rs

  abbrev asked_ids : List (ToolCall (Args V)) → List (Option Text)
  asked_ids calls = map (λ c. some c.id) calls

  abbrev pub IsToolResult : Message (Args V) → Type 0
  IsToolResult r = r.role ≡ codes "tool"

  -- A conversation that a provider takes: it opens with a message of the user, and each further
  -- message is the assistant's, followed by one tool result for each of its calls, in their order. No
  -- result stands by itself.
  pub data IsAnswered : List (Message (Args V)) → Type 0 where
    opens : (m : Message (Args V)) → m.role ≡ codes "user" → m.tool_calls ≡ [] → IsAnswered (m ∷ [])
    goes_on :
        (ms : List (Message (Args V))) (m : Message (Args V)) (rs : List (Message (Args V)))
        → IsAnswered ms
        → m.role ≡ codes "assistant"
        → All IsToolResult rs
        → answered_ids rs ≡ asked_ids m.tool_calls
        → IsAnswered (ms ++ (m ∷ rs))

  -- Every Job's conversation is answered.
  pub data AllAnswered : List (Job (Args V)) → Type 0 where
    no_jobs : AllAnswered []
    one_more :
        (j : Job (Args V)) (js : List (Job (Args V)))
        → IsAnswered j.messages
        → AllAnswered js
        → AllAnswered (j ∷ js)

  -- A parked conversation lacks but the result of its pending call, whatever that is.
  pub IsPending : Option (Ending V) → Type 0
  IsPending (some (paused call summary ms)) =
      (content : Text) → IsAnswered (ms ++ (tool_message call.id content ∷ []))
  IsPending none = Unit
  IsPending (some (failed e)) = Unit
  IsPending (some out_of_time) = Unit
  IsPending (some out_of_rounds) = Unit
  IsPending (some (replied r)) = Unit

  abbrev IsPaired : Option (Ending V) × Turn V → Type 0
  IsPaired out = AllAnswered (out.1.sent) × IsPending (out.0)

  id-execute_spec :
      (io : Printing V) (n : ℕ) (call : ToolCall (Args V)) (found : Option (ToolSpec V))
      → (execute_spec io n call found).id ≡ call.id
  unfolding execute_spec
  id-execute_spec io n call none = refl
  id-execute_spec io n call (some spec) = id-result_of_run call.id _

  id-execute_tool :
      (io : Printing V) (n : ℕ) (call : ToolCall (Args V)) (registry : Registry V)
      → (execute_tool io n call registry).id ≡ call.id
  unfolding execute_tool
  id-execute_tool io n call registry = id-execute_spec io n call (get_spec call.name registry)

  ids-execute_calls :
      (h : Host V) (tcs : List (ToolCall (Args V))) (s : Turn V)
      → answered_ids ((execute_calls h tcs s).0) ≡ asked_ids tcs
  unfolding execute_calls tool_message
  ids-execute_calls h [] s = refl
  ids-execute_calls h (tc ∷ tcs) s =
      let tr = execute_tool h.io (length s.executed) tc h.registry in
      cc (
        id-execute_tool h.io (length s.executed) tc h.registry,
        ids-execute_calls h tcs (noted h tc tr s),
      )

  execute_calls-IsToolResult :
      (h : Host V) (tcs : List (ToolCall (Args V))) (s : Turn V)
      → All IsToolResult ((execute_calls h tcs s).0)
  unfolding execute_calls tool_message
  execute_calls-IsToolResult h [] s = tt
  execute_calls-IsToolResult h (tc ∷ tcs) s = (
    refl,
    execute_calls-IsToolResult h tcs
        (noted h tc (execute_tool h.io (length s.executed) tc h.registry) s),
  )

  results-append :
      (rs : List (Message (Args V))) (id content : Text)
      → All IsToolResult rs
      → All IsToolResult (rs ++ (tool_message id content ∷ []))
  unfolding tool_message
  results-append [] id content a = (refl, tt)
  results-append (r ∷ rs) id content (a, rest) = (a, results-append rs id content rest)

  ids-append :
      (rs : List (Message (Args V))) (tcs : List (ToolCall (Args V))) (id content : Text)
      (call : ToolCall (Args V))
      → call.id ≡ id
      → answered_ids rs ≡ asked_ids tcs
      → answered_ids (rs ++ (tool_message id content ∷ [])) ≡ asked_ids (tcs ++ (call ∷ []))
  unfolding tool_message
  ids-append rs tcs id content call same e = cc (
    map-append (λ r. r.tool_call_id) rs (tool_message {V = V} id content ∷ []),
    map-append (λ (c : ToolCall (Args V)). some c.id) tcs (call ∷ []),
  )

  pause-IsPending :
      (h : Host V) (text : Text) (before : List (ToolCall (Args V))) (call : ToolCall (Args V))
      (s : Turn V)
      → IsAnswered s.messages
      → IsPending (some ((pause h text before call s).0))
  unfolding IsPending pause assistant_message
  pause-IsPending h text before call s a content =
      let m = assistant_message text (before ++ (call ∷ [])) in
      let rs = (execute_calls h before s).0 in
      let r = tool_message {V = V} call.id content in
      subst IsAnswered (sym (append_assoc s.messages (m ∷ rs) (r ∷ []))) (
        goes_on s.messages m (rs ++ (r ∷ [])) a refl
          (results-append rs call.id content (execute_calls-IsToolResult h before s))
          (ids-append rs before call.id content call refl (ids-execute_calls h before s)))

  execute_round-IsAnswered :
      (h : Host V) (comp : Completion (Args V)) (s : Turn V)
      → IsAnswered s.messages
      → IsAnswered ((execute_round h comp s).messages)
  unfolding execute_round assistant_message
  execute_round-IsAnswered h comp s a =
      goes_on s.messages (assistant_message comp.payload comp.tool_calls)
        ((execute_calls h comp.tool_calls s).0) a refl
        (execute_calls-IsToolResult h comp.tool_calls s) (ids-execute_calls h comp.tool_calls s)

  rounds-IsPaired :
      (h : Host V) (left i : ℕ) (s : Turn V)
      → IsAnswered s.messages
      → AllAnswered s.sent
      → IsPaired (rounds h left i s)
  unfolding rounds write_job job_of IsPending
  rounds-IsPaired h zero i s a js = (js, tt)
  rounds-IsPaired h (suc left) i s a js =
      let comp = read_completion (h.broker i (job_of h s)) in
      let s1 = write_job h s in
      let js1 = one_more (job_of h s) s.sent a js in
      if-elim IsPaired (ltb h.window (h.elapsed i + 2000)) (λ late. (js, tt))
        (λ time.
          handle_completion-elim IsPaired h i comp (rounds h left (suc i)) s1 (λ f. (js1, tt))
            (λ r. (js1, tt)) (js1, tt)
            (λ before call found. (
              subst AllAnswered (sym (sent-execute_calls h before s1)) js1,
              pause-IsPending h comp.payload before call s1 a,
            ))
            (λ lt found.
              rounds-IsPaired h left (suc i) (execute_round h comp s1)
                (execute_round-IsAnswered h comp s1 a)
                (subst AllAnswered (sym (sent-execute_round h comp s1)) js1)))

  -- From an answered conversation, the loop sends the broker none but answered conversations, whatever
  -- the broker and the tools do; and if it pauses, the parked conversation lacks one result, that of
  -- the call to approve, and any text of that result completes it.
  pub agentic_loop_paired :
      (h : Host V) (messages : List (Message (Args V))) (failures : Option (List Text))
      → IsAnswered messages
      → AllAnswered ((agentic_loop h messages failures).1.sent)
        × IsPending ((run_rounds h (start messages failures)).0)
  unfolding agentic_loop run_rounds start
  agentic_loop_paired h messages failures a =
      rounds-IsPaired h (suc max_tool_executions) 0 (start messages failures) a no_jobs

  -- A turn that pauses at a call, from an answered conversation, is resumed from what it parked with
  -- answered conversations only: by any worker, with any tools, approved or denied.
  pub resume_loop-AllAnswered :
      (h g : Host V) (messages parked : List (Message (Args V))) (call : ToolCall (Args V))
      (summary : Text) (approved : Bool) (failures new_failures : Option (List Text))
      → IsAnswered messages
      → (run_rounds h (start messages failures)).0 ≡ some (paused call summary parked)
      → AllAnswered ((resume_loop g parked call approved new_failures).1.sent)
  unfolding resume_loop IsPending
  resume_loop-AllAnswered h g messages parked call summary approved failures new_failures a e =
      let result = resolve_pending g call approved in
      (agentic_loop_paired g (parked ++ (tool_message call.id result.content ∷ []))
        (resumed_failures g call approved new_failures)
        (subst IsPending e (agentic_loop_paired h messages failures a).1 result.content)).0
