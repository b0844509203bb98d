-- ===== src/Worker/Samples.antt =====
-- shelldon/worker/worker.py and shelldon/worker/tools.py: runs at concrete inputs.
use shelldon.Base.{
  ℕ, zero, suc, none, some, true, false, String, List, [], ◌∷◌, ◌++◌, ◌≡◌, refl, ◌≤◌, length,
  is_some, map,
}
use shelldon.Base.Text.{codes, text_eq}
use shelldon.Broker.{ToolCall, ToolTier, free, risky, Message, Job}
use shelldon.Worker.{
  Args, Registry, ToolSpec, returned, Reading, completion, Printing, get_spec, execute_tool,
}
use shelldon.Worker.Loop.{
  Host, paused, max_tool_executions, rounds, tool_message, assistant_message, call_tools,
}
use shelldon.Worker.Ends.{run_rounds, start, agentic_loop, resume_loop}
use shelldon.Worker.Bounded.{agentic_loop_ends}
use shelldon.Worker.Answered.{
  IsAnswered, AllAnswered, IsPending, opens, agentic_loop_paired, resume_loop-AllAnswered,
}
use shelldon.Worker.Unapproved.{AllFree, agentic_loop-AllFree}
use shelldon.Worker.Declared.{with_args, IsUndeclared, execute_tool_undeclared}

abbrev printing : Printing ℕ
printing = record {
  string = λ v. v ∷ [];
  show_args = λ args. codes "{}";
  repr = λ t. t;
  properties = λ schema. map (λ e. e.0) schema;
  parse_reply = λ t. record { payload = t; ops = []; thought = []; face = [] };
}

abbrev spec : String → ToolTier → ToolSpec ℕ
spec name tier = record {
  name = codes name;
  description = [];
  params_schema = (codes "path", 0) ∷ [];
  tier = tier;
  fn = λ n args. returned (map (λ e. e.1) args);
  self_coded = false;
}

abbrev registry : Registry ℕ
registry = (codes "read", spec "read" free) ∷ (codes "git", spec "git" risky) ∷ []

abbrev call : String → String → ToolCall (Args ℕ)
call id name = record { id = codes id; name = codes name; args = (codes "path", 7) ∷ [] }

abbrev asks : List (ToolCall (Args ℕ)) → Reading ℕ
asks calls = completion (record { is_ok = true; payload = []; error = none; tool_calls = calls })

-- A free call at first, and then a free one, a risky one and another.
abbrev broker : ℕ → Job (Args ℕ) → Reading ℕ
broker zero j = asks (call "a" "read" ∷ [])
broker (suc n) j = asks (call "b" "read" ∷ call "c" "git" ∷ call "d" "read" ∷ [])

abbrev host : Host ℕ
host = record {
  io = printing;
  registry = registry;
  window = 25_000;
  elapsed = λ i. i;
  broker = broker;
}

abbrev question : List (Message (Args ℕ))
question =
    record { role = codes "user"; content = codes "hi"; tool_calls = []; tool_call_id = none } ∷ []

question-IsAnswered : IsAnswered question
question-IsAnswered = opens _ refl refl

abbrev parked : List (Message (Args ℕ))
parked =
    question
    ++ (assistant_message [] (call "a" "read" ∷ [])
        ∷ tool_message (codes "a") (7 ∷ [])
        ∷ assistant_message [] (call "b" "read" ∷ call "c" "git" ∷ [])
        ∷ tool_message (codes "b") (7 ∷ [])
        ∷ [])

pauses :
    (run_rounds host (start question none)).0 ≡ some (paused (call "c" "git") (codes "git ") parked)
unfolding rounds run_rounds start call_tools text_eq
pauses = refl

agentic_loop_ends_example :
    (is_some ((run_rounds host (start question none)).0) ≡ true)
    × (length ((agentic_loop host question none).1.sent) ≤ suc max_tool_executions)
agentic_loop_ends_example = agentic_loop_ends host question none

agentic_loop-AllFree_example : AllFree registry ((agentic_loop host question none).1.executed)
agentic_loop-AllFree_example = agentic_loop-AllFree host question none

agentic_loop_paired_example :
    AllAnswered ((agentic_loop host question none).1.sent)
    × IsPending ((run_rounds host (start question none)).0)
agentic_loop_paired_example = agentic_loop_paired host question none question-IsAnswered

resume_loop-AllAnswered_example :
    AllAnswered ((resume_loop host parked (call "c" "git") true none).1.sent)
resume_loop-AllAnswered_example =
    resume_loop-AllAnswered host host question parked (call "c" "git") (codes "git ") true none none
      question-IsAnswered pauses

undeclared : IsUndeclared printing (codes "root") (get_spec (codes "read") registry)
unfolding get_spec text_eq IsUndeclared
undeclared = refl

execute_tool_undeclared_example :
    execute_tool printing 0
      (with_args (call "a" "read") ((codes "root", 1) ∷ (codes "path", 7) ∷ []))
      registry
    ≡ execute_tool printing 0 (with_args (call "a" "read") ((codes "path", 7) ∷ [])) registry
execute_tool_undeclared_example =
    execute_tool_undeclared printing 0 (call "a" "read") registry [] ((codes "path", 7) ∷ [])
      (codes "root") 1 undeclared
