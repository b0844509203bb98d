-- ===== src/Worker/Unapproved.antt =====
-- shelldon/worker/worker.py: the risky tools wait for the owner.
use shelldon.Base.{
  ℕ, zero, suc, ◌+◌, Option, none, some, false, List, [], ◌∷◌, ◌≡◌, subst, All, ltb, length,
}
use shelldon.Base.Text.{Text}
use shelldon.Broker.{ToolCall, Message}
use shelldon.Worker.{Args, Registry, execute_tool, read_completion}
use shelldon.Worker.Loop.{
  Ending, Turn, Host, max_tool_executions, execute_calls, pause, execute_round, write_job, job_of,
  rounds, noted, is_risky, first_risky,
}
use shelldon.Worker.Ends.{run_rounds, start, agentic_loop}
use shelldon.Worker.Bounded.{handle_completion-elim, if-elim}

module _ {V : Type 0} where
  abbrev pub AllFree : Registry V → List (ToolCall (Args V)) → Type 0
  AllFree registry calls = All (λ c. is_risky registry c ≡ false) calls

  -- What the search for the first risky call tells of the calls that it passes.
  SearchIsFree :
      Registry V
      → List (ToolCall (Args V))
      → Option (List (ToolCall (Args V)) × ToolCall (Args V))
      → Type 0
  SearchIsFree registry calls none = AllFree registry calls
  SearchIsFree registry calls (some (before, call)) = AllFree registry before

  extended :
      (registry : Registry V) (tc : ToolCall (Args V)) (tcs : List (ToolCall (Args V)))
      (found : Option (List (ToolCall (Args V)) × ToolCall (Args V)))
      → is_risky registry tc ≡ false
      → SearchIsFree registry tcs found
      → SearchIsFree registry
          (tc ∷ tcs)
          (elim found [ none ↦ none | some (before, call) ↦ some (tc ∷ before, call) ])
  unfolding SearchIsFree
  extended registry tc tcs none free_call rest = (free_call, rest)
  extended registry tc tcs (some (before, call)) free_call rest = (free_call, rest)

  first_risky-SearchIsFree :
      (registry : Registry V) (tcs : List (ToolCall (Args V)))
      → SearchIsFree registry tcs (first_risky registry tcs)
  unfolding first_risky SearchIsFree
  first_risky-SearchIsFree registry [] = tt
  first_risky-SearchIsFree registry (tc ∷ tcs) =
      if-elim (SearchIsFree registry (tc ∷ tcs)) (is_risky registry tc) (λ y. tt)
        (λ n.
          extended registry tc tcs (first_risky registry tcs) n
            (first_risky-SearchIsFree registry tcs))

  execute_calls-AllFree :
      (h : Host V) (tcs : List (ToolCall (Args V))) (s : Turn V)
      → AllFree h.registry tcs
      → AllFree h.registry s.executed
      → AllFree h.registry ((execute_calls h tcs s).1.executed)
  unfolding execute_calls noted
  execute_calls-AllFree h [] s f e = e
  execute_calls-AllFree h (tc ∷ tcs) s (f, fs) e =
      execute_calls-AllFree h tcs
        (noted h tc (execute_tool h.io (length s.executed) tc h.registry) s) fs (f, e)

  abbrev RanFree : Host V → Option (Ending V) × Turn V → Type 0
  RanFree h out = AllFree h.registry (out.1.executed)

  rounds-RanFree :
      (h : Host V) (left i : ℕ) (s : Turn V)
      → AllFree h.registry s.executed
      → RanFree h (rounds h left i s)
  unfolding rounds write_job pause execute_round SearchIsFree
  rounds-RanFree h zero i s e = e
  rounds-RanFree h (suc left) i s e =
      let comp = read_completion (h.broker i (job_of h s)) in
      let s1 = write_job h s in
      let free_search = first_risky-SearchIsFree h.registry comp.tool_calls in
      if-elim (RanFree h) (ltb h.window (h.elapsed i + 2000)) (λ late. e)
        (λ time.
          handle_completion-elim (RanFree h) h i comp (rounds h left (suc i)) s1 (λ f. e) (λ r. e) e
            (λ before call found.
              execute_calls-AllFree h before s1
                (subst (SearchIsFree h.registry comp.tool_calls) found free_search) e)
            (λ lt found. rounds-RanFree h left (suc i) (execute_round h comp s1) (
              execute_calls-AllFree h comp.tool_calls s1
                (subst (SearchIsFree h.registry comp.tool_calls) found free_search) e)))

  -- No call that the loop executes is one of a tool whose tier is risky, whatever the model asks for.
  pub agentic_loop-AllFree :
      (h : Host V) (messages : List (Message (Args V))) (failures : Option (List Text))
      → AllFree h.registry ((agentic_loop h messages failures).1.executed)
  unfolding agentic_loop run_rounds start
  agentic_loop-AllFree h messages failures =
      rounds-RanFree h (suc max_tool_executions) 0 (start messages failures) tt
