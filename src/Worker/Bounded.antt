-- ===== src/Worker/Bounded.antt =====
-- shelldon/worker/worker.py: the loop in which the model calls tools ends, and how.
use shelldon.Base.{
  ℕ, zero, suc, ◌+◌, ◌≤◌, ◌<◌, Option, none, some, Bool, true, false, List, [], ◌∷◌, ◌≡◌, refl, ap,
  arith, ltb, length, is_some, if◌then◌else◌,
}
use shelldon.Base.Text.{Text}
use shelldon.Broker.{ToolCall, Message, Completion}
use shelldon.Worker.{Args, Reply, execute_tool, read_completion}
use shelldon.Worker.Loop.{
  Ending, Turn, Host, failed, out_of_rounds, replied, max_tool_executions, execute_calls,
  first_risky, pause, execute_round, call_tools, handle_calls, handle_completion, write_job, job_of,
  rounds, noted,
}
use shelldon.Worker.Ends.{run_rounds, start, agentic_loop}

pub if-elim {ℓ κ} :
    {A : Type ℓ} (Q : A → Type κ) (b : Bool) {x y : A}
    → (b ≡ true → Q x)
    → (b ≡ false → Q y)
    → Q (if b then x else y)
if-elim Q true f g = f refl
if-elim Q false f g = g refl

module _ {V : Type 0} (Q : Option (Ending V) × Turn V → Type 0) (h : Host V) (i : ℕ) where
  call_tools-elim :
      (comp : Completion (Args V)) (found : Option (List (ToolCall (Args V)) × ToolCall (Args V)))
      (again : Turn V → Option (Ending V) × Turn V) (s : Turn V)
      → ((before : List (ToolCall (Args V))) (call : ToolCall (Args V))
          → found ≡ some (before, call)
          → let end = pause h comp.payload before call s in Q (some (end.0), end.1))
      → (found ≡ none → Q (again (execute_round h comp s)))
      → Q (call_tools h comp found again s)
  unfolding call_tools
  call_tools-elim comp (some (before, call)) again s p q = p before call refl
  call_tools-elim comp none again s p q = q refl

  handle_calls-elim :
      (comp : Completion (Args V)) (calls : List (ToolCall (Args V)))
      (again : Turn V → Option (Ending V) × Turn V) (s : Turn V)
      → ((r : Reply V) → Q (some (replied r), s))
      → Q (some out_of_rounds, s)
      → ((before : List (ToolCall (Args V))) (call : ToolCall (Args V))
          → first_risky h.registry comp.tool_calls ≡ some (before, call)
          → let end = pause h comp.payload before call s in Q (some (end.0), end.1))
      → (i < max_tool_executions
          → first_risky h.registry comp.tool_calls ≡ none
          → Q (again (execute_round h comp s)))
      → Q (handle_calls h i comp calls again s)
  unfolding handle_calls
  handle_calls-elim comp [] again s r o p q = r (h.io.parse_reply comp.payload)
  handle_calls-elim comp (c ∷ cs) again s r o p q =
      if-elim Q (ltb i max_tool_executions)
        (λ lt.
          call_tools-elim comp (first_risky h.registry comp.tool_calls) again s p
            (q (ground arith)))
        (λ ge. o)

  pub handle_completion-elim :
      (comp : Completion (Args V)) (again : Turn V → Option (Ending V) × Turn V) (s : Turn V)
      → ((e : Option Text) → Q (some (failed e), s))
      → ((r : Reply V) → Q (some (replied r), s))
      → Q (some out_of_rounds, s)
      → ((before : List (ToolCall (Args V))) (call : ToolCall (Args V))
          → first_risky h.registry comp.tool_calls ≡ some (before, call)
          → let end = pause h comp.payload before call s in Q (some (end.0), end.1))
      → (i < max_tool_executions
          → first_risky h.registry comp.tool_calls ≡ none
          → Q (again (execute_round h comp s)))
      → Q (handle_completion h i comp again s)
  unfolding handle_completion
  handle_completion-elim comp again s f r o p q =
      if-elim Q comp.is_ok (λ y. handle_calls-elim comp comp.tool_calls again s r o p q)
        (λ n. f comp.error)

module _ {V : Type 0} where
  pub sent-execute_calls :
      (h : Host V) (tcs : List (ToolCall (Args V))) (s : Turn V)
      → (execute_calls h tcs s).1.sent ≡ s.sent
  unfolding execute_calls noted
  sent-execute_calls h [] s = refl
  sent-execute_calls h (tc ∷ tcs) s =
      sent-execute_calls h tcs (noted h tc (execute_tool h.io (length s.executed) tc h.registry) s)

  pub sent-execute_round :
      (h : Host V) (comp : Completion (Args V)) (s : Turn V)
      → (execute_round h comp s).sent ≡ s.sent
  unfolding execute_round
  sent-execute_round h comp s = sent-execute_calls h comp.tool_calls s

  -- The loop reached its end by itself, with at most `n` more Jobs written.
  EndsWithin : ℕ → Turn V → Option (Ending V) × Turn V → Type 0
  EndsWithin n s out = (is_some (out.0) ≡ true) × (length (out.1.sent) ≤ n + length s.sent)

  pause-EndsWithin :
      (h : Host V) (n : ℕ) (text : Text) (before : List (ToolCall (Args V)))
      (call : ToolCall (Args V)) (s : Turn V)
      → let end = pause h text before call (write_job h s) in
        EndsWithin (suc n) s (some (end.0), end.1)
  unfolding EndsWithin pause write_job
  pause-EndsWithin h n text before call s =
      (refl, omega (arith, ap length (sent-execute_calls h before (write_job h s))))

  again-EndsWithin :
      (h : Host V) (n : ℕ) (comp : Completion (Args V)) (s : Turn V)
      (out : Option (Ending V) × Turn V)
      → EndsWithin n (execute_round h comp (write_job h s)) out
      → EndsWithin (suc n) s out
  unfolding EndsWithin write_job
  again-EndsWithin h n comp s out (ends, le) =
      (ends, omega (arith, le, ap length (sent-execute_round h comp (write_job h s))))

  one-round-EndsWithin :
      (h : Host V) (left i : ℕ) (s : Turn V)
      → ((comp : Completion (Args V))
          → i < max_tool_executions
          → EndsWithin (suc left) s (rounds h left (suc i) (execute_round h comp (write_job h s))))
      → EndsWithin (suc left) s (rounds h (suc left) i s)
  unfolding EndsWithin rounds write_job
  one-round-EndsWithin h left i s next =
      if-elim (EndsWithin (suc left) s) (ltb h.window (h.elapsed i + 2000))
        (λ late. (refl, omega arith))
        (λ time.
          let comp = read_completion (h.broker i (job_of h s)) in
          handle_completion-elim (EndsWithin (suc left) s) h i comp (rounds h left (suc i))
            (write_job h s) (λ f. (refl, omega arith)) (λ r. (refl, omega arith))
            (refl, omega arith)
            (λ before call found. pause-EndsWithin h left comp.payload before call s)
            (λ lt found. next comp lt))

  rounds-EndsWithin :
      (h : Host V) (left i : ℕ) (s : Turn V)
      → i + left ≡ max_tool_executions
      → EndsWithin (suc left) s (rounds h (suc left) i s)
  rounds-EndsWithin h zero i s e =
      one-round-EndsWithin h zero i s (λ comp lt. absurd (omega (arith, lt, e)))
  rounds-EndsWithin h (suc left) i s e = one-round-EndsWithin h (suc left) i s (λ comp lt.
      again-EndsWithin h (suc left) comp s
        (rounds h (suc left) (suc i) (execute_round h comp (write_job h s)))
        (rounds-EndsWithin h left (suc i) (execute_round h comp (write_job h s))
          (omega (arith, e))))

  -- Whatever the broker answers, and however long that takes, the loop returns from within, before
  -- its rounds run out, so that the return behind it is never reached; and it writes at most seven
  -- Jobs to the broker.
  pub agentic_loop_ends :
      (h : Host V) (messages : List (Message (Args V))) (failures : Option (List Text))
      → (is_some ((run_rounds h (start messages failures)).0) ≡ true)
        × (length ((agentic_loop h messages failures).1.sent) ≤ suc max_tool_executions)
  unfolding agentic_loop run_rounds EndsWithin start
  agentic_loop_ends h messages failures =
      let bounded = rounds-EndsWithin h max_tool_executions 0 (start messages failures) refl in
      (bounded.0, omega (arith, bounded.1))
