-- ===== src/Broker.antt =====
-- shelldon/broker/broker.py and build_chain of shelldon/broker/chain.py: a job goes through the
-- provider chain. A provider's two endpoints are code outside this file: each is a function from the
-- number of the attempt to what the awaited call did, an answer or one of the three kinds of
-- exception. The backoff between two attempts and the log lines have no counterpart. The job, the
-- completion and what they carry are those of shelldon/contracts/__init__.py.
pub mod Fallback
pub mod Chain
pub mod Samples
use shelldon.Base.{
  ℕ, zero, suc, Option, none, some, Bool, true, false, not, ◌||◌, ◌&&◌, String, List, [], ◌∷◌, ◌++◌,
  ◌==◌, map, select, any_pass, if◌then◌else◌,
}
use shelldon.Base.Result.{Result, ok, err, runtime_error, ◌>>=◌}
use shelldon.Base.Text.{Text, codes, strip, is_blank, text_eq}

pub data ToolTier : Type 0 where
  free risky : ToolTier

-- The argument dict, and a schema, are parsed JSON: a type `Json` that the core never looks into.
pub record ToolCall (Json : Type 0) : Type 0 where
  pub id : Text
  pub name : Text
  pub args : Json

pub record ToolDefinition (Json : Type 0) : Type 0 where
  pub name : Text
  pub description : Text
  pub params_schema : Json
  pub tier : ToolTier

pub record Message (Json : Type 0) : Type 0 where
  pub role : Text
  pub content : Text
  pub tool_calls : List (ToolCall Json)
  pub tool_call_id : Option Text

pub record Job (Json : Type 0) : Type 0 where
  pub payload : Text
  pub tools : List (ToolDefinition Json)
  pub messages : List (Message Json)

pub record Completion (Json : Type 0) : Type 0 where
  pub is_ok : Bool
  pub payload : Text
  pub error : Option Text
  pub tool_calls : List (ToolCall Json)

-- How a call of a provider ends. An exception carries its text, the last kind its class name.
pub data Outcome (A : Type 0) : Type 0 where
  returned : A → Outcome A
  transient permanent unexpected : Text → Outcome A

pub record Provider (Json : Type 0) : Type 0 where
  pub name : Text
  pub complete : ℕ → Text → Outcome Text
  pub complete_with_tools :
      ℕ → List (Message Json) → List (ToolDefinition Json) → Outcome (Completion Json)

abbrev pub max_attempts : ℕ
max_attempts = 2

module _ {J : Type 0} where
  unfoldable pub answer : Text → Completion J
  answer text = record { is_ok = true; payload = text; error = none; tool_calls = [] }

  unfoldable pub failure : Text → Completion J
  failure e = record { is_ok = false; payload = []; error = some e; tool_calls = [] }

  answered : Outcome Text → Outcome (Completion J)
  unfolding answer
  answered (returned t) = returned (answer t)
  answered (transient e) = transient e
  answered (permanent e) = permanent e
  answered (unexpected e) = unexpected e

  -- The body of the `try`, at one attempt.
  unfoldable pub ask : Job J → Provider J → ℕ → Outcome (Completion J)
  unfolding answered
  ask job p n = elim job.tools [
    | [] ↦ answered (p.complete n job.payload)
    | t ∷ ts ↦ p.complete_with_tools n job.messages job.tools
  ]

  -- `last_error or "provider unavailable"`
  last_failure : Option Text → Completion J
  unfolding failure
  last_failure none = failure (codes "provider unavailable")
  last_failure (some []) = failure (codes "provider unavailable")
  last_failure (some (c ∷ cs)) = failure (c ∷ cs)

  -- What the `try` makes of an outcome; `again` goes on with the loop.
  unfoldable pub conclude : Outcome (Completion J) → (Text → Completion J) → Completion J
  unfolding failure
  conclude (returned c) again = c
  conclude (transient e) again = again (codes "transient provider error: " ++ e)
  conclude (permanent e) again = failure (codes "provider error: " ++ e)
  conclude (unexpected e) again = failure (codes "unexpected provider error: " ++ e)

  -- The loop over the attempts: `left` of them from number `n` on.
  unfoldable pub attempts : ℕ → ℕ → Job J → Provider J → Option Text → Completion J
  unfolding ask conclude last_failure
  attempts zero n job p last = last_failure last
  attempts (suc left) n job p last =
      conclude (ask job p n) (λ e. attempts left (suc n) job p (some e))

  unfoldable pub handle_job : Job J → Provider J → Completion J
  unfolding attempts
  handle_job job p = attempts max_attempts 1 job p none

  -- The loop over the chain, with the completion so far.
  unfoldable pub advance : Job J → List (Provider J) → Completion J → Completion J
  unfolding handle_job
  advance job [] last = last
  advance job (p ∷ ps) last =
      let rest = advance job ps (handle_job job p) in
      if (handle_job job p).is_ok then handle_job job p else rest

  unfoldable pub handle_job_chain : Job J → List (Provider J) → Completion J
  unfolding advance failure
  handle_job_chain job chain = advance job chain (failure (codes "empty provider chain"))

-- `raw.split(",")`
abbrev pub comma : ℕ
comma = 44

onto_first : ℕ → List Text → List Text
onto_first c [] = (c ∷ []) ∷ []
onto_first c (t ∷ ts) = (c ∷ t) ∷ ts

unfoldable pub split : ℕ → Text → List Text
unfolding onto_first
split sep [] = [] ∷ []
split sep (c ∷ cs) = let rest = split sep cs in if c == sep then [] ∷ rest else onto_first c rest

-- The names without blank entries, stripped and in lower case. `lower` is `str.lower`.
unfoldable pub entries : (Text → Text) → Text → List Text
unfolding split
entries lower raw = map (λ n. lower (strip n)) (select (λ n. not (is_blank n)) (split comma raw))

abbrev pub is_in : Text → List Text → Bool
is_in n ns = any_pass (λ m. text_eq m n) ns

-- The loop that drops repeated names, with the names kept so far.
unfoldable pub dedupe : List Text → List Text → List Text
dedupe [] kept = kept
dedupe (n ∷ ns) kept = if is_in n kept then dedupe ns kept else dedupe ns (kept ++ n ∷ [])

-- `_PRESETS` maps a name to its builder, which raises when its configuration is missing. `P` is the
-- type of the adapters.
module _ {P Env : Type 0} (presets : Text → Option (Env → Result P)) where
  build_one : Env → Option (Env → Result P) → Result P
  build_one env none = err runtime_error
  build_one env (some f) = f env

  unfoldable pub build_all : Env → List Text → Result (List P)
  unfolding build_one
  build_all env [] = ok []
  build_all env (n ∷ ns) = do p ← build_one env (presets n); ps ← build_all env ns; ok (p ∷ ps)

  -- `raw` is the value of PROVIDER_CHAIN, or "glm".
  unfoldable pub build_chain : (Text → Text) → Text → Env → Result (List P)
  unfolding entries dedupe build_all
  build_chain lower raw env = elim (entries lower raw) [
    | [] ↦ err runtime_error
    | n ∷ ns ↦ build_all env (dedupe (n ∷ ns) [])
  ]
