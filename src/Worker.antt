-- ===== src/Worker.antt =====
-- shelldon/worker/worker.py, and from shelldon/worker/tools.py the registry, `execute_tool` and
-- `summarize_call`: the bounded loop in which the model calls tools. An args dict is a list of keys
-- and values of a type `V`. The broker, the clock, the tools' own functions, the printing of values
-- and the patterns of `parse_reply` are given; a frame that is written arrives. Seconds are
-- thousandths.
pub mod Loop
pub mod Ends
pub mod Bounded
pub mod Answered
pub mod Declared
pub mod Unapproved
pub mod Samples
use shelldon.Base.{
  ℕ, Option, none, some, Bool, true, false, List, [], ◌∷◌, ◌++◌, any_pass, if◌then◌else◌,
}
use shelldon.Base.Text.{Text, codes, text_eq}
use shelldon.Broker.{ToolCall, ToolDefinition, ToolTier, free, risky, Message, Completion, failure}
use shelldon.Memory.{rewrite_soul, rewrite_identity, rewrite_user, rewrite_about}
use shelldon.Runtime.{ProposedOp, memory_op}

abbrev pub Args : Type 0 → Type 0
Args V = List (Text × V)

-- What a tool's function does: the text of its answer, or the `repr` of what it raises.
pub data Ran : Type 0 where
  returned raised : Text → Ran

-- The function is given how many calls the loop ran before, since what it does may change with time.
pub record ToolSpec (V : Type 0) : Type 0 where
  pub name : Text
  pub description : Text
  pub params_schema : Args V
  pub tier : ToolTier
  pub fn : ℕ → Args V → Ran
  pub self_coded : Bool

pub record ToolResult : Type 0 where
  pub id : Text
  pub is_ok : Bool
  pub content : Text

abbrev pub Registry : Type 0 → Type 0
Registry V = List (Text × ToolSpec V)

-- What the process reads from the broker.
pub data Reading (V : Type 0) : Type 0 where
  late end_of_stream other_kind : Reading V
  bad_frame : Text → Reading V
  completion : Completion (Args V) → Reading V

-- What `parse_reply` finds in a text.
pub record Reply (V : Type 0) : Type 0 where
  pub payload : Text
  pub ops : List (ProposedOp (Args V))
  pub thought : Text
  pub face : Text

pub record Printing (V : Type 0) : Type 0 where
  pub string : V → Text
  pub show_args : Args V → Text
  pub repr : Text → Text
  pub properties : Args V → List Text
  pub parse_reply : Text → Reply V

abbrev pub is_member : Text → List Text → Bool
is_member k ks = any_pass (λ j. text_eq j k) ks

unfoldable pub result_of_run : Text → Ran → ToolResult
result_of_run id (returned t) = record { id = id; is_ok = true; content = t }
result_of_run id (raised e) = record { id = id; is_ok = false; content = e }

-- A set, as a list without repetitions.
unfoldable pub note_failure : Text → List Text → List Text
note_failure k ks = if is_member k ks then ks else k ∷ ks

module _ {V : Type 0} where
  unfoldable pub get_spec : Text → Registry V → Option (ToolSpec V)
  get_spec k [] = none
  get_spec k ((j, s) ∷ m) = if text_eq j k then some s else get_spec k m

  -- `args.get(key)`
  unfoldable pub get_arg : Text → Args V → Option V
  get_arg k [] = none
  get_arg k ((j, v) ∷ m) = if text_eq j k then some v else get_arg k m

  -- `str(args.get(key, ""))`
  unfoldable pub arg_text : Printing V → Text → Args V → Text
  unfolding get_arg
  arg_text io k args = elim (get_arg k args) [ none ↦ [] | some v ↦ io.string v ]

  -- The arguments that the schema declares.
  unfoldable pub declared_args : List Text → Args V → Args V
  declared_args allowed [] = []
  declared_args allowed ((k, v) ∷ args) =
      let rest = declared_args allowed args in if is_member k allowed then (k, v) ∷ rest else rest

  unfoldable pub execute_spec :
      Printing V → ℕ → ToolCall (Args V) → Option (ToolSpec V) → ToolResult
  unfolding declared_args result_of_run
  execute_spec io n call none = record {
    id = call.id;
    is_ok = false;
    content = codes "unknown tool: " ++ io.repr call.name;
  }
  execute_spec io n call (some spec) =
      result_of_run call.id (spec.fn n (declared_args (io.properties spec.params_schema) call.args))

  unfoldable pub execute_tool : Printing V → ℕ → ToolCall (Args V) → Registry V → ToolResult
  unfolding execute_spec get_spec
  execute_tool io n call registry = execute_spec io n call (get_spec call.name registry)

  unfoldable pub summarize_call : Printing V → ToolCall (Args V) → Text
  unfolding arg_text
  summarize_call io call =
      if text_eq call.name (codes "run_shell")
      then codes "run_shell: " ++ arg_text io (codes "command") call.args
      else if text_eq call.name (codes "git")
      then codes "git " ++ arg_text io (codes "args") call.args
      else if text_eq call.name (codes "http_get")
      then codes "http_get: " ++ arg_text io (codes "url") call.args
      else if text_eq call.name (codes "write_file")
      then codes "write_file: " ++ arg_text io (codes "path") call.args
      else call.name ++ (codes ": " ++ io.show_args call.args)

  unfoldable pub tool_definition : ToolSpec V → ToolDefinition (Args V)
  tool_definition s = record {
    name = s.name;
    description = s.description;
    params_schema = s.params_schema;
    tier = s.tier;
  }

  unfoldable pub read_completion : Reading V → Completion (Args V)
  unfolding failure
  read_completion late = failure (codes "broker did not answer in time")
  read_completion (bad_frame e) = failure (codes "bad completion frame: " ++ e)
  read_completion end_of_stream = failure (codes "no completion from broker")
  read_completion other_kind = failure (codes "no completion from broker")
  read_completion (completion c) = c

  unfoldable pub record_tool_failure :
      Option (List Text) → Registry V → ToolCall (Args V) → ToolResult → Option (List Text)
  unfolding get_spec note_failure
  record_tool_failure none registry tc tr = none
  record_tool_failure (some failures) registry tc tr =
      if tr.is_ok then some failures else elim (get_spec tc.name registry) [
        | none ↦ some failures
        | some spec ↦
            if spec.self_coded then some (note_failure tc.name failures) else some failures
      ]

  unfoldable pub persona_rewrite : Text → Text → Option (ProposedOp (Args V))
  persona_rewrite name content =
      if text_eq name (codes "rewrite_soul")
      then some (memory_op (rewrite_soul content))
      else if text_eq name (codes "rewrite_identity")
      then some (memory_op (rewrite_identity content))
      else if text_eq name (codes "rewrite_user")
      then some (memory_op (rewrite_user content))
      else if text_eq name (codes "rewrite_about")
      then some (memory_op (rewrite_about content))
      else none

  -- The content is a text, as the tool's schema declares it; core refuses an operation with another.
  unfoldable pub collect_persona_op :
      Printing V
      → List (ProposedOp (Args V))
      → ToolCall (Args V)
      → ToolResult
      → List (ProposedOp (Args V))
  unfolding persona_rewrite arg_text
  collect_persona_op io ops tc tr =
      elim (persona_rewrite tc.name (arg_text io (codes "content") tc.args)) [
        | none ↦ ops
        | some op ↦ if tr.is_ok then ops ++ (op ∷ []) else ops
      ]
