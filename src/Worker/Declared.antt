-- ===== src/Worker/Declared.antt =====
-- shelldon/worker/tools.py: what a tool's function is given.
use shelldon.Base.{ℕ, Option, none, some, false, List, [], ◌∷◌, ◌++◌, ◌≡◌, refl, ap, arith}
use shelldon.Base.Text.{Text}
use shelldon.Broker.{ToolCall}
use shelldon.Worker.{
  Args, Printing, Registry, ToolSpec, is_member, get_spec, declared_args, execute_spec,
  execute_tool, result_of_run,
}

module _ {V : Type 0} where
  declared_args-append :
      (allowed : List Text) (before after : Args V) (k : Text) (v : V)
      → is_member k allowed ≡ false
      → declared_args allowed (before ++ ((k, v) ∷ after)) ≡ declared_args allowed (before ++ after)
  unfolding declared_args
  declared_args-append allowed [] after k v un = ground arith
  declared_args-append allowed ((j, w) ∷ before) after k v un =
      ground (arith, declared_args-append allowed before after k v un)

  unfoldable pub IsUndeclared : Printing V → Text → Option (ToolSpec V) → Type 0
  IsUndeclared io k none = Unit
  IsUndeclared io k (some spec) = is_member k (io.properties spec.params_schema) ≡ false

  abbrev pub with_args : ToolCall (Args V) → Args V → ToolCall (Args V)
  with_args call args = record call { args = args }

  execute_spec-undeclared :
      (io : Printing V) (n : ℕ) (call : ToolCall (Args V)) (found : Option (ToolSpec V))
      (before after : Args V) (k : Text) (v : V)
      → IsUndeclared io k found
      → execute_spec io n (with_args call (before ++ ((k, v) ∷ after))) found
        ≡ execute_spec io n (with_args call (before ++ after)) found
  unfolding execute_spec IsUndeclared
  execute_spec-undeclared io n call none before after k v un = refl
  execute_spec-undeclared io n call (some spec) before after k v un =
      ap (λ args. result_of_run call.id (spec.fn n args))
        (declared_args-append (io.properties spec.params_schema) before after k v un)

  -- An argument that the schema of the called tool does not declare, wherever it stands in the call,
  -- changes nothing in the result: the call runs as if the model had not given it.
  pub execute_tool_undeclared :
      (io : Printing V) (n : ℕ) (call : ToolCall (Args V)) (registry : Registry V)
      (before after : Args V) (k : Text) (v : V)
      → IsUndeclared io k (get_spec call.name registry)
      → execute_tool io n (with_args call (before ++ ((k, v) ∷ after))) registry
        ≡ execute_tool io n (with_args call (before ++ after)) registry
  unfolding execute_tool
  execute_tool_undeclared io n call registry before after k v un =
      execute_spec-undeclared io n call (get_spec call.name registry) before after k v un
