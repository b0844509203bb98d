-- ===== src/Selfcode/Imports.antt =====
-- shelldon/core/selfcode.py: the scan of a module's syntax tree for the imports that a tool may not
-- have. A node has what the scan reads of it; every other node is `other_node`.
use shelldon.Base.{
  Option, none, some, Bool, true, false, ◌&&◌, ◌||◌, List, [], ◌∷◌, ◌++◌, ◌==◌, any_pass,
  if◌then◌else◌,
}
use shelldon.Base.Text.{Text, codes, text_eq}
use shelldon.Memory.{starts_with}

-- What is called, and a call's first argument.
pub data Func : Type 0 where
  named : Text → Func
  attribute_of : Text → Option Text → Func
  other_func : Func

pub data Arg : Type 0 where
  str_constant : Text → Arg
  other_arg : Arg

pub data Node : Type 0 where
  import_node : List Text → Node
  import_from : Option Text → List Text → Node
  call_node : Func → List Arg → Node
  other_node : Node

abbrev pub forbidden_top_modules : List Text
forbidden_top_modules =
    codes "openai"
    ∷ codes "anthropic"
    ∷ codes "google"
    ∷ codes "litellm"
    ∷ codes "zhipuai"
    ∷ codes "ollama"
    ∷ []

-- `name.split(".")[0]`
unfoldable pub top_module : Text → Text
top_module [] = []
top_module (c ∷ cs) = let rest = top_module cs in if c == 46 then [] else c ∷ rest

unfoldable pub in_core : Text → Bool
unfolding text_eq starts_with
in_core name = text_eq name (codes "shelldon.core") || starts_with (codes "shelldon.core.") name

unfoldable pub is_forbidden : Text → Bool
unfolding in_core top_module
is_forbidden name =
    any_pass (λ m. text_eq m (top_module name)) forbidden_top_modules || in_core name

unfoldable pub first_such : (Text → Bool) → List Text → Option Text
first_such p [] = none
first_such p (n ∷ ns) = if p n then some n else first_such p ns

-- `node.module or ""`
unfoldable pub module_of : Option Text → Text
module_of none = []
module_of (some m) = m

-- `f"{mod}.{alias.name}" if mod else alias.name`
unfoldable pub full_name : Text → Text → Text
full_name [] name = name
full_name (c ∷ cs) name = (c ∷ cs) ++ (46 ∷ name)

unfoldable pub full_names : Text → List Text → List Text
unfolding full_name
full_names m [] = []
full_names m (n ∷ ns) = full_name m n ∷ full_names m ns

unfoldable pub is_importer : Func → Bool
is_importer (named f) = text_eq f (codes "__import__")
is_importer (attribute_of attr (some value)) =
    text_eq attr (codes "import_module") && text_eq value (codes "importlib")
is_importer (attribute_of attr none) = false
is_importer other_func = false

-- `_dynamic_import_target`: not an import, one that cannot be checked, or the module's name.
pub data Target : Type 0 where
  not_import unverifiable : Target
  imports_module : Text → Target

unfoldable pub target_of_arg : Bool → List Arg → Target
target_of_arg false args = not_import
target_of_arg true [] = not_import
target_of_arg true (str_constant s ∷ args) = imports_module s
target_of_arg true (other_arg ∷ args) = unverifiable

unfoldable pub dynamic_import_target : Func → List Arg → Target
unfolding target_of_arg is_importer
dynamic_import_target f args = target_of_arg (is_importer f) args

unfoldable pub check_target : Target → Option Text
unfolding is_forbidden
check_target not_import = none
check_target unverifiable = none
check_target (imports_module m) = if is_forbidden m then some m else none

-- The forbidden name that one node imports.
unfoldable pub forbidden_in : Node → Option Text
unfolding first_such is_forbidden in_core module_of full_names dynamic_import_target check_target
forbidden_in (import_node names) = first_such is_forbidden names
forbidden_in (import_from m names) =
    if is_forbidden (module_of m)
    then some (module_of m)
    else first_such in_core (full_names (module_of m) names)
forbidden_in (call_node f args) = check_target (dynamic_import_target f args)
forbidden_in other_node = none

unfoldable pub or_else : Option Text → Option Text → Option Text
or_else none o = o
or_else (some t) o = some t

unfoldable pub forbidden_nodes : List Node → Option Text
unfolding or_else forbidden_in
forbidden_nodes [] = none
forbidden_nodes (n ∷ ns) = or_else (forbidden_in n) (forbidden_nodes ns)

-- `_forbidden_import`, of the parsed source; a syntax error is left to pytest.
unfoldable pub forbidden_import : Option (List Node) → Option Text
unfolding forbidden_nodes
forbidden_import none = none
forbidden_import (some nodes) = forbidden_nodes nodes
