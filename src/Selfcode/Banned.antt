-- ===== src/Selfcode/Banned.antt =====
-- shelldon/core/selfcode.py: what a tool may not import, said of the names themselves, and that the scan
-- finds it.
use shelldon.Base.{
  ℕ, Option, none, some, Bool, true, false, ◌||◌, List, [], ◌∷◌, ◌++◌, any_pass, ◌≡◌, refl, sym, ap,
  ◌∙◌, All, inl, inr, Bool-cases, Option-cases, arith, if◌then◌else◌,
}
use mathlib.Core.Bool.{false≢true}
use shelldon.Base.Text.{Text, codes}
use shelldon.Selfcode.Imports.{
  Func, named, attribute_of, other_func, Arg, str_constant, other_arg, Node, import_node,
  import_from, call_node, other_node, is_forbidden, in_core, first_such, module_of, full_name,
  full_names, is_importer, target_of_arg, dynamic_import_target, Target, check_target, forbidden_in,
  forbidden_nodes, forbidden_import, or_else,
}

-- The libraries of models.
pub data Library : Type 0 where
  openai anthropic google litellm zhipuai ollama : Library

abbrev pub library_name : Library → Text
library_name openai = codes "openai"
library_name anthropic = codes "anthropic"
library_name google = codes "google"
library_name litellm = codes "litellm"
library_name zhipuai = codes "zhipuai"
library_name ollama = codes "ollama"

-- The dotted names of core and of what is in it.
pub data IsCore : Text → Type 0 where
  core : IsCore (codes "shelldon.core")
  in_it : (rest : Text) → IsCore (codes "shelldon.core." ++ rest)

-- The dotted names that are banned: a library's, of a part of it, or core's.
pub data IsBanned : Text → Type 0 where
  library : (l : Library) → IsBanned (library_name l)
  part_of : (l : Library) (rest : Text) → IsBanned (library_name l ++ (46 ∷ rest))
  of_core : (name : Text) → IsCore name → IsBanned name

-- The calls that import what their first argument names.
pub data IsImporter : Func → Type 0 where
  dunder : IsImporter (named (codes "__import__"))
  importlib : IsImporter (attribute_of (codes "import_module") (some (codes "importlib")))

-- A node imports nothing banned, by a statement or by a call with a literal name.
pub IsAllowed : Node → Type 0
IsAllowed (import_node names) = All (λ n. ¬ IsBanned n) names
IsAllowed (import_from m names) =
    (¬ IsBanned (module_of m)) × All (λ n. ¬ IsCore (full_name (module_of m) n)) names
IsAllowed (call_node f (str_constant s ∷ args)) = IsImporter f → ¬ IsBanned s
IsAllowed (call_node f (other_arg ∷ args)) = Unit
IsAllowed (call_node f []) = Unit
IsAllowed other_node = Unit

abbrev pub IsClean : Option (List Node) → Type 0
IsClean none = Unit
IsClean (some nodes) = All IsAllowed nodes

IsCore→in_core : (name : Text) → IsCore name → in_core name ≡ true
unfolding in_core shelldon.Base.Text.text_eq shelldon.Memory.starts_with
IsCore→in_core _ core = refl
IsCore→in_core _ (in_it rest) = refl

or_true : (b : Bool) → (b || true) ≡ true
or_true true = refl
or_true false = refl

IsBanned→is_forbidden : (name : Text) → IsBanned name → is_forbidden name ≡ true
unfolding is_forbidden shelldon.Base.Text.text_eq shelldon.Selfcode.Imports.top_module
IsBanned→is_forbidden _ (library openai) = refl
IsBanned→is_forbidden _ (library anthropic) = refl
IsBanned→is_forbidden _ (library google) = refl
IsBanned→is_forbidden _ (library litellm) = refl
IsBanned→is_forbidden _ (library zhipuai) = refl
IsBanned→is_forbidden _ (library ollama) = refl
IsBanned→is_forbidden _ (part_of openai rest) = refl
IsBanned→is_forbidden _ (part_of anthropic rest) = refl
IsBanned→is_forbidden _ (part_of google rest) = refl
IsBanned→is_forbidden _ (part_of litellm rest) = refl
IsBanned→is_forbidden _ (part_of zhipuai rest) = refl
IsBanned→is_forbidden _ (part_of ollama rest) = refl
IsBanned→is_forbidden name (of_core _ c) = rw (IsCore→in_core name c) (or_true _)

allowed : (name : Text) → is_forbidden name ≡ false → ¬ IsBanned name
allowed name h = λ b. false≢true (sym h ∙ IsBanned→is_forbidden name b)

outside : (name : Text) → in_core name ≡ false → ¬ IsCore name
outside name h = λ c. false≢true (sym h ∙ IsCore→in_core name c)

none_such : (p : Text → Bool) (ns : List Text) → first_such p ns ≡ none → All (λ n. p n ≡ false) ns
unfolding first_such
none_such p [] h = tt
none_such p (n ∷ ns) h = split (p n) refl h (none_such p ns)
  where
    split :
        (b : Bool)
        → p n ≡ b
        → (if b then some n else first_such p ns) ≡ none
        → (first_such p ns ≡ none → All (λ m. p m ≡ false) ns)
        → (p n ≡ false) × All (λ m. p m ≡ false) ns
    split true e k rest = cc
    split false e k rest = (e, rest k)

All-allowed : (ns : List Text) → All (λ n. is_forbidden n ≡ false) ns → All (λ n. ¬ IsBanned n) ns
All-allowed [] h = tt
All-allowed (n ∷ ns) h = (allowed n h.0, All-allowed ns h.1)

All-outside :
    (m : Text) (ns : List Text)
    → All (λ n. in_core n ≡ false) (full_names m ns)
    → All (λ n. ¬ IsCore (full_name m n)) ns
unfolding full_names
All-outside m [] h = tt
All-outside m (n ∷ ns) h = (outside (full_name m n) h.0, All-outside m ns h.1)

from-IsAllowed :
    (b : Bool) (m : Option Text) (names : List Text)
    → is_forbidden (module_of m) ≡ b
    → (if b then some (module_of m) else first_such in_core (full_names (module_of m) names)) ≡ none
    → IsAllowed (import_from m names)
unfolding IsAllowed
from-IsAllowed true m names e h = cc
from-IsAllowed false m names e h = (
  allowed (module_of m) e,
  All-outside (module_of m) names (none_such in_core (full_names (module_of m) names) h),
)

literal-IsAllowed :
    (f : Func) (s : Text)
    → IsImporter f
    → (args : List Arg) → check_target (dynamic_import_target f (str_constant s ∷ args)) ≡ none
    → is_forbidden s ≡ false
unfolding dynamic_import_target is_importer target_of_arg check_target shelldon.Base.Text.text_eq
literal-IsAllowed _ s dunder args h = unlisted (is_forbidden s) h
  where
    unlisted : (b : Bool) → (if b then some s else none) ≡ none → b ≡ false
    unlisted true k = cc
    unlisted false k = refl
literal-IsAllowed _ s importlib args h = unlisted (is_forbidden s) h
  where
    unlisted : (b : Bool) → (if b then some s else none) ≡ none → b ≡ false
    unlisted true k = cc
    unlisted false k = refl

forbidden_in-IsAllowed : (n : Node) → forbidden_in n ≡ none → IsAllowed n
unfolding forbidden_in IsAllowed
forbidden_in-IsAllowed (import_node names) h = All-allowed names (none_such is_forbidden names h)
forbidden_in-IsAllowed (import_from m names) h =
    from-IsAllowed (is_forbidden (module_of m)) m names refl h
forbidden_in-IsAllowed (call_node f []) h = tt
forbidden_in-IsAllowed (call_node f (other_arg ∷ args)) h = tt
forbidden_in-IsAllowed (call_node f (str_constant s ∷ args)) h =
    λ i. allowed s (literal-IsAllowed f s i args h)
forbidden_in-IsAllowed other_node h = tt

forbidden_nodes→clean : (nodes : List Node) → forbidden_nodes nodes ≡ none → All IsAllowed nodes
unfolding forbidden_nodes or_else
forbidden_nodes→clean [] h = tt
forbidden_nodes→clean (n ∷ ns) h = elim (Option-cases (forbidden_in n)) [
  | inl e ↦ (
    forbidden_in-IsAllowed n e,
    forbidden_nodes→clean ns (ap (λ o. or_else o (forbidden_nodes ns)) (sym e) ∙ h),
  )
  | inr (t, e) ↦ cc
]

pub forbidden_import→clean : (o : Option (List Node)) → forbidden_import o ≡ none → IsClean o
unfolding forbidden_import
forbidden_import→clean none h = tt
forbidden_import→clean (some nodes) h = forbidden_nodes→clean nodes h
