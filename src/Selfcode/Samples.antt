-- ===== src/Selfcode/Samples.antt =====
-- A tool that the model wrote, on its way through the gate and out of it again.
use shelldon.Base.{ℕ, Option, none, some, Bool, true, false, String, List, [], ◌∷◌, ◌≡◌, refl, All}
use shelldon.Base.Result.{ok}
use shelldon.Base.Table.{find}
use shelldon.Base.Text.{Text, codes}
use shelldon.Selfcode.{
  Workspace, StageFate, written, Process, quarantine_tool, module_file, safe_tool_name,
}
use shelldon.Selfcode.Gate.{all_stem, all_stem-safe_tool_name}
use shelldon.Selfcode.Imports.{Node, import_node, forbidden_in}
use shelldon.Selfcode.Live.{ToolAction, stages, discards, promotes_file, acts, quarantine_tool_gone}

abbrev parse : Text → Option (List Node)
parse source = some (import_node (codes "json" ∷ []) ∷ [])

abbrev readable : Option Text
readable = none

abbrev shop : Workspace
shop = record {
  staging = ("dice.py", codes "import json") ∷ [];
  live = ("coin.py", codes "x = 1") ∷ [];
  quarantined = [];
}

named : safe_tool_name (λ s. s) (λ s. false) "../9 lives" ≡ ok "t_9_lives"
unfolding safe_tool_name shelldon.Base.Text.append_str
named = refl

all_stem-safe_tool_name_example : all_stem "t_9_lives" ≡ true
all_stem-safe_tool_name_example =
    all_stem-safe_tool_name (λ s. s) (λ s. false) "../9 lives" "t_9_lives" named

abbrev fate : StageFate
fate = record { has_dir = true; unlinks = (true, false); writes = (written, written) }

abbrev later : List ToolAction
later = stages fate "coin" (codes "x = 2") (codes "assert x") ∷ discards true true "coin" ∷ []

moves : (quarantine_tool true "coin" shop).0 ≡ true
unfolding quarantine_tool find shelldon.Base.Text.append_str
moves = refl

unpromoted : All (λ a. promotes_file (module_file "coin") a ≡ false) later
unfolding promotes_file
unpromoted = (refl, (refl, tt))

quarantine_tool_gone_example :
    find
      (module_file "coin")
      (acts (λ s. s) (λ s. false) later (quarantine_tool true "coin" shop).1).live
    ≡ none
quarantine_tool_gone_example =
    quarantine_tool_gone (λ s. s) (λ s. false) true "coin" shop later moves unpromoted
