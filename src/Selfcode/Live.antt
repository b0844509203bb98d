-- ===== src/Selfcode/Live.antt =====
-- shelldon/core/selfcode.py: what can be live. The calls that core makes are a schedule of actions.
use shelldon.Base.{
  Option, none, some, Bool, true, false, ◌||◌, String, List, [], ◌∷◌, str_eq, ◌≡◌, refl, inl, inr,
  Bool-cases, All, ◌∙◌, ap, eq_refl, ltb, length,
}
use shelldon.Base.Result.{Result, ok, err}
use shelldon.Base.Table.{Table, find, find-store, find-without}
use shelldon.Base.Text.{Text}
use shelldon.Selfcode.{
  Workspace, StageFate, stage_tool, discard_tool, promote_tool, quarantine_tool, safe_tool_name,
  module_file, stage_as, after_writes, write_pair, promote_as, quarantine_as, max_tool_source_chars,
}

pub data ToolAction : Type 0 where
  stages : StageFate → String → Text → Text → ToolAction
  discards : Bool → Bool → String → ToolAction
  promotes : Bool → Bool → String → ToolAction
  quarantines : Bool → String → ToolAction

module _ (normalize : String → String) (is_keyword : String → Bool) where
  unfoldable pub act : ToolAction → Workspace → Workspace
  unfolding stage_tool discard_tool promote_tool quarantine_tool
  act (stages fate name source test) w = (stage_tool normalize is_keyword fate name source test w).1
  act (discards first second stem) w = discard_tool first second stem w
  act (promotes moves unlinks stem) w = (promote_tool moves unlinks stem w).1
  act (quarantines moves stem) w = (quarantine_tool moves stem w).1

  unfoldable pub acts : List ToolAction → Workspace → Workspace
  unfolding act
  acts [] w = w
  acts (a ∷ more) w = acts more (act a w)

-- Whether an action is the promotion of a given file.
unfoldable pub promotes_file : String → ToolAction → Bool
promotes_file file (stages fate name source test) = false
promotes_file file (discards first second stem) = false
promotes_file file (promotes moves unlinks stem) = str_eq (module_file stem) file
promotes_file file (quarantines moves stem) = false

after_writes_live :
    (stem : String) (w : Workspace) (r : Result (Unit {0}) × Table Text)
    → (after_writes stem w r).1.live ≡ w.live
unfolding after_writes
after_writes_live stem w (ok u, files) = refl
after_writes_live stem w (err e, files) = refl

stage_as_live :
    (fate : StageFate) (stem : Result String) (source test : Text) (w : Workspace)
    → (stage_as fate stem source test w).1.live ≡ w.live
unfolding stage_as discard_tool
stage_as_live fate (err e) source test w = refl
stage_as_live fate (ok stem) source test w = elim (Bool-cases fate.has_dir) [
  | inl e ↦ rw e (
      after_writes_live stem (discard_tool fate.unlinks.0 fate.unlinks.1 stem w) (
        write_pair fate.writes.0 fate.writes.1 stem source test
          (discard_tool fate.unlinks.0 fate.unlinks.1 stem w).staging))
  | inr e ↦ rw e refl
]

stage_live :
    (normalize : String → String) (is_keyword : String → Bool) (fate : StageFate) (name : String)
    (source test : Text) (w : Workspace)
    → (stage_tool normalize is_keyword fate name source test w).1.live ≡ w.live
unfolding stage_tool
stage_live normalize is_keyword fate name source test w =
    elim (Bool-cases
      (ltb max_tool_source_chars (length source) || ltb max_tool_source_chars (length test))) [
        | inl big ↦ rw big refl
        | inr fits ↦
            rw fits (stage_as_live fate (safe_tool_name normalize is_keyword name) source test w)
      ]

-- A promotion leaves every other live file alone.
promote_other :
    (moves unlinks : Bool) (source : Option Text) (stem file : String) (w : Workspace)
    → str_eq (module_file stem) file ≡ false
    → find file (promote_as moves unlinks source stem w).1.live ≡ find file w.live
unfolding promote_as
promote_other moves unlinks none stem file w h = refl
promote_other false unlinks (some source) stem file w h = refl
promote_other true unlinks (some source) stem file w h =
    find-store (module_file stem) file source w.live ∙ rw h refl

quarantine_gone :
    (moves : Bool) (found : Option Text) (stem file : String) (w : Workspace)
    → find file w.live ≡ none
    → find file (quarantine_as moves found stem w).1.live ≡ none
unfolding quarantine_as
quarantine_gone moves none stem file w h = h
quarantine_gone false (some source) stem file w h = h
quarantine_gone true (some source) stem file w h =
    find-without (module_file stem) file w.live
    ∙ elim (Bool-cases (str_eq (module_file stem) file)) [ inl e ↦ rw e refl | inr e ↦ rw e h ]

module _ (normalize : String → String) (is_keyword : String → Bool) (file : String) where
  act_gone :
      (a : ToolAction) (w : Workspace)
      → promotes_file file a ≡ false
      → find file w.live ≡ none
      → find file (act normalize is_keyword a w).live ≡ none
  unfolding act promotes_file discard_tool promote_tool quarantine_tool
  act_gone (stages fate name source test) w p h =
      ap (find file) (stage_live normalize is_keyword fate name source test w) ∙ h
  act_gone (discards first second stem) w p h = h
  act_gone (promotes moves unlinks stem) w p h =
      promote_other moves unlinks (find (module_file stem) w.staging) stem file w p ∙ h
  act_gone (quarantines moves stem) w p h =
      quarantine_gone moves (find (module_file stem) w.live) stem file w h

  -- A tool that is not live stays so through any actions but a promotion of its file: neither a
  -- proposal, however it is named and whatever fails, nor a discard makes code live.
  pub acts_gone :
      (more : List ToolAction) (w : Workspace)
      → All (λ a. promotes_file file a ≡ false) more
      → find file w.live ≡ none
      → find file (acts normalize is_keyword more w).live ≡ none
  unfolding acts
  acts_gone [] w p h = h
  acts_gone (a ∷ more) w p h =
      acts_gone more (act normalize is_keyword a w) p.1 (act_gone a w p.0 h)

quarantined_gone :
    (found : Option Text) (moves : Bool) (stem : String) (w : Workspace)
    → (quarantine_as moves found stem w).0 ≡ true
    → find (module_file stem) (quarantine_as moves found stem w).1.live ≡ none
unfolding quarantine_as
quarantined_gone none moves stem w h = cc
quarantined_gone (some source) false stem w h = cc
quarantined_gone (some source) true stem w h =
    find-without (module_file stem) (module_file stem) w.live ∙ rw (eq_refl (module_file stem)) refl

-- Once a tool is quarantined, no worker finds it live again until core promotes a file of its name:
-- no proposal and no other tool's promotion or quarantine brings it back.
pub quarantine_tool_gone :
    (normalize : String → String) (is_keyword : String → Bool) (moves : Bool) (stem : String)
    (w : Workspace) (more : List ToolAction)
    → (quarantine_tool moves stem w).0 ≡ true
    → All (λ a. promotes_file (module_file stem) a ≡ false) more
    → find (module_file stem) (acts normalize is_keyword more (quarantine_tool moves stem w).1).live
      ≡ none
unfolding quarantine_tool
quarantine_tool_gone normalize is_keyword moves stem w more h p =
    acts_gone normalize is_keyword (module_file stem) more _ p
      (quarantined_gone (find (module_file stem) w.live) moves stem w h)
