-- ===== src/Selfcode.antt =====
-- shelldon/core/selfcode.py: the staging, the gate and the promotion of the tools that the model
-- writes. The three directories of the workspace are tables of files by name. Whether a call of the
-- file system succeeds is an argument; a move is a rename, which happens whole or not at all, and a
-- write that fails may leave a part. Unicode's normalization, Python's keywords, its parser and the
-- pytest process are parameters; what the process itself does to the disk is not modelled.
pub mod Imports
pub mod Banned
pub mod Live
pub mod Gate
pub mod Samples
use Prim.Native.Char.{code}
use shelldon.Base.{
  ℕ, Option, none, some, Bool, true, false, not, ◌&&◌, ◌||◌, String, List, [], ◌∷◌, ◌++◌, ◌==◌, leb,
  ltb, length, take, str_eq, is_some, if◌then◌else◌, ◌*◌,
}
use shelldon.Base.Result.{Result, ok, err, value_error, os_error, require, ◌>>=◌, ◌>>◌}
use shelldon.Base.Table.{Table, find, store, without}
use shelldon.Base.Text.{Text, codes, append_str}
use Imports.{Node, forbidden_import}

pub record Workspace : Type 0 where
  pub staging : Table Text
  pub live : Table Text
  pub quarantined : Table Text

abbrev pub max_tool_source_chars : ℕ
max_tool_source_chars = 64 * 1024

abbrev pub max_gate_output_chars : ℕ
max_gate_output_chars = 16 * 1024

abbrev is_digit : ℕ → Bool
is_digit c = leb 48 c && leb c 57

-- The class [a-z0-9_].
abbrev pub is_stem_char : ℕ → Bool
is_stem_char c = (leb 97 c && leb c 122) || (is_digit c || (c == 95))

-- `_UNSAFE_TOOL_RE.sub("_", …)`: a run of other characters becomes one underscore.
unfoldable pub collapse : Bool → String → String
collapse in_run String.[] = ""
collapse in_run (String.◌∷◌ c s) =
    let next = collapse false s in
    let run = collapse true s in
    if is_stem_char (code c) then String.◌∷◌ c next else if in_run then run else append_str "_" run

unfoldable pub drop_underscores : String → String
drop_underscores String.[] = ""
drop_underscores (String.◌∷◌ c s) =
    let rest = drop_underscores s in if code c == 95 then rest else String.◌∷◌ c s

unfoldable pub all_underscores : String → Bool
all_underscores String.[] = true
all_underscores (String.◌∷◌ c s) = (code c == 95) && all_underscores s

unfoldable pub drop_last_underscores : String → String
unfolding all_underscores
drop_last_underscores String.[] = ""
drop_last_underscores (String.◌∷◌ c s) =
    let rest = drop_last_underscores s in
    if all_underscores (String.◌∷◌ c s) then "" else String.◌∷◌ c rest

-- `if stem[0].isdigit(): stem = "t_" + stem`, of a stem that is not empty
unfoldable pub prefix_digit : String → String
prefix_digit String.[] = ""
prefix_digit (String.◌∷◌ c s) =
    if is_digit (code c) then append_str "t_" (String.◌∷◌ c s) else String.◌∷◌ c s

-- `normalize` is NFC, strip and casefold; `is_keyword` tells Python's keywords, the soft ones too.
unfoldable pub safe_tool_name : (String → String) → (String → Bool) → String → Result String
unfolding collapse drop_underscores drop_last_underscores prefix_digit
safe_tool_name normalize is_keyword name =
    let stem = drop_last_underscores (drop_underscores (collapse false (normalize name))) in
    do
      require (not (str_eq stem "")) value_error
      ok (
          if is_keyword (prefix_digit stem)
          then append_str (prefix_digit stem) "_tool"
          else prefix_digit stem)

-- `f"{stem}.py"` and `f"test_{stem}.py"`
abbrev pub module_file : String → String
module_file stem = append_str stem ".py"

abbrev pub test_file : String → String
test_file stem = append_str "test_" (append_str stem ".py")

-- `_unlink`: a failure is swallowed.
unfoldable pub unlink : Bool → String → Table Text → Table Text
unlink done name files = if done then without name files else files

unfoldable pub discard_tool : Bool → Bool → String → Workspace → Workspace
unfolding unlink
discard_tool first second stem w = record w {
  staging = unlink second (test_file stem) (unlink first (module_file stem) w.staging);
}

-- What `write_text` does: all of it, or an OSError that leaves the file as it was or with a part.
pub data Write : Type 0 where
  written refused : Write
  torn : Text → Write

unfoldable pub write_text : Write → String → Text → Table Text → Result (Unit {0}) × Table Text
write_text written name text files = (ok tt, store name text files)
write_text refused name text files = (err os_error, files)
write_text (torn part) name text files = (err os_error, store name part files)

-- The two writes of `stage`, the second only when the first succeeds.
unfoldable pub write_pair :
    Write → Write → String → Text → Text → Table Text → Result (Unit {0}) × Table Text
unfolding write_text
write_pair written second stem source test files =
    write_text second (test_file stem) test (store (module_file stem) source files)
write_pair refused second stem source test files = (err os_error, files)
write_pair (torn part) second stem source test files =
    (err os_error, store (module_file stem) part files)

-- How the calls of the file system go in one `stage`.
pub record StageFate : Type 0 where
  pub has_dir : Bool
  pub unlinks : Bool × Bool
  pub writes : Write × Write

unfoldable pub after_writes :
    String → Workspace → Result (Unit {0}) × Table Text → Result String × Workspace
after_writes stem w (ok u, files) = (ok stem, record w { staging = files })
after_writes stem w (err e, files) = (err e, record w { staging = files })

unfoldable pub stage_as :
    StageFate → Result String → Text → Text → Workspace → Result String × Workspace
unfolding discard_tool write_pair after_writes
stage_as fate (err e) source test w = (err e, w)
stage_as fate (ok stem) source test w =
    if fate.has_dir
    then (let cleared = discard_tool fate.unlinks.0 fate.unlinks.1 stem w in
        after_writes stem cleared
          (write_pair fate.writes.0 fate.writes.1 stem source test cleared.staging))
    else (err os_error, w)

-- `stage` answers with the stem of the module that it wrote.
unfoldable pub stage_tool :
    (String → String)
    → (String → Bool)
    → StageFate
    → String
    → Text
    → Text
    → Workspace
    → Result String × Workspace
unfolding stage_as safe_tool_name
stage_tool normalize is_keyword fate name source test w =
    if ltb max_tool_source_chars (length source) || ltb max_tool_source_chars (length test)
    then (err value_error, w)
    else stage_as fate (safe_tool_name normalize is_keyword name) source test w

-- How the pytest process of the gate ends.
pub data Process : Type 0 where
  unlaunched : Text → Process
  timed_out : Process
  exited : ℕ → Text → Process

unfoldable pub capped_output : Text → Text
capped_output out =
    if ltb max_gate_output_chars (length out)
    then take max_gate_output_chars out ++ codes "\n…[output truncated]"
    else out

unfoldable pub judge : Process → Bool × Text
unfolding capped_output
judge (unlaunched why) = (false, codes "could not launch the gate: " ++ why)
judge timed_out = (false, codes "gate timed out after 30.0s (killed)")
judge (exited status out) = (status == 0, capped_output out)

unfoldable pub judge_imports : (Text → Text) → Option Text → Process → Bool × Text
unfolding judge
judge_imports repr none process = judge process
judge_imports repr (some found) process = (
  false,
  codes "rejected: tool imports forbidden module "
      ++ (repr found ++ codes " (core stays LLM-free)"),
)

unfoldable pub judge_source :
    (Text → Option (List Node)) → (Text → Text) → Text → Option Text → Process → Bool × Text
unfolding judge_imports
judge_source parse repr why none process =
    (false, codes "could not read staged tool module: " ++ why)
judge_source parse repr why (some source) process =
    judge_imports repr (forbidden_import (parse source)) process

-- `parse` gives the nodes of a module's syntax tree in the order of the walk, or a SyntaxError.
-- `read_error` is the OSError, if reading the module raises one; `missing` its text when the module
-- is not there.
unfoldable pub run_gate :
    (Text → Option (List Node))
    → (Text → Text)
    → Option Text
    → Text
    → Process
    → String
    → Workspace
    → Bool × Text
unfolding judge_source
run_gate parse repr none missing process stem w =
    judge_source parse repr missing (find (module_file stem) w.staging) process
run_gate parse repr (some why) missing process stem w = judge_source parse repr why none process

unfoldable pub promote_as : Bool → Bool → Option Text → String → Workspace → Bool × Workspace
unfolding unlink
promote_as moves unlinks none stem w = (false, w)
promote_as moves unlinks (some source) stem w =
    if moves
    then (
      true,
      record w {
        staging = unlink unlinks (test_file stem) (without (module_file stem) w.staging);
        live = store (module_file stem) source w.live;
      },
    )
    else (false, w)

-- A module that is not staged cannot be moved. `moves` tells whether the directory can be made and
-- the file renamed.
unfoldable pub promote_tool : Bool → Bool → String → Workspace → Bool × Workspace
unfolding promote_as
promote_tool moves unlinks stem w =
    promote_as moves unlinks (find (module_file stem) w.staging) stem w

unfoldable pub quarantine_as : Bool → Option Text → String → Workspace → Bool × Workspace
quarantine_as moves none stem w = (false, w)
quarantine_as moves (some source) stem w =
    if moves
    then (
      true,
      record w {
        live = without (module_file stem) w.live;
        quarantined = store (module_file stem) source w.quarantined;
      },
    )
    else (false, w)

unfoldable pub quarantine_tool : Bool → String → Workspace → Bool × Workspace
unfolding quarantine_as
quarantine_tool moves stem w = quarantine_as moves (find (module_file stem) w.live) stem w
