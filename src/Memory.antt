-- ===== src/Memory.antt =====
-- shelldon/core/memory.py: the curated markdown tree, and the operations on it of
-- shelldon/contracts/__init__.py. A file is named by its collection, if any, and its name; the tree is
-- a list of files with their texts. Reading and writing may fail with an OSError, which an argument
-- tells; an atomic write that fails changes nothing. `normalize` is NFC, strip and casefold, and
-- `is_word` the class \w of the regular expression: both are Python's.
pub mod Files
pub mod Reach
pub mod Markers
pub mod Collection
pub mod Names
pub mod Samples
use shelldon.Base.{
  ℕ, Option, none, some, Bool, true, false, not, ◌&&◌, ◌||◌, String, List, [], ◌∷◌, ◌++◌, ◌==◌, has,
  any_pass, all_pass, str_eq, if◌then◌else◌,
}
use shelldon.Base.Result.{Result, ok, err, value_error, os_error, require, ◌>>=◌, ◌>>◌}
use shelldon.Base.Text.{Text, codes, join, is_blank, text_eq}

pub data MemoryOp : Type 0 where
  remember : String → Text → Text → MemoryOp
  rewrite_about rewrite_summary : Text → MemoryOp
  rewrite_soul rewrite_identity rewrite_user rewrite_instructions : Text → MemoryOp
  log_episode : Text → List Text → MemoryOp

pub record File : Type 0 where
  pub collection : Option String
  pub name : Text

unfoldable pub same_collection : Option String → Option String → Bool
same_collection none none = true
same_collection none (some d) = false
same_collection (some c) none = false
same_collection (some c) (some d) = str_eq c d

unfoldable pub file_eq : File → File → Bool
unfolding same_collection
file_eq f g = same_collection f.collection g.collection && text_eq f.name g.name

abbrev pub Tree : Type 0
Tree = List (File × Text)

unfoldable pub read_file : File → Tree → Option Text
unfolding file_eq
read_file f [] = none
read_file f ((g, text) ∷ m) = if file_eq g f then some text else read_file f m

-- Python's universal newlines: a carriage return, with the line feed behind it if there is one, is
-- read as a line feed.
unfoldable pub universal_newlines : Text → Text
universal_newlines [] = []
universal_newlines (c ∷ []) = if c == 13 then 10 ∷ [] else c ∷ []
universal_newlines (c ∷ d ∷ cs) =
    let rest = universal_newlines (d ∷ cs) in
    if c == 13 then (if d == 10 then rest else 10 ∷ rest) else c ∷ rest

abbrev pub translated : Option Text → Option Text
unfolding universal_newlines
translated none = none
translated (some text) = some (universal_newlines text)

-- `path.read_text()`, of a file that is there
unfoldable pub read_text : File → Tree → Option Text
unfolding translated read_file
read_text f m = translated (read_file f m)

unfoldable pub write_file : File → Text → Tree → Tree
unfolding file_eq
write_file f text [] = (f, text) ∷ []
write_file f text ((g, old) ∷ m) =
    if file_eq g f then (f, text) ∷ m else (g, old) ∷ write_file f text m

abbrev pub top : String → File
top name = record { collection = none; name = codes name }

abbrev pub directive_name : File
directive_name = top "DIRECTIVE.md"

abbrev pub collections : List String
collections = "facts" ∷ "people" ∷ "preferences" ∷ "capabilities" ∷ []

abbrev pub required_instruction_markers : List Text
required_instruction_markers = codes "THOUGHT:" ∷ codes "FACE:" ∷ codes "```ops" ∷ []

unfoldable pub starts_with : Text → Text → Bool
starts_with [] text = true
starts_with (c ∷ cs) [] = false
starts_with (c ∷ cs) (d ∷ ds) = (c == d) && starts_with cs ds

-- `marker in text`
unfoldable pub occurs : Text → Text → Bool
unfolding starts_with
occurs marker [] = starts_with marker []
occurs marker (c ∷ cs) = starts_with marker (c ∷ cs) || occurs marker cs

unfoldable pub keeps_markers : Text → Bool
unfolding occurs
keeps_markers text = all_pass (λ m. occurs m text) required_instruction_markers

-- `_atomic_write_text`
unfoldable pub atomic_write : Bool → File → Text → Tree → Result Tree
unfolding write_file
atomic_write written f text m = do require written os_error; ok (write_file f text m)

abbrev pub dash : ℕ
dash = 45

-- `_UNSAFE_RE.sub("-", …)`: a run of other characters becomes one dash.
unfoldable pub sub_unsafe : (ℕ → Bool) → Bool → Text → Text
sub_unsafe is_word in_run [] = []
sub_unsafe is_word in_run (c ∷ cs) =
    let next = sub_unsafe is_word false cs in
    let run = sub_unsafe is_word true cs in
    if is_word c || (c == dash) then c ∷ next else if in_run then run else dash ∷ run

-- `.strip("-_.")`
abbrev pub is_edge : ℕ → Bool
is_edge c = (c == dash) || ((c == 95) || (c == 46))

abbrev pub is_empty : Text → Bool
is_empty [] = true
is_empty (c ∷ cs) = false

unfoldable pub drop_edge : Text → Text
drop_edge [] = []
drop_edge (c ∷ cs) = if is_edge c then drop_edge cs else c ∷ cs

unfoldable pub drop_edge_end : Text → Text
drop_edge_end [] = []
drop_edge_end (c ∷ cs) = if all_pass is_edge (c ∷ cs) then [] else c ∷ drop_edge_end cs

abbrev pub slash : ℕ
slash = 47

unfoldable pub rewrite : Bool → String → Text → Tree → Result Tree
unfolding atomic_write
rewrite written name content m = do
  require (not (is_blank content)) value_error
  atomic_write written (top name) content m

-- The owner's directive: core calls this only after the owner has approved the change.
unfoldable pub apply_rewrite_directive : Bool → Text → Tree → Result Tree
unfolding rewrite
apply_rewrite_directive written content m = rewrite written "DIRECTIVE.md" content m

unfoldable pub is_present : Option Text → Bool
is_present none = false
is_present (some t) = true

after_seed : Result Tree → Tree → Tree
after_seed (ok n) m = n
after_seed (err e) m = m

-- `_seed_persona`: each absent file gets its template, unless that is missing or the write fails.
unfoldable pub seed_persona : Bool → List (String × Option Text) → Tree → Tree
unfolding atomic_write read_file is_present after_seed
seed_persona written [] m = m
seed_persona written ((name, none) ∷ seeds) m = seed_persona written seeds m
seed_persona written ((name, some text) ∷ seeds) m = seed_persona written seeds (
    if is_present (read_file (top name) m)
    then m
    else after_seed (atomic_write written (top name) text m) m)

unfoldable pub apply_rewrite_instructions : Bool → Text → Tree → Result Tree
unfolding atomic_write keeps_markers
apply_rewrite_instructions written content m = do
  require (not (is_blank content)) value_error
  require (keeps_markers content) value_error
  atomic_write written (top "BOT_INSTRUCTIONS.md") content m

tag_header : List Text → Text
tag_header [] = []
tag_header (t ∷ ts) = codes "## tags: " ++ (join (codes ", ") (t ∷ ts) ++ (10 ∷ 10 ∷ []))

-- The episode after what was logged before.
episode_block : Option Text → Text → Text
episode_block none entry = entry
episode_block (some []) entry = entry
episode_block (some (c ∷ cs)) entry = (c ∷ cs) ++ ((10 ∷ (codes "---" ++ (10 ∷ 10 ∷ []))) ++ entry)

unfoldable pub apply_log_episode : Bool → Bool → Text → List Text → Tree → Result Tree
unfolding atomic_write read_file read_text tag_header episode_block is_present
apply_log_episode readable written content tags m = do
  require (not (is_blank content)) value_error
  require (readable || not (is_present (read_file (top "episodes.md") m))) os_error
  atomic_write written (top "episodes.md")
      (episode_block (read_text (top "episodes.md") m) (tag_header tags ++ (content ++ (10 ∷ []))))
      m

module _ (normalize : Text → Text) (is_word : ℕ → Bool) where
  unfoldable pub safe_filename : Text → Text
  unfolding sub_unsafe drop_edge drop_edge_end
  safe_filename name = drop_edge_end (drop_edge (sub_unsafe is_word false (normalize name)))

  -- A path whose parent is not the collection is refused: one whose stem has a separator.
  unfoldable pub apply_remember : Bool → String → Text → Text → Tree → Result Tree
  unfolding safe_filename atomic_write
  apply_remember written collection name content m = do
    require (has collection collections) value_error
    require (not (is_blank content)) value_error
    require (not (is_empty (safe_filename name))) value_error
    require (not (any_pass (λ c. c == slash) (safe_filename name))) value_error
    atomic_write written
        (record { collection = some collection; name = safe_filename name ++ codes ".md" }) content
        m

  unfoldable pub apply_memory_op : Bool → Bool → MemoryOp → Tree → Result Tree
  unfolding apply_remember rewrite apply_rewrite_instructions apply_log_episode
  apply_memory_op readable written (remember collection name content) m =
      apply_remember written collection name content m
  apply_memory_op readable written (rewrite_about content) m = rewrite written "about.md" content m
  apply_memory_op readable written (rewrite_summary content) m =
      rewrite written "summary.md" content m
  apply_memory_op readable written (rewrite_soul content) m = rewrite written "SOUL.md" content m
  apply_memory_op readable written (rewrite_identity content) m =
      rewrite written "IDENTITY.md" content m
  apply_memory_op readable written (rewrite_user content) m = rewrite written "USER.md" content m
  apply_memory_op readable written (rewrite_instructions content) m =
      apply_rewrite_instructions written content m
  apply_memory_op readable written (log_episode content tags) m =
      apply_log_episode readable written content tags m
