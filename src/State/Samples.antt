-- ===== src/State/Samples.antt =====
-- A state that is patched and flushed.
use shelldon.Base.{none, true, false, List, [], ◌∷◌, ◌≡◌}
use shelldon.Base.Result.{err, key_error}
use shelldon.State.{
  mood_valence, set_last_interaction, unknown_path, apply_patch, absent, restore, load_state,
}
use shelldon.State.Saved.{
  Use, patches, flushes, IsSaved, use_all, use_all-IsSaved, flush_if_dirty, restore-flush_if_dirty,
  apply_patch_whole,
}

abbrev uses : List Use
uses =
    patches (mood_valence 10_300 ∷ [])
    ∷ flushes false
    ∷ patches (unknown_path "mood.valense" ∷ [])
    ∷ flushes true
    ∷ []

use_all-IsSaved_example : IsSaved (use_all uses (load_state absent, absent))
use_all-IsSaved_example = use_all-IsSaved uses absent

restore-flush_if_dirty_example :
    (let now = use_all uses (load_state absent, absent) in
      restore (flush_if_dirty true now.0 now.1).1.1 ≡ now.0.state)
restore-flush_if_dirty_example = restore-flush_if_dirty uses absent

apply_patch_whole_example :
    apply_patch
      (mood_valence 10_300 ∷ unknown_path "soul" ∷ set_last_interaction none ∷ [])
      (load_state absent)
    ≡ (err key_error, load_state absent)
apply_patch_whole_example =
    apply_patch_whole "soul" (mood_valence 10_300 ∷ []) (set_last_interaction none ∷ [])
      (load_state absent)
