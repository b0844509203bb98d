-- ===== src/State/Saved.antt =====
-- shelldon/core/state.py: what is on disk while the state is clean, and what a patch may do.
use shelldon.Base.{
  Bool, true, false, ◌&&◌, String, List, [], ◌∷◌, ◌++◌, ◌≡◌, refl, inl, inr, Bool-cases,
  if◌then◌else◌,
}
use shelldon.Base.Result.{Result, ok, err, key_error}
use shelldon.State.{
  PersistentState, Item, unknown_path, is_writable, all_writable, apply_patch, Checkpoint, restore,
  load_state, checkpoint,
}

-- What core does with its state: a patch, or a flush that may fail, which only writes a dirty state
-- (`_checkpoint_if_dirty`).
pub data Use : Type 0 where
  patches : List Item → Use
  flushes : Bool → Use

unfoldable pub flush_if_dirty :
    Bool → PersistentState → Checkpoint → Result (Unit {0}) × (PersistentState × Checkpoint)
unfolding checkpoint
flush_if_dirty written p file = if p.dirty then checkpoint written p file else (ok tt, (p, file))

unfoldable pub use_state : Use → PersistentState × Checkpoint → PersistentState × Checkpoint
unfolding apply_patch flush_if_dirty
use_state (patches items) (p, file) = ((apply_patch items p).1, file)
use_state (flushes written) (p, file) = (flush_if_dirty written p file).1

unfoldable pub use_all : List Use → PersistentState × Checkpoint → PersistentState × Checkpoint
unfolding use_state
use_all [] s = s
use_all (u ∷ us) s = use_all us (use_state u s)

-- A clean state is what a restart would restore.
abbrev pub IsSaved : PersistentState × Checkpoint → Type 0
IsSaved (p, file) = p.dirty ≡ false → restore file ≡ p.state

and_false : (b : Bool) → (b && false) ≡ false
and_false true = refl
and_false false = refl

patches-IsSaved :
    (items : List Item) (p : PersistentState) (file : Checkpoint)
    → IsSaved (p, file)
    → IsSaved (use_state (patches items) (p, file))
unfolding use_state apply_patch
patches-IsSaved [] p file v = v
patches-IsSaved (i ∷ is) p file v = elim (Bool-cases (is_writable i && all_writable is)) [
  | inl e ↦ rw e (λ h. cc)
  | inr e ↦ rw e v
]

flush-IsSaved :
    (written dirty : Bool) (p : PersistentState) (file : Checkpoint)
    → p.dirty ≡ dirty
    → IsSaved (p, file)
    → IsSaved (flush_if_dirty written p file).1
unfolding flush_if_dirty checkpoint restore
flush-IsSaved written false p file e v = rw e (λ h. v e)
flush-IsSaved true true p file e v = rw e (λ h. refl)
flush-IsSaved false true p file e v = rw e (λ h. cc)

use-IsSaved : (u : Use) (s : PersistentState × Checkpoint) → IsSaved s → IsSaved (use_state u s)
unfolding use_state
use-IsSaved (patches items) (p, file) v = patches-IsSaved items p file v
use-IsSaved (flushes written) (p, file) v = flush-IsSaved written p.dirty p file refl v

all-IsSaved :
    (us : List Use) (s : PersistentState × Checkpoint) → IsSaved s → IsSaved (use_all us s)
unfolding use_all
all-IsSaved [] s v = v
all-IsSaved (u ∷ us) s v = all-IsSaved us (use_state u s) (use-IsSaved u s v)

-- Whatever the checkpoint's file is at the start, and whatever patches and flushes follow, failed
-- ones included: while the state is clean, a restart restores exactly it.
pub use_all-IsSaved :
    (us : List Use) (file : Checkpoint) → IsSaved (use_all us (load_state file, file))
unfolding load_state
use_all-IsSaved us file = all-IsSaved us (load_state file, file) (λ h. refl)

restore_flushed :
    (dirty : Bool) (p : PersistentState) (file : Checkpoint)
    → p.dirty ≡ dirty
    → IsSaved (p, file)
    → restore (flush_if_dirty true p file).1.1 ≡ p.state
unfolding flush_if_dirty checkpoint restore
restore_flushed true p file e v = rw e refl
restore_flushed false p file e v = rw e (v e)

-- A flush that does not fail, after any patches and flushes, makes the state survive: a restart from
-- the file that it leaves restores the state that was flushed.
pub restore-flush_if_dirty :
    (us : List Use) (file : Checkpoint)
    → (let now = use_all us (load_state file, file) in
        restore (flush_if_dirty true now.0 now.1).1.1 ≡ now.0.state)
restore-flush_if_dirty us file =
    let now = use_all us (load_state file, file) in
    restore_flushed now.0.dirty now.0 now.1 refl (use_all-IsSaved us file)

not_writable :
    (k : String) (before after : List Item)
    → all_writable (before ++ unknown_path k ∷ after) ≡ false
unfolding all_writable is_writable
not_writable k [] after = refl
not_writable k (i ∷ is) after = rw (not_writable k is after) (and_false (is_writable i))

-- One path outside the closed set rejects the whole patch, wherever in the patch it stands and
-- whatever stands around it: it raises a KeyError, and leaves the state and its dirty flag as they
-- were, so that no item of it is applied.
pub apply_patch_whole :
    (k : String) (before after : List Item) (p : PersistentState)
    → apply_patch (before ++ unknown_path k ∷ after) p ≡ (err key_error, p)
unfolding apply_patch
apply_patch_whole k before after p = rw (not_writable k before after) refl
