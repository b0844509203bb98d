-- ===== src/Memory/Markers.antt =====
-- The instructions keep the protocol of the reply parser.
use shelldon.Base.{ℕ, Option, none, some, Bool, true, false, not, List, [], ◌∷◌, ◌≡◌, refl, ap, ◌∙◌}
use shelldon.Base.Result.{Result, ok, err, value_error, require, ◌>>◌}
use shelldon.Base.Text.{Text, text_eq, is_blank}
use shelldon.Memory.{
  MemoryOp, remember, rewrite_about, rewrite_summary, rewrite_soul, rewrite_identity, rewrite_user,
  rewrite_instructions, log_episode, same_collection, file_eq, Tree, read_file, top, keeps_markers,
  atomic_write, apply_rewrite_instructions, apply_memory_op,
}
use shelldon.Memory.Files.{read-write_same}
use shelldon.Memory.Reach.{target, Attempt, kept, apply_all, kept_other, instructions_written}

-- There are instructions, with the markers that the reply parser needs.
abbrev pub instructions_kept : Option Text → Bool
instructions_kept none = false
instructions_kept (some text) = keeps_markers text

abbrev pub KeepsMarkers : Tree → Type 0
KeepsMarkers m = instructions_kept (read_file (top "BOT_INSTRUCTIONS.md") m) ≡ true

module _ (normalize : Text → Text) (is_word : ℕ → Bool) where
  instructions-KeepsMarkers :
      (readable written : Bool) (content : Text) (m : Tree)
      → KeepsMarkers m
      → KeepsMarkers (
          kept
            (apply_memory_op normalize is_word readable written (rewrite_instructions content) m)
            m)
  unfolding apply_memory_op
  instructions-KeepsMarkers readable written content m h =
      split (apply_rewrite_instructions written content m) refl
    where
      split :
          (r : Result Tree)
          → apply_rewrite_instructions written content m ≡ r
          → KeepsMarkers (kept r m)
      split (err e) k = h
      split (ok n) k =
          let (same, keeps) = instructions_written normalize is_word written content m n k in
          rw (same, read-write_same (top "BOT_INSTRUCTIONS.md") content m) keeps

  untouched :
      (readable written : Bool) (op : MemoryOp) (m : Tree)
      → file_eq (target normalize is_word op) (top "BOT_INSTRUCTIONS.md") ≡ false
      → KeepsMarkers m
      → KeepsMarkers (kept (apply_memory_op normalize is_word readable written op m) m)
  untouched readable written op m d h =
      ap instructions_kept
        (kept_other normalize is_word (top "BOT_INSTRUCTIONS.md") readable written op m d)
      ∙ h

  kept-KeepsMarkers :
      (readable written : Bool) (op : MemoryOp) (m : Tree)
      → KeepsMarkers m
      → KeepsMarkers (kept (apply_memory_op normalize is_word readable written op m) m)
  unfolding file_eq same_collection text_eq
  kept-KeepsMarkers readable written (rewrite_instructions content) m h =
      instructions-KeepsMarkers readable written content m h
  kept-KeepsMarkers readable written (remember c name content) m h =
      untouched readable written (remember c name content) m refl h
  kept-KeepsMarkers readable written (rewrite_about content) m h =
      untouched readable written (rewrite_about content) m refl h
  kept-KeepsMarkers readable written (rewrite_summary content) m h =
      untouched readable written (rewrite_summary content) m refl h
  kept-KeepsMarkers readable written (rewrite_soul content) m h =
      untouched readable written (rewrite_soul content) m refl h
  kept-KeepsMarkers readable written (rewrite_identity content) m h =
      untouched readable written (rewrite_identity content) m refl h
  kept-KeepsMarkers readable written (rewrite_user content) m h =
      untouched readable written (rewrite_user content) m refl h
  kept-KeepsMarkers readable written (log_episode content tags) m h =
      untouched readable written (log_episode content tags) m refl h

  refused :
      (readable written : Bool) (content : Text) (m : Tree)
      → keeps_markers content ≡ false
      → apply_memory_op normalize is_word readable written (rewrite_instructions content) m
        ≡ err value_error
  unfolding apply_memory_op apply_rewrite_instructions
  refused readable written content m h = split (not (is_blank content)) (keeps_markers content) h
    where
      split :
          (b c : Bool)
          → c ≡ false
          → (require b value_error
              >> (require c value_error
                  >> atomic_write written (top "BOT_INSTRUCTIONS.md") content m))
            ≡ err value_error
      split false c e = refl
      split true false e = refl
      split true true e = cc

  all-KeepsMarkers :
      (os : List Attempt) (m : Tree)
      → KeepsMarkers m
      → KeepsMarkers (apply_all normalize is_word os m)
  unfolding apply_all
  all-KeepsMarkers [] m h = h
  all-KeepsMarkers (((readable, written), op) ∷ os) m h =
      all-KeepsMarkers os (kept (apply_memory_op normalize is_word readable written op m) m)
        (kept-KeepsMarkers readable written op m h)

  -- Once there are instructions with the markers that the reply parser needs, no sequence of
  -- operations takes them away, the file or one of its markers; and a rewrite to a text without one
  -- of them is refused.
  pub apply_all-KeepsMarkers :
      (os : List Attempt) (m : Tree)
      → KeepsMarkers m
      → KeepsMarkers (apply_all normalize is_word os m)
        × ((readable written : Bool) (content : Text)
            → keeps_markers content ≡ false
            → apply_memory_op normalize is_word readable written
                (rewrite_instructions content)
                (apply_all normalize is_word os m)
              ≡ err value_error)
  apply_all-KeepsMarkers os m h = (
    all-KeepsMarkers os m h,
    λ readable written content. refused readable written content (apply_all normalize is_word os m),
  )
