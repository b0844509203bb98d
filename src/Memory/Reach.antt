-- ===== src/Memory/Reach.antt =====
-- Which files an operation can touch.
use shelldon.Base.{
  ◌||◌, ℕ, ◌==◌, some, Bool, true, false, not, String, List, [], ◌∷◌, ◌++◌, has, All, all_pass,
  any_pass, ◌≡◌, refl, ◌∙◌, sym, subst, arith, Bool-cases, inl, inr,
}
use shelldon.Base.Result.{Result, ok, err, value_error, os_error, require, ◌>>◌}
use shelldon.Base.Text.{Text, codes, is_blank, text_eq}
use shelldon.Memory.{
  is_present, MemoryOp, remember, rewrite_about, rewrite_summary, rewrite_soul, rewrite_identity,
  rewrite_user, rewrite_instructions, log_episode, File, same_collection, file_eq, Tree, read_file,
  read_text, write_file, top, directive_name, collections, keeps_markers, atomic_write,
  safe_filename, tag_header, episode_block, apply_remember, is_empty, slash, rewrite,
  apply_rewrite_instructions, apply_log_episode, apply_memory_op,
}
use shelldon.Memory.Files.{read-write_other}

-- An operation with the fate of its read and of its write.
abbrev pub Attempt : Type 0
Attempt = (Bool × Bool) × MemoryOp

abbrev pub kept : Result Tree → Tree → Tree
kept (ok n) m = n
kept (err e) m = m

-- The owner's directive and the prompt templates.
abbrev pub protected_files : List File
protected_files =
    directive_name
    ∷ top "HEARTBEAT.md"
    ∷ top "DREAM.md"
    ∷ top "BOOTSTRAP.md"
    ∷ top "TOOLS.md"
    ∷ top "ARCHITECTURE.md"
    ∷ []

-- The name of a file is one component of a path, and no directory of its own.
abbrev pub IsPlain : File → Type 0
IsPlain f =
    (any_pass (λ c. c == slash) f.name ≡ false)
    × ((text_eq f.name (codes ".") ≡ false) × (text_eq f.name (codes "..") ≡ false))

abbrev pub AllPlain : Tree → Type 0
AllPlain m = All (λ e. IsPlain e.0) m

no_slash-append :
    (a b : Text)
    → any_pass (λ c. c == slash) a ≡ false
    → any_pass (λ c. c == slash) b ≡ false
    → any_pass (λ c. c == slash) (a ++ b) ≡ false
no_slash-append [] b p q = q
no_slash-append (c ∷ cs) b p q = ground (arith, no_slash-append cs b)

no_dot : (stem : Text) → text_eq (stem ++ codes ".md") (codes ".") ≡ false
unfolding text_eq
no_dot [] = refl
no_dot (c ∷ []) = ground arith
no_dot (c ∷ d ∷ cs) = ground arith

no_dots : (stem : Text) → text_eq (stem ++ codes ".md") (codes "..") ≡ false
unfolding text_eq
no_dots [] = refl
no_dots (c ∷ []) = ground arith
no_dots (c ∷ d ∷ []) = ground arith
no_dots (c ∷ d ∷ e ∷ cs) = ground arith

note-IsPlain :
    (collection : String) (stem : Text)
    → any_pass (λ c. c == slash) stem ≡ false
    → IsPlain (record { collection = some collection; name = stem ++ codes ".md" })
note-IsPlain collection stem p =
    (no_slash-append stem (codes ".md") p refl, (no_dot stem, no_dots stem))

write_file-AllPlain :
    (f : File) (text : Text) (m : Tree) → IsPlain f → AllPlain m → AllPlain (write_file f text m)
unfolding write_file
write_file-AllPlain f text [] p h = (p, tt)
write_file-AllPlain f text ((g, old) ∷ m) p h = elim (Bool-cases (file_eq g f)) [
  | inl e ↦ rw e (p, h.1)
  | inr e ↦ rw e (h.0, write_file-AllPlain f text m p h.1)
]

module _ (normalize : Text → Text) (is_word : ℕ → Bool) where
  -- The one file that an operation writes.
  abbrev pub target : MemoryOp → File
  target (remember c name content) = record {
    collection = some c;
    name = safe_filename normalize is_word name ++ codes ".md";
  }
  target (rewrite_about content) = top "about.md"
  target (rewrite_summary content) = top "summary.md"
  target (rewrite_soul content) = top "SOUL.md"
  target (rewrite_identity content) = top "IDENTITY.md"
  target (rewrite_user content) = top "USER.md"
  target (rewrite_instructions content) = top "BOT_INSTRUCTIONS.md"
  target (log_episode content tags) = top "episodes.md"

  misses : (op : MemoryOp) → all_pass (λ f. not (file_eq (target op) f)) protected_files ≡ true
  unfolding file_eq same_collection text_eq
  misses (remember c name content) = refl
  misses (rewrite_about content) = refl
  misses (rewrite_summary content) = refl
  misses (rewrite_soul content) = refl
  misses (rewrite_identity content) = refl
  misses (rewrite_user content) = refl
  misses (rewrite_instructions content) = refl
  misses (log_episode content tags) = refl

  atomic_ok :
      (written : Bool) (f : File) (text : Text) (m n : Tree)
      → atomic_write written f text m ≡ ok n
      → n ≡ write_file f text m
  unfolding atomic_write
  atomic_ok true f text m n e = cc
  atomic_ok false f text m n e = cc

  -- An operation that succeeds has written its target, with a text for which `P` was checked.
  rewrite_ok :
      (written : Bool) (name : String) (content : Text) (m n : Tree)
      → rewrite written name content m ≡ ok n
      → n ≡ write_file (top name) content m
  unfolding rewrite
  rewrite_ok written name content m n e = split (not (is_blank content)) e
    where
      split :
          (b : Bool)
          → (require b value_error >> atomic_write written (top name) content m) ≡ ok n
          → n ≡ write_file (top name) content m
      split true e = atomic_ok written (top name) content m n e
      split false e = cc

  pub instructions_written :
      (written : Bool) (content : Text) (m n : Tree)
      → apply_rewrite_instructions written content m ≡ ok n
      → (n ≡ write_file (top "BOT_INSTRUCTIONS.md") content m) × (keeps_markers content ≡ true)
  unfolding apply_rewrite_instructions
  instructions_written written content m n e =
      split (not (is_blank content)) (keeps_markers content) refl e
    where
      split :
          (b c : Bool)
          → keeps_markers content ≡ c
          → (require b value_error
              >> (require c value_error
                  >> atomic_write written (top "BOT_INSTRUCTIONS.md") content m))
            ≡ ok n
          → (n ≡ write_file (top "BOT_INSTRUCTIONS.md") content m) × (keeps_markers content ≡ true)
      split true true k e = (atomic_ok written (top "BOT_INSTRUCTIONS.md") content m n e, k)
      split true false k e = cc
      split false c k e = cc

  log_ok :
      (readable written : Bool) (content : Text) (tags : List Text) (m n : Tree)
      → apply_log_episode readable written content tags m ≡ ok n
      → (text : Text) × (n ≡ write_file (top "episodes.md") text m)
  unfolding apply_log_episode
  log_ok readable written content tags m n e =
      let block =
        episode_block (read_text (top "episodes.md") m)
          (tag_header tags ++ (content ++ (10 ∷ []))) in
      (
        block,
        split (not (is_blank content))
            (readable || not (is_present (read_file (top "episodes.md") m))) block e,
      )
    where
      split :
          (b c : Bool) (text : Text)
          → (require b value_error
              >> (require c os_error >> atomic_write written (top "episodes.md") text m))
            ≡ ok n
          → n ≡ write_file (top "episodes.md") text m
      split true true text e = atomic_ok written (top "episodes.md") text m n e
      split true false text e = cc
      split false c text e = cc

  remember_ok :
      (written : Bool) (c : String) (name content : Text) (m n : Tree)
      → apply_remember normalize is_word written c name content m ≡ ok n
      → n ≡ write_file (target (remember c name content)) content m
  unfolding apply_remember
  remember_ok written c name content m n e =
      split (has c collections) (not (is_blank content))
        (not (is_empty (safe_filename normalize is_word name)))
        (not (any_pass (λ d. d == slash) (safe_filename normalize is_word name))) e
    where
      split :
          (p q r s : Bool)
          → (require p value_error
              >> (require q value_error
                  >> (require r value_error
                      >> (require s value_error
                          >> atomic_write written (target (remember c name content)) content m))))
            ≡ ok n
          → n ≡ write_file (target (remember c name content)) content m
      split false q r s e = cc
      split true false r s e = cc
      split true true false s e = cc
      split true true true false e = cc
      split true true true true e =
          atomic_ok written (target (remember c name content)) content m n e

  -- An operation that succeeds has written its target and nothing else.
  wrote :
      (readable written : Bool) (op : MemoryOp) (m n : Tree)
      → apply_memory_op normalize is_word readable written op m ≡ ok n
      → (text : Text) × (n ≡ write_file (target op) text m)
  unfolding apply_memory_op
  wrote readable written (remember c name content) m n e =
      (content, remember_ok written c name content m n e)
  wrote readable written (rewrite_about content) m n e =
      (content, rewrite_ok written "about.md" content m n e)
  wrote readable written (rewrite_summary content) m n e =
      (content, rewrite_ok written "summary.md" content m n e)
  wrote readable written (rewrite_soul content) m n e =
      (content, rewrite_ok written "SOUL.md" content m n e)
  wrote readable written (rewrite_identity content) m n e =
      (content, rewrite_ok written "IDENTITY.md" content m n e)
  wrote readable written (rewrite_user content) m n e =
      (content, rewrite_ok written "USER.md" content m n e)
  wrote readable written (rewrite_instructions content) m n e =
      (content, (instructions_written written content m n e).0)
  wrote readable written (log_episode content tags) m n e =
      log_ok readable written content tags m n e

  -- The tree after the operations, each of which may be rejected or fail.
  unfoldable pub apply_all : List Attempt → Tree → Tree
  apply_all [] m = m
  apply_all (((readable, written), op) ∷ os) m =
      apply_all os (kept (apply_memory_op normalize is_word readable written op m) m)

  pub kept_other :
      (f : File) (readable written : Bool) (op : MemoryOp) (m : Tree)
      → file_eq (target op) f ≡ false
      → read_file f (kept (apply_memory_op normalize is_word readable written op m) m)
        ≡ read_file f m
  kept_other f readable written op m h =
      split (apply_memory_op normalize is_word readable written op m) refl
    where
      split :
          (r : Result Tree)
          → apply_memory_op normalize is_word readable written op m ≡ r
          → read_file f (kept r m) ≡ read_file f m
      split (err e) k = refl
      split (ok n) k =
          let (text, same) = wrote readable written op m n k in
          rw same (read-write_other f (target op) text m h)

  all_other :
      (f : File) (os : List Attempt) (m : Tree)
      → ((op : MemoryOp) → file_eq (target op) f ≡ false)
      → read_file f (apply_all os m) ≡ read_file f m
  unfolding apply_all
  all_other f [] m h = refl
  all_other f (((readable, written), op) ∷ os) m h =
      all_other f os (kept (apply_memory_op normalize is_word readable written op m) m) h
      ∙ kept_other f readable written op m (h op)

  from_misses :
      (fs : List File) (os : List Attempt) (m : Tree)
      → ((op : MemoryOp) → all_pass (λ f. not (file_eq (target op) f)) fs ≡ true)
      → All (λ f. read_file f (apply_all os m) ≡ read_file f m) fs
  from_misses [] os m h = tt
  from_misses (f ∷ fs) os m h = (
    all_other f os m (λ op. ground (arith, h op)),
    from_misses fs os m (λ op. ground (arith, h op)),
  )

  remember_plain :
      (written : Bool) (c : String) (name content : Text) (m n : Tree)
      → apply_remember normalize is_word written c name content m ≡ ok n
      → any_pass (λ d. d == slash) (safe_filename normalize is_word name) ≡ false
  unfolding apply_remember
  remember_plain written c name content m n e =
      split (has c collections) (not (is_blank content))
        (not (is_empty (safe_filename normalize is_word name)))
        (any_pass (λ d. d == slash) (safe_filename normalize is_word name)) e
    where
      split :
          (p q r s : Bool)
          → (require p value_error
              >> (require q value_error
                  >> (require r value_error
                      >> (require (not s) value_error
                          >> atomic_write written (target (remember c name content)) content m))))
            ≡ ok n
          → s ≡ false
      split p q r false e = refl
      split false q r true e = cc
      split true false r true e = cc
      split true true false true e = cc
      split true true true true e = cc

  target-IsPlain :
      (readable written : Bool) (op : MemoryOp) (m n : Tree)
      → apply_memory_op normalize is_word readable written op m ≡ ok n
      → IsPlain (target op)
  unfolding apply_memory_op text_eq
  target-IsPlain readable written (remember c name content) m n e =
      note-IsPlain c (safe_filename normalize is_word name)
        (remember_plain written c name content m n e)
  target-IsPlain readable written (rewrite_about content) m n e = (refl, (refl, refl))
  target-IsPlain readable written (rewrite_summary content) m n e = (refl, (refl, refl))
  target-IsPlain readable written (rewrite_soul content) m n e = (refl, (refl, refl))
  target-IsPlain readable written (rewrite_identity content) m n e = (refl, (refl, refl))
  target-IsPlain readable written (rewrite_user content) m n e = (refl, (refl, refl))
  target-IsPlain readable written (rewrite_instructions content) m n e = (refl, (refl, refl))
  target-IsPlain readable written (log_episode content tags) m n e = (refl, (refl, refl))

  kept-IsPlain :
      (readable written : Bool) (op : MemoryOp) (m : Tree)
      → AllPlain m
      → AllPlain (kept (apply_memory_op normalize is_word readable written op m) m)
  kept-IsPlain readable written op m h =
      split (apply_memory_op normalize is_word readable written op m) refl
    where
      split :
          (r : Result Tree)
          → apply_memory_op normalize is_word readable written op m ≡ r
          → AllPlain (kept r m)
      split (err e) k = h
      split (ok n) k =
          let (text, same) = wrote readable written op m n k in
          subst AllPlain (sym same)
            (write_file-AllPlain (target op) text m (target-IsPlain readable written op m n k) h)

  all-AllPlain : (os : List Attempt) (m : Tree) → AllPlain m → AllPlain (apply_all os m)
  unfolding apply_all
  all-AllPlain [] m h = h
  all-AllPlain (((readable, written), op) ∷ os) m h =
      all-AllPlain os (kept (apply_memory_op normalize is_word readable written op m) m)
        (kept-IsPlain readable written op m h)

  pub All-protected :
      (os : List Attempt) (m : Tree)
      → All (λ f. read_file f (apply_all os m) ≡ read_file f m) protected_files
  All-protected os m = from_misses protected_files os m misses

  -- Whatever memory operations the pet proposes, and whichever of them are rejected or fail: every
  -- file still lies directly in its directory, its name being no path that leads out of it, whatever
  -- name the pet gave a note; and the owner's directive and the prompt templates stay as they were.
  pub apply_all-protected :
      (os : List Attempt) (m : Tree)
      → AllPlain m
      → AllPlain (apply_all os m)
        × All (λ f. read_file f (apply_all os m) ≡ read_file f m) protected_files
  apply_all-protected os m h = (all-AllPlain os m h, All-protected os m)
