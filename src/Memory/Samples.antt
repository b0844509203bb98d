-- ===== src/Memory/Samples.antt =====
-- A tree with a directive, and a few operations on it.
use shelldon.Base.{
  ℕ, Option, none, some, Bool, true, false, ◌&&◌, ◌||◌, leb, ◌==◌, String, List, [], ◌∷◌, ◌++◌, ◌≡◌,
  refl, All,
}
use shelldon.Base.Result.{ok, err, value_error}
use shelldon.Base.Text.{Text, codes, is_blank}
use shelldon.Memory.{
  remember, rewrite_instructions, rewrite_about, log_episode, Tree, read_file, read_text,
  universal_newlines, write_file, top, directive_name, keeps_markers, apply_memory_op,
  apply_remember, safe_filename, is_empty,
}
use shelldon.Memory.Reach.{
  target, Attempt, apply_all, AllPlain, protected_files, apply_all-protected,
}
use shelldon.Memory.Markers.{KeepsMarkers, apply_all-KeepsMarkers}
use shelldon.Memory.Collection.{read_collection, is_listed}
use shelldon.Memory.Names.{apply_remember-read}

abbrev is_letter : ℕ → Bool
is_letter c = leb 97 c && leb c 122

abbrev same : Text → Text
same t = t

abbrev tree : Tree
tree = (directive_name, codes "be kind") ∷ []

abbrev ops : List Attempt
ops =
    ((true, true), remember "people" (codes "../alex") (codes "likes tea"))
    ∷ ((true, true), rewrite_instructions (codes "be someone else"))
    ∷ ((true, false), rewrite_about (codes "about"))
    ∷ ((true, true), log_episode (codes "a walk") (codes "park" ∷ []))
    ∷ []

tree-AllPlain : AllPlain tree
unfolding shelldon.Base.Text.text_eq
tree-AllPlain = ((refl, (refl, refl)), tt)

apply_all-protected_example :
    AllPlain (apply_all same is_letter ops tree)
    × All (λ f. read_file f (apply_all same is_letter ops tree) ≡ read_file f tree) protected_files
apply_all-protected_example = apply_all-protected same is_letter ops tree tree-AllPlain

abbrev instructed : Tree
instructed = write_file (top "BOT_INSTRUCTIONS.md") (codes "THOUGHT: FACE: ```ops") tree

has_markers : KeepsMarkers instructed
unfolding read_file shelldon.Base.Text.text_eq write_file keeps_markers
has_markers = refl

apply_all-KeepsMarkers_example :
    KeepsMarkers (apply_all same is_letter ops instructed)
    × ((readable written : Bool) (content : Text)
        → keeps_markers content ≡ false
        → apply_memory_op same is_letter readable written
            (rewrite_instructions content)
            (apply_all same is_letter ops instructed)
          ≡ err value_error)
apply_all-KeepsMarkers_example = apply_all-KeepsMarkers same is_letter ops instructed has_markers

alex : safe_filename same is_letter (codes "../alex") ≡ codes "alex"
unfolding safe_filename
alex = refl

not_blank : is_blank (codes "likes tea") ≡ false
unfolding shelldon.Base.Text.is_space
not_blank = refl

has_stem : is_empty (safe_filename same is_letter (codes "alex")) ≡ false
unfolding safe_filename
has_stem = refl

apply_remember-read_example :
    (n : Tree) × ((apply_remember same is_letter true "people"
          (codes "alex")
          (codes "likes tea")
          tree
        ≡ ok n)
      × ((read_text (target same is_letter (remember "people" (codes "alex") (codes "likes tea"))) n
            ≡ some (universal_newlines (codes "likes tea")))
          × ((es : List (Text × Text)) × ((read_collection (λ f. true) "people" n ≡ ok es)
                × (is_listed
                      (safe_filename same is_letter (codes "alex"))
                      (universal_newlines (codes "likes tea"))
                      es
                    ≡ true)))))
apply_remember-read_example =
    apply_remember-read is_letter same "people" (codes "alex") (codes "likes tea") tree refl refl
      not_blank has_stem
