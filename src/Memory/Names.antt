-- ===== src/Memory/Names.antt =====
-- A name becomes a safe file name, and what is remembered under it is read back.
use mathlib.Core.Bool.{false≢true}
use shelldon.Base.{
  ℕ, List, ◌==◌, some, Bool, true, false, ◌&&◌, ◌||◌, String, [], ◌∷◌, has, all_pass, any_pass, ◌≡◌,
  refl, sym, ap, subst, ◌∙◌, inl, inr, arith, Bool-cases, if◌then◌else◌,
}
use shelldon.Base.Result.{ok}
use shelldon.Base.Text.{Text, is_blank}
use shelldon.Memory.{
  Tree, read_text, translated, universal_newlines, write_file, collections, dash, slash, sub_unsafe,
  drop_edge, drop_edge_end, is_edge, is_empty, safe_filename, atomic_write, apply_remember,
  remember,
}
use shelldon.Memory.Collection.{read_collection, is_listed, listed}
use shelldon.Memory.Files.{read-write_same}
use shelldon.Memory.Reach.{target}

same_number : (a b : ℕ) → (a == b) ≡ true → a ≡ b
same_number a b h = ground arith

first_safe : (a b : Bool) → (a && b) ≡ true → a ≡ true
first_safe true b h = refl
first_safe false b h = h

rest_safe : (a b : Bool) → (a && b) ≡ true → b ≡ true
rest_safe true b h = h
rest_safe false b h = cc

module _ (is_word : ℕ → Bool) where
  abbrev pub is_safe : ℕ → Bool
  is_safe c = is_word c || (c == dash)

  dash_safe : is_safe dash ≡ true
  dash_safe = ground arith

  either_safe :
      (b : Bool) (run : Text)
      → all_pass is_safe run ≡ true
      → all_pass is_safe (if b then run else dash ∷ run) ≡ true
  either_safe true run h = h
  either_safe false run h = rw dash_safe h

  sub_safe : (in_run : Bool) (cs : Text) → all_pass is_safe (sub_unsafe is_word in_run cs) ≡ true
  unfolding sub_unsafe
  sub_safe in_run [] = refl
  sub_safe in_run (c ∷ cs) = elim (Bool-cases (is_word c || (c == dash))) [
    | inl e ↦ rw (e, e) (sub_safe false cs)
    | inr n ↦ rw n (either_safe in_run (sub_unsafe is_word true cs) (sub_safe true cs))
  ]

  drop_safe : (cs : Text) → all_pass is_safe cs ≡ true → all_pass is_safe (drop_edge cs) ≡ true
  unfolding drop_edge
  drop_safe [] h = h
  drop_safe (c ∷ cs) h = elim (Bool-cases (is_edge c)) [
    | inl e ↦ rw e (drop_safe cs (ground arith))
    | inr n ↦ rw n h
  ]

  drop_end_safe :
      (cs : Text) → all_pass is_safe cs ≡ true → all_pass is_safe (drop_edge_end cs) ≡ true
  unfolding drop_edge_end
  drop_end_safe [] h = h
  drop_end_safe (c ∷ cs) h = elim (Bool-cases (all_pass is_edge (c ∷ cs))) [
    | inl e ↦ rw e refl
    | inr n ↦ rw n (ground (arith, drop_end_safe cs))
  ]

  not_safe : is_word slash ≡ false → is_safe slash ≡ false
  not_safe w = rw w refl

  no_slash :
      (cs : Text)
      → is_word slash ≡ false
      → all_pass is_safe cs ≡ true
      → any_pass (λ c. c == slash) cs ≡ false
  no_slash [] w h = refl
  no_slash (c ∷ cs) w h = elim (Bool-cases (c == slash)) [
    | inl e ↦ absurd (
        false≢true (
          sym (not_safe w)
          ∙ subst (λ d. is_safe d ≡ true) (same_number c slash e)
              (first_safe (is_safe c) (all_pass is_safe cs) h)))
    | inr n ↦ rw n (no_slash cs w (rest_safe (is_safe c) (all_pass is_safe cs) h))
  ]

  module _ (normalize : Text → Text) where
    -- Every character of a file name is a word character or a dash.
    pub safe_filename_safe :
        (name : Text) → all_pass is_safe (safe_filename normalize is_word name) ≡ true
    unfolding safe_filename
    safe_filename_safe name =
        drop_end_safe (drop_edge (sub_unsafe is_word false (normalize name)))
          (drop_safe (sub_unsafe is_word false (normalize name)) (sub_safe false (normalize name)))

    -- Where the slash is no word character, a note with a known collection, a text that is not blank
    -- and a name whose file name is not empty is stored when the write succeeds, never refused as
    -- escaping its collection, and is read back as it was written but for its newlines, each of
    -- which is read as a line feed; and where every file can be read, it is listed under its file name
    -- among the notes of the collection.
    pub apply_remember-read :
        (collection : String) (name content : Text) (m : Tree)
        → is_word slash ≡ false
        → has collection collections ≡ true
        → is_blank content ≡ false
        → is_empty (safe_filename normalize is_word name) ≡ false
        → (n : Tree) × ((apply_remember normalize is_word true collection name content m ≡ ok n)
            × ((read_text (target normalize is_word (remember collection name content)) n
                  ≡ some (universal_newlines content))
                × ((es : List (Text × Text)) × ((read_collection (λ f. true) collection n ≡ ok es)
                      × (is_listed
                            (safe_filename normalize is_word name)
                            (universal_newlines content)
                            es
                          ≡ true)))))
    unfolding apply_remember atomic_write read_text
    apply_remember-read collection name content m w c b e =
        let f = target normalize is_word (remember collection name content) in
        (
          write_file f content m,
          (
            rw
                (
                  c,
                  b,
                  e,
                  no_slash (safe_filename normalize is_word name) w (safe_filename_safe name),
                )
                refl,
            (
              ap translated (read-write_same f content m),
              listed collection (safe_filename normalize is_word name) content m c e,
            ),
          ),
        )
