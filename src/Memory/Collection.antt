-- ===== src/Memory/Collection.antt =====
-- shelldon/core/memory.py: `read_collection`, the notes of a collection in the order of their paths.
-- `readable` tells which files can be read.
use shelldon.Base.{
  ℕ, Option, none, some, Bool, true, false, ◌&&◌, ◌||◌, String, List, [], ◌∷◌, ◌++◌, ltb, ◌==◌, has,
  map, any_pass, ◌≡◌, refl, ap, ◌∙◌, arith, inl, inr, Bool-cases, if◌then◌else◌,
}
use shelldon.Base.Result.{Result, ok, value_error, require, ◌>>◌}
use shelldon.Base.Text.{Text, codes, text_eq, text_eq_refl}
use shelldon.Memory.{
  File, Tree, same_collection, file_eq, write_file, collections, universal_newlines, is_empty,
}
use shelldon.Memory.Files.{same_collection_refl}

-- The order of code points.
unfoldable pub text_before : Text → Text → Bool
text_before [] [] = false
text_before [] (d ∷ ds) = true
text_before (c ∷ cs) [] = false
text_before (c ∷ cs) (d ∷ ds) = let rest = text_before cs ds in if c == d then rest else ltb c d

-- The name without its last `.md`, if it ends so.
unfoldable pub without_md : Text → Option Text
unfolding text_eq
without_md [] = none
without_md (c ∷ cs) =
    let rest = without_md cs in
    if text_eq (c ∷ cs) (codes ".md")
    then some []
    else elim rest [ none ↦ none | some stem ↦ some (c ∷ stem) ]

named_stem : Text → Option Text → Option Text
named_stem name none = none
named_stem name (some []) = some name
named_stem name (some (c ∷ cs)) = some (c ∷ cs)

-- `path.stem`, of a path that the glob `*.md` matches
unfoldable pub stem_of : Text → Option Text
unfolding without_md named_stem
stem_of name = named_stem name (without_md name)

-- A note: the name of its file, its stem and its text.
abbrev pub Note : Type 0
Note = Text × (Text × Text)

note_with : Text → Text → Option Text → Option Note
unfolding universal_newlines
note_with name text none = none
note_with name text (some stem) = some (name, (stem, universal_newlines text))

unfoldable pub note_of : (File → Bool) → String → File → Text → Option Note
unfolding stem_of same_collection note_with
note_of readable c f text =
    if readable f && same_collection f.collection (some c)
    then note_with f.name text (stem_of f.name)
    else none

add_note : Option Note → List Note → List Note
add_note none ns = ns
add_note (some n) ns = n ∷ ns

unfoldable pub notes_of : (File → Bool) → String → Tree → List Note
unfolding note_of add_note
notes_of readable c [] = []
notes_of readable c ((f, text) ∷ m) = add_note (note_of readable c f text) (notes_of readable c m)

unfoldable pub insert_note : Note → List Note → List Note
unfolding text_before
insert_note n [] = n ∷ []
insert_note n (k ∷ ks) =
    let rest = insert_note n ks in if text_before n.0 k.0 then n ∷ k ∷ ks else k ∷ rest

unfoldable pub sort_notes : List Note → List Note
unfolding insert_note
sort_notes [] = []
sort_notes (n ∷ ns) = insert_note n (sort_notes ns)

unfoldable pub read_collection : (File → Bool) → String → Tree → Result (List (Text × Text))
unfolding notes_of sort_notes
read_collection readable c m = do
  require (has c collections) value_error
  ok (map (λ n. n.1) (sort_notes (notes_of readable c m)))

-- Some pair has this stem and this text.
abbrev pub is_listed : Text → Text → List (Text × Text) → Bool
is_listed stem text es = any_pass (λ e. text_eq e.0 stem && text_eq e.1 text) es

longer : (c : ℕ) (cs : Text) → text_eq (c ∷ (cs ++ codes ".md")) (codes ".md") ≡ false
unfolding text_eq
longer c [] = ground arith
longer c (d ∷ []) = ground arith
longer c (d ∷ e ∷ []) = ground arith
longer c (d ∷ e ∷ f ∷ cs) = ground arith

without_md-append : (stem : Text) → without_md (stem ++ codes ".md") ≡ some stem
unfolding without_md text_eq
without_md-append [] = refl
without_md-append (c ∷ cs) = rw (longer c cs, without_md-append cs) refl

stem_of-append : (c : ℕ) (cs : Text) → stem_of ((c ∷ cs) ++ codes ".md") ≡ some (c ∷ cs)
unfolding stem_of named_stem
stem_of-append c cs = ap (named_stem ((c ∷ cs) ++ codes ".md")) (without_md-append (c ∷ cs))

any_pass-insert_note :
    (p : Note → Bool) (n : Note) (ns : List Note)
    → any_pass p (insert_note n ns) ≡ (p n || any_pass p ns)
unfolding insert_note
any_pass-insert_note p n [] = refl
any_pass-insert_note p n (k ∷ ks) = ground (arith, any_pass-insert_note p n ks)

any_pass-sort_notes :
    (p : Note → Bool) (ns : List Note) → any_pass p (sort_notes ns) ≡ any_pass p ns
unfolding sort_notes
any_pass-sort_notes p [] = refl
any_pass-sort_notes p (n ∷ ns) =
    any_pass-insert_note p n (sort_notes ns) ∙ ap (λ b. p n || b) (any_pass-sort_notes p ns)

any_pass-map :
    {A C : Type 0} (q : C → Bool) (g : A → C) (xs : List A)
    → any_pass q (map g xs) ≡ any_pass (λ x. q (g x)) xs
any_pass-map q g [] = refl
any_pass-map q g (x ∷ xs) = ap (λ b. q (g x) || b) (any_pass-map q g xs)

or_true : (b : Bool) → (b || true) ≡ true
or_true true = refl
or_true false = refl

any_pass-add_note :
    (p : Note → Bool) (o : Option Note) (ns : List Note)
    → any_pass p ns ≡ true
    → any_pass p (add_note o ns) ≡ true
unfolding add_note
any_pass-add_note p none ns h = h
any_pass-add_note p (some n) ns h = ap (λ b. p n || b) h ∙ or_true (p n)

first_note :
    (p : Note → Bool) (o : Option Note) (n : Note) (ns : List Note)
    → o ≡ some n
    → p n ≡ true
    → any_pass p (add_note o ns) ≡ true
unfolding add_note
first_note p none n ns e h = cc
first_note p (some k) n ns e h = cc

notes_of-write_file :
    (p : Note → Bool) (readable : File → Bool) (c : String) (f : File) (text : Text) (n : Note)
    (m : Tree)
    → note_of readable c f text ≡ some n
    → p n ≡ true
    → any_pass p (notes_of readable c (write_file f text m)) ≡ true
unfolding notes_of write_file
notes_of-write_file p readable c f text n [] e h = first_note p (note_of readable c f text) n [] e h
notes_of-write_file p readable c f text n ((g, old) ∷ m) e h = elim (Bool-cases (file_eq g f)) [
  | inl same ↦ rw same (first_note p (note_of readable c f text) n (notes_of readable c m) e h)
  | inr other ↦ rw other (
      any_pass-add_note p (note_of readable c g old) (notes_of readable c (write_file f text m))
        (notes_of-write_file p readable c f text n m e h))
]

note_of-note :
    (c : String) (d : ℕ) (ds text : Text)
    → note_of (λ f. true) c (record { collection = some c; name = (d ∷ ds) ++ codes ".md" }) text
      ≡ some ((d ∷ ds) ++ codes ".md", (d ∷ ds, universal_newlines text))
unfolding note_of note_with
note_of-note c d ds text =
    rw (same_collection_refl (some c))
      (ap (note_with ((d ∷ ds) ++ codes ".md") text) (stem_of-append d ds))

listed_named :
    (c : String) (d : ℕ) (ds text : Text) (m : Tree)
    → has c collections ≡ true
    → (let f : File = record { collection = some c; name = (d ∷ ds) ++ codes ".md" } in
        (es : List (Text × Text)) × ((read_collection (λ f. true) c (write_file f text m) ≡ ok es)
          × (is_listed (d ∷ ds) (universal_newlines text) es ≡ true)))
unfolding read_collection
listed_named c d ds text m h =
    let f : File = record { collection = some c; name = (d ∷ ds) ++ codes ".md" } in
    let ns = notes_of (λ f. true) c (write_file f text m) in
    let q : Text × Text → Bool =
      λ e. text_eq e.0 (d ∷ ds) && text_eq e.1 (universal_newlines text) in
    (
      map (λ n. n.1) (sort_notes ns),
      (
        rw h refl,
        any_pass-map q (λ n. n.1) (sort_notes ns)
            ∙ (any_pass-sort_notes (λ n. q n.1) ns
                ∙ notes_of-write_file (λ n. q n.1) (λ f. true) c f text
                    (f.name, (d ∷ ds, universal_newlines text)) m (note_of-note c d ds text)
                    (rw (text_eq_refl (d ∷ ds)) (text_eq_refl (universal_newlines text)))),
      ),
    )

-- What was written to a file of a collection is among its notes.
pub listed :
    (c : String) (stem text : Text) (m : Tree)
    → has c collections ≡ true
    → is_empty stem ≡ false
    → (let f : File = record { collection = some c; name = stem ++ codes ".md" } in
        (es : List (Text × Text)) × ((read_collection (λ f. true) c (write_file f text m) ≡ ok es)
          × (is_listed stem (universal_newlines text) es ≡ true)))
listed c [] text m h e = cc
listed c (d ∷ ds) text m h e = listed_named c d ds text m h
