-- ===== src/Memory/Files.antt =====
-- Reading back a file that was written.
use shelldon.Base.{
  Option, none, some, Bool, true, false, ◌&&◌, String, [], ◌∷◌, eq_iff, eq_refl, ◌≡◌, refl, ap, ◌∙◌,
  inl, inr, Bool-cases,
}
use shelldon.Base.Text.{Text, text_eq, text_eq_refl, text_eq→eq}
use shelldon.Memory.{File, same_collection, file_eq, Tree, read_file, write_file}

pub same_collection_refl : (c : Option String) → same_collection c c ≡ true
unfolding same_collection
same_collection_refl none = refl
same_collection_refl (some c) = eq_refl c

same_collection→eq : (c d : Option String) → same_collection c d ≡ true → c ≡ d
unfolding same_collection
same_collection→eq none none h = refl
same_collection→eq none (some d) h = cc
same_collection→eq (some c) none h = cc
same_collection→eq (some c) (some d) h = ap some ((eq_iff c d).0 h)

and_both : (a b : Bool) → (a && b) ≡ true → (a ≡ true) × (b ≡ true)
and_both true b h = (refl, h)
and_both false b h = cc

pub file_eq_refl : (f : File) → file_eq f f ≡ true
unfolding file_eq
file_eq_refl f = rw (same_collection_refl f.collection) (text_eq_refl f.name)

file_eq_swap : (k g f : File) → file_eq k g ≡ true → file_eq k f ≡ file_eq g f
unfolding file_eq
file_eq_swap k g f h =
    let both = and_both (same_collection k.collection g.collection) (text_eq k.name g.name) h in
    ap (λ c. same_collection c f.collection && text_eq k.name f.name)
      (same_collection→eq k.collection g.collection both.0)
    ∙ ap (λ n. same_collection g.collection f.collection && text_eq n f.name)
        (text_eq→eq k.name g.name both.1)

pub read-write_same :
    (f : File) (text : Text) (m : Tree) → read_file f (write_file f text m) ≡ some text
unfolding read_file write_file
read-write_same f text [] = rw (file_eq_refl f) refl
read-write_same f text ((g, old) ∷ m) = elim (Bool-cases (file_eq g f)) [
  | inl e ↦ rw (e, file_eq_refl f) refl
  | inr n ↦ rw (n, n) (read-write_same f text m)
]

pub read-write_other :
    (f g : File) (text : Text) (m : Tree)
    → file_eq g f ≡ false
    → read_file f (write_file g text m) ≡ read_file f m
unfolding read_file write_file
read-write_other f g text [] h = rw h refl
read-write_other f g text ((k, old) ∷ m) h = elim (Bool-cases (file_eq k g)) [
  | inl e ↦ rw (e, h, file_eq_swap k g f e, h) refl
  | inr n ↦ rw n (elim (Bool-cases (file_eq k f)) [
    | inl e ↦ rw e refl
    | inr o ↦ rw o (read-write_other f g text m h)
  ])
]
