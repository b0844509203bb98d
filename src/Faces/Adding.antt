-- ===== src/Faces/Adding.antt =====
-- What an addition does to the registry.
use shelldon.Base.{
  Bool, true, false, not, ◌&&◌, ◌||◌, String, List, [], ◌∷◌, ◌++◌, ◌≡◌, refl, sym, ap, ◌∙◌, inl,
  inr, any_pass, str_eq, eq_iff, if◌then◌else◌, arith, Bool-cases,
}
use shelldon.Base.Result.{Result, ok, err, require, value_error, os_error, ◌>>◌}
use shelldon.Faces.{
  Face, Mood, fits, token_of, select_face, default_face_token, is_named, put_over, put_new,
  add_face, validate_face,
}

-- No two faces share a name.
abbrev pub IsNamed : List Face → Type 0
IsNamed [] = Unit
IsNamed (f ∷ fs) = (is_named f.name fs ≡ false) × IsNamed fs

put_new_last :
    (front : List Face) (f c : Face)
    → token_of c ≡ default_face_token
    → put_new f (front ++ c ∷ []) ≡ front ++ f ∷ c ∷ []
unfolding put_new
put_new_last [] f c h = rw h refl
put_new_last (g ∷ []) f c h = rw h refl
put_new_last (g ∷ h ∷ front) f c e = ap (λ l. g ∷ l) (put_new_last (h ∷ front) f c e)

select_past :
    (front : List Face) (f c : Face) (m : Mood)
    → select_face (front ++ f ∷ c ∷ []) m ≡ (
        if not (any_pass (fits m) front) && fits m f
        then token_of f
        else select_face (front ++ c ∷ []) m)
unfolding select_face
select_past [] f c m = elim (Bool-cases (fits m f)) [ inl e ↦ rw e refl | inr e ↦ rw e refl ]
select_past (g ∷ front) f c m = elim (Bool-cases (fits m g)) [
  | inl e ↦ rw e refl
  | inr e ↦ rw e (select_past front f c m)
]

added :
    (f : Face) (replace written : Bool) (fs gs : List Face)
    → add_face f replace written fs ≡ ok gs
    → gs ≡ (if is_named f.name fs then put_over f fs else put_new f fs)
unfolding add_face
added f replace written fs gs e =
    split (validate_face f) (require (not (is_named f.name fs && not replace)) value_error)
      (require written os_error) e
  where
    split :
        (a b c : Result (Unit {0}))
        → (a >> (b >> (c >> ok (if is_named f.name fs then put_over f fs else put_new f fs))))
          ≡ ok gs
        → gs ≡ (if is_named f.name fs then put_over f fs else put_new f fs)
    split (err x) b c e = cc
    split (ok u) (err x) c e = cc
    split (ok u) (ok v) (err x) e = cc
    split (ok u) (ok v) (ok w) e = cc

-- A new face goes right before the catch-all, which stays last: it is chosen for the moods in its
-- ranges that no earlier face takes, and no other mood gets another face than before.
pub add_face-catch_all :
    (front : List Face) (f c : Face) (replace written : Bool) (gs : List Face)
    → token_of c ≡ default_face_token
    → is_named f.name (front ++ c ∷ []) ≡ false
    → add_face f replace written (front ++ c ∷ []) ≡ ok gs
    → (gs ≡ front ++ f ∷ c ∷ [])
      × ((m : Mood)
          → select_face gs m ≡ (
              if not (any_pass (fits m) front) && fits m f
              then token_of f
              else select_face (front ++ c ∷ []) m))
add_face-catch_all front f c replace written gs last free e =
    let same =
      added f replace written (front ++ c ∷ []) gs e ∙ rw free (put_new_last front f c last) in
    (same, λ m. rw same (select_past front f c m))

is_named-put_over :
    (n : String) (f : Face) (fs : List Face)
    → is_named f.name fs ≡ true
    → is_named n (put_over f fs) ≡ is_named n fs
unfolding put_over
is_named-put_over n f [] h = ground arith
is_named-put_over n f (g ∷ gs) h =
    ground (arith, eq_iff g.name f.name, eq_iff g.name n, eq_iff f.name n, is_named-put_over n f gs)

put_over-IsNamed :
    (f : Face) (fs : List Face) → is_named f.name fs ≡ true → IsNamed fs → IsNamed (put_over f fs)
unfolding put_over
put_over-IsNamed f [] h d = tt
put_over-IsNamed f (g ∷ gs) h d = elim (Bool-cases (str_eq g.name f.name)) [
  | inl e ↦ rw e (rw (sym ((eq_iff g.name f.name).0 e)) d.0, d.1)
  | inr n ↦
      rw n (
        is_named-put_over g.name f gs (ground arith) ∙ d.0,
        put_over-IsNamed f gs (ground arith) d.1,
      )
]

is_named-put_new :
    (n : String) (f : Face) (fs : List Face)
    → is_named n (put_new f fs) ≡ (str_eq f.name n || is_named n fs)
unfolding put_new
is_named-put_new n f [] = refl
is_named-put_new n f (g ∷ []) = ground arith
is_named-put_new n f (g ∷ h ∷ gs) = ground (arith, is_named-put_new n f (h ∷ gs))

put_new-IsNamed :
    (f : Face) (fs : List Face) → is_named f.name fs ≡ false → IsNamed fs → IsNamed (put_new f fs)
unfolding put_new
put_new-IsNamed f [] h d = (refl, tt)
put_new-IsNamed f (g ∷ []) h d = elim (Bool-cases (str_eq (token_of g) default_face_token)) [
  | inl e ↦ rw e (h, d)
  | inr e ↦ rw e (ground (arith, eq_iff f.name g.name, eq_iff g.name f.name), (refl, tt))
]
put_new-IsNamed f (g ∷ k ∷ gs) h d = (
  ground
      (arith, is_named-put_new g.name f (k ∷ gs), eq_iff f.name g.name, eq_iff g.name f.name, d.0),
  put_new-IsNamed f (k ∷ gs) (ground arith) d.1,
)

-- Additions keep the names of the faces distinct, also when they replace a face; and each adds its
-- own name and removes none.
pub add_face-IsNamed :
    (f : Face) (replace written : Bool) (fs gs : List Face)
    → IsNamed fs
    → add_face f replace written fs ≡ ok gs
    → IsNamed gs × ((n : String) → is_named n gs ≡ (str_eq f.name n || is_named n fs))
add_face-IsNamed f replace written fs gs d e = elim (Bool-cases (is_named f.name fs)) [
  | inl old ↦
      rw (added f replace written fs gs e, old)
        (put_over-IsNamed f fs old d, λ n. is_named-put_over n f fs old ∙ known n old)
  | inr new ↦
      rw (added f replace written fs gs e, new)
        (put_new-IsNamed f fs new d, λ n. is_named-put_new n f fs)
]
  where
    known :
        (n : String)
        → is_named f.name fs ≡ true
        → is_named n fs ≡ (str_eq f.name n || is_named n fs)
    known n h = elim (Bool-cases (str_eq f.name n)) [
      | inl same ↦ rw same (rw (sym ((eq_iff f.name n).0 same)) h)
      | inr other ↦ rw other refl
    ]
