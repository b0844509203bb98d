-- ===== src/Faces/Choice.antt =====
-- Which face a mood gets.
use shelldon.Base.{
  ℕ, ◌≤◌, Bool, true, false, List, [], ◌∷◌, ◌++◌, ◌≡◌, refl, inl, inr, All, any_pass, arith,
  Bool-cases, leb,
}
use shelldon.Faces.{
  Face, Range, Mood, fits, within, token_of, select_face, default_faces, low_battery, sleepy,
  grumpy, excited, curious, content, default_face_token, minus_one, plus_one, nought,
}

-- A mood inside the bounds of the three axes.
pub record InBounds (m : Mood) : Type 0 where
  pub valence : (minus_one ≤ m.valence) × (m.valence ≤ plus_one)
  pub arousal : (minus_one ≤ m.arousal) × (m.arousal ≤ plus_one)
  pub energy : (nought ≤ m.energy) × (m.energy ≤ plus_one)

within_lem : (x : ℕ) (r : Range) → r.lo ≤ x → x ≤ r.hi → within x r ≡ true
unfolding within
within_lem x r l h = ground arith

fits_lem :
    (m : Mood) (f : Face)
    → within m.valence f.valence ≡ true
    → within m.arousal f.arousal ≡ true
    → within m.energy f.energy ≡ true
    → fits m f ≡ true
unfolding fits
fits_lem m f v a e = ground arith

any_last :
    {A : Type 0} (p : A → Bool) (xs : List A) (y : A)
    → p y ≡ true
    → any_pass p (xs ++ y ∷ []) ≡ true
any_last p [] y h = ground arith
any_last p (x ∷ xs) y h = ground (arith, any_last p xs y h)

any_first :
    {A : Type 0} (p : A → Bool) (x : A) (xs : List A) → p x ≡ true → any_pass p (x ∷ xs) ≡ true
any_first p x xs h = ground arith

-- With the starter faces, every mood in the bounds has a face of its own: the last one takes every
-- mood but those of a low battery, which the first takes.
pub default_faces-InBounds : (m : Mood) → InBounds m → any_pass (fits m) default_faces ≡ true
unfolding default_faces
default_faces-InBounds m b = elim (Bool-cases (leb m.energy 10_150)) [
  | inl low ↦ any_first (fits m) low_battery (sleepy ∷ grumpy ∷ excited ∷ curious ∷ content ∷ []) (
      fits_lem m low_battery (within_lem m.valence low_battery.valence b.valence.0 b.valence.1)
        (within_lem m.arousal low_battery.arousal b.arousal.0 b.arousal.1)
        (within_lem m.energy low_battery.energy b.energy.0 (ground arith)))
  | inr high ↦ any_last (fits m) (low_battery ∷ sleepy ∷ grumpy ∷ excited ∷ curious ∷ []) content (
      fits_lem m content (within_lem m.valence content.valence b.valence.0 b.valence.1)
        (within_lem m.arousal content.arousal b.arousal.0 b.arousal.1)
        (within_lem m.energy content.energy (ground arith) b.energy.1))
]

-- The chosen face is the first one that fits, whatever stands behind it; without one it is the
-- default token.
select_face-first :
    (before : List Face) (f : Face) (behind : List Face) (m : Mood)
    → All (λ g. fits m g ≡ false) before
    → (fits m f ≡ true → select_face (before ++ f ∷ behind) m ≡ token_of f)
      × (select_face before m ≡ default_face_token)
unfolding select_face
select_face-first [] f behind m none_fits = (λ h. rw h refl, refl)
select_face-first (g ∷ before) f behind m none_fits =
    let rest = select_face-first before f behind m none_fits.1 in rw none_fits.0 rest
